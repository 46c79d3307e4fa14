-- ===== src/DynList/Remove.antt =====
-- Removing an entry in the middle or at the end of a dynamic list.
use mathlib.Core.Path.{fun_ext}
use mathlib.Core.List.{append-nil}
use queue_c.Base.{
  subst, ◌==◌, ℕ, ◌-◌, ◌≡◌, ◌≢◌, refl, ◌∙◌, true, false, Option, none, some, List, [], ◌∷◌, ◌++◌,
  arith, if◌then◌else◌, All-append, All-left, All-right, NotIn, NotIn-before, Distinct,
  Distinct-left, Distinct-right, Distinct-remove, length-append,
}
use queue_c.StaticList.Links.{last_cell, All-last_cell}
use queue_c.StaticList.Rep.{NotIn-last_cell}
use queue_c.DynList.{DynList, set, removeentry, poptail, same_pointer}
use queue_c.DynList.Rep.{
  Rep, Linked, first_of, last_of, Linked-set_prev, Linked-set_next, alive-set, Linked-left,
  Linked-right, Linked-append, last_of-append,
}
use queue_c.DynList.Ends.{contents, set_self, set_other}

pub last_of-cell : (y : ℕ) (ys : List ℕ) → last_of (some y) ys ≡ some (last_cell y ys)
last_of-cell y [] = refl
last_of-cell y (z ∷ ys) = last_of-cell z ys

-- The links on after the last entry of `ys` has got another, and back for the first of `zs`.
abbrev pub next_of : (ℕ → Option ℕ) → List ℕ → Option ℕ → ℕ → Option ℕ
next_of next [] v = next
next_of next (y ∷ ys) v = set next (last_cell y ys) v

abbrev prev_of : (ℕ → Option ℕ) → List ℕ → Option ℕ → ℕ → Option ℕ
prev_of prev [] v = prev
prev_of prev (z ∷ zs) v = set prev z v

module _ (prev next : ℕ → Option ℕ) where
  pub Linked-next_of :
      (p : Option ℕ) (ys : List ℕ) (m v : Option ℕ)
      → Distinct ys
      → Linked prev next p ys m
      → Linked prev (next_of next ys v) p ys v
  Linked-next_of p [] m v d l = tt
  Linked-next_of p (y ∷ []) m v d l = (l.0, set_self next y v, tt)
  Linked-next_of p (y ∷ z ∷ ys) m v d l = (
    l.0,
    set_other next (last_cell z ys) v y (All-last_cell (λ t. y ≢ t) z ys d.0) ∙ l.1,
    Linked-next_of (some y) (z ∷ ys) m v d.1 l.2,
  )

  Linked-next_of-other :
      (p : Option ℕ) (ys zs : List ℕ) (v m : Option ℕ)
      → Distinct (ys ++ zs)
      → Linked prev next p zs m
      → Linked prev (next_of next ys v) p zs m
  Linked-next_of-other p [] zs v m d l = l
  Linked-next_of-other p (y ∷ ys) zs v m d l =
      Linked-set_next (last_cell y ys) v prev next p zs m (NotIn-last_cell y ys zs d) l

  Linked-prev_of :
      (p v : Option ℕ) (zs : List ℕ) (m : Option ℕ)
      → Distinct zs
      → Linked prev next p zs m
      → Linked (prev_of prev zs v) next v zs m
  Linked-prev_of p v [] m d l = tt
  Linked-prev_of p v (z ∷ zs) m d l =
      (set_self prev z v, l.1, Linked-set_prev z v prev next (some z) zs m d.0 l.2)

  Linked-prev_of-other :
      (p : Option ℕ) (ys zs : List ℕ) (v m : Option ℕ)
      → Distinct (ys ++ zs)
      → Linked prev next p ys m
      → Linked (prev_of prev zs v) next p ys m
  Linked-prev_of-other p ys [] v m d l = l
  Linked-prev_of-other p ys (z ∷ zs) v m d l =
      Linked-set_prev z v prev next p ys m (NotIn-before ys zs z d) l

abbrev pub if_none {ℓ} : {A : Type ℓ} → List ℕ → A → A → A
if_none [] a b = a
if_none (x ∷ xs) a b = b

-- The list without the entry `x` between `ys` and `zs`.
abbrev without : DynList → List ℕ → ℕ → List ℕ → DynList
without l ys x zs = record l {
  heap = record l.heap {
    next = next_of l.heap.next ys (first_of zs none);
    prev = prev_of l.heap.prev zs (last_of none ys);
    live = set l.heap.live x false;
  };
  head = if_none ys (first_of zs none) l.head;
  tail = if_none zs (last_of none ys) l.tail;
  cur = if same_pointer l.cur (some x) then first_of zs none else l.cur;
  count = l.count - 1;
}

head-without :
    (ys : List ℕ) (x : ℕ) (zs : List ℕ) (h : Option ℕ)
    → h ≡ first_of (ys ++ (x ∷ zs)) none
    → if_none ys (first_of zs none) h ≡ first_of (ys ++ zs) none
head-without [] x zs h e = refl
head-without (y ∷ ys) x zs h e = e

tail-without :
    (ys : List ℕ) (x : ℕ) (zs : List ℕ) (t : Option ℕ)
    → t ≡ last_of none (ys ++ (x ∷ zs))
    → if_none zs (last_of none ys) t ≡ last_of none (ys ++ zs)
tail-without ys x [] t e = rw last_of-append
tail-without ys x (z ∷ zs) t e = e ∙ rw (last_of-append, last_of-append)

NotIn-both : (ys zs : List ℕ) (x : ℕ) → Distinct (ys ++ (x ∷ zs)) → NotIn x (ys ++ zs)
NotIn-both ys zs x d = All-append _ ys zs (NotIn-before ys zs x d) (Distinct-right ys (x ∷ zs) d).0

module _ (l : DynList) (ys : List ℕ) (x : ℕ) (zs : List ℕ) (r : Rep l (ys ++ (x ∷ zs))) where
  here : Linked l.heap.prev l.heap.next (last_of none ys) (x ∷ zs) none
  here = Linked-right l.heap.prev l.heap.next none ys (x ∷ zs) none r.linked

  without-Rep : Rep (without l ys x zs) (ys ++ zs)
  without-Rep =
      let apart : Distinct (ys ++ zs) = Distinct-remove ys zs x r.distinct in
      let before =
        Linked-next_of l.heap.prev l.heap.next none ys (some x) (first_of zs none)
          (Distinct-left ys zs apart)
          (Linked-left l.heap.prev l.heap.next none ys (x ∷ zs) none r.linked) in
      let after =
        Linked-next_of-other l.heap.prev l.heap.next (some x) ys zs (first_of zs none) none apart
          here.2 in
      record {
        linked =
            Linked-append _ _ none ys zs none
              (Linked-prev_of-other l.heap.prev _ none ys zs (last_of none ys) _ apart before)
              (Linked-prev_of l.heap.prev _ (some x) (last_of none ys) zs none
                (Distinct-right ys zs apart) after);
        alive = alive-set l.heap.live x false (ys ++ zs) (NotIn-both ys zs x r.distinct) (
            All-append _ ys zs (All-left _ ys (x ∷ zs) r.alive)
              (All-right _ ys (x ∷ zs) r.alive).1);
        head = head-without ys x zs l.head r.head;
        tail = tail-without ys x zs l.tail r.tail;
        count = omega (arith, r.count, length-append ys (x ∷ zs), length-append ys zs);
        distinct = apart;
      }

-- A member that is written twice.
set_twice : (f : ℕ → Option ℕ) (a : ℕ) (v : Option ℕ) → set (set f a v) a v ≡ set f a v
set_twice f a v = fun_ext (λ k. ground arith)

removeentry-eq :
    (l : DynList) (ys : List ℕ) (x : ℕ) (zs : List ℕ)
    → Rep l (ys ++ (x ∷ zs))
    → removeentry l x ≡ some (without l ys x zs)
unfolding removeentry
removeentry-eq l [] x [] r = rw (r.alive.0, r.linked.0, r.linked.1, r.linked.0, r.alive.0)
removeentry-eq l [] x (z ∷ zs) r =
    let twice = set_twice l.heap.prev z none in
    simp (r.alive.0, r.linked.1, r.linked.0, r.alive.1.0, twice)
removeentry-eq l (y ∷ ys) x [] r =
    let live_x : l.heap.live x ≡ true = (All-right _ (y ∷ ys) (x ∷ []) r.alive).0 in
    let live_p : l.heap.live (last_cell y ys) ≡ true =
      All-last_cell (λ t. l.heap.live t ≡ true) y ys (All-left _ (y ∷ ys) (x ∷ []) r.alive) in
    let before : l.heap.prev x ≡ some (last_cell y ys) =
      (here l (y ∷ ys) x [] r).0 ∙ last_of-cell y ys in
    let after : l.heap.next x ≡ none = (here l (y ∷ ys) x [] r).1 in
    let twice = set_twice l.heap.next (last_cell y ys) none in
    simp (live_x, before, after, live_p, twice, last_of-cell)
removeentry-eq l (y ∷ ys) x (z ∷ zs) r =
    let alive = All-right _ (y ∷ ys) (x ∷ z ∷ zs) r.alive in
    let live_p : l.heap.live (last_cell y ys) ≡ true =
      All-last_cell (λ t. l.heap.live t ≡ true) y ys (All-left _ (y ∷ ys) (x ∷ z ∷ zs) r.alive) in
    let before : l.heap.prev x ≡ some (last_cell y ys) =
      (here l (y ∷ ys) x (z ∷ zs) r).0 ∙ last_of-cell y ys in
    let after : l.heap.next x ≡ some z = (here l (y ∷ ys) x (z ∷ zs) r).1 in
    simp (alive.0, before, after, live_p, alive.1.0, last_of-cell)

-- Removing an entry of a well-formed dynamic list touches allocated entries only, leaves the other
-- entries linked both ways in their order with their data, and frees the entry.
pub removeentry-Rep :
    (l : DynList) (ys : List ℕ) (x : ℕ) (zs : List ℕ)
    → Rep l (ys ++ (x ∷ zs))
    → (l' : DynList) × (removeentry l x ≡ some l')
      × Rep l' (ys ++ zs)
      × (contents l' (ys ++ zs) ≡ contents l (ys ++ zs))
      × (l'.heap.live x ≡ false)
removeentry-Rep l ys x zs r = (
  without l ys x zs,
  removeentry-eq l ys x zs r,
  without-Rep l ys x zs r,
  refl,
  set_self l.heap.live x false,
)

poptail-eq :
    (l : DynList) (ys : List ℕ) (x : ℕ)
    → Rep l (ys ++ (x ∷ []))
    → poptail l ≡ some (some (l.heap.data_of x), without l ys x [])
unfolding poptail
poptail-eq l [] x r =
    let alone : (x == x) ≡ true = ground arith in
    rw (r.head, r.tail, r.alive.0, alone) (simp (r.alive.0, r.linked.0))
poptail-eq l (y ∷ ys) x r =
    let live_x : l.heap.live x ≡ true = (All-right _ (y ∷ ys) (x ∷ []) r.alive).0 in
    let live_p : l.heap.live (last_cell y ys) ≡ true =
      All-last_cell (λ t. l.heap.live t ≡ true) y ys (All-left _ (y ∷ ys) (x ∷ []) r.alive) in
    let before : l.heap.prev x ≡ some (last_cell y ys) =
      (here l (y ∷ ys) x [] r).0 ∙ last_of-cell y ys in
    let tail : l.tail ≡ some x = r.tail ∙ last_of-append none (y ∷ ys) (x ∷ []) in
    let apart : y ≢ x = (All-right _ ys (x ∷ []) r.distinct.0).0 in
    let others : (x == y) ≡ false = ground arith in
    rw (r.head, tail, live_x, before, others) (simp (live_x, live_p, last_of-cell))

-- Popping at the tail gives the data of the last entry, leaves the others and frees the last.
pub poptail-Rep :
    (l : DynList) (ys : List ℕ) (x : ℕ)
    → Rep l (ys ++ (x ∷ []))
    → (l' : DynList) × (poptail l ≡ some (some (l.heap.data_of x), l'))
      × Rep l' ys
      × (contents l' ys ≡ contents l ys)
      × (l'.heap.live x ≡ false)
poptail-Rep l ys x r = (
  without l ys x [],
  poptail-eq l ys x r,
  subst (Rep (without l ys x [])) (append-nil ys) (without-Rep l ys x [] r),
  refl,
  set_self l.heap.live x false,
)
