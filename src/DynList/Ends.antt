-- ===== src/DynList/Ends.antt =====
-- Inserting and popping at the ends of a dynamic list.
use queue_c.Base.{
  ℕ, ◌+◌, ◌-◌, ◌≡◌, ◌≢◌, refl, sym, ap, ap₂, ◌∙◌, true, false, Bool, Option, none, some, List, [],
  ◌∷◌, map, arith, if◌then◌else◌, ◌==◌, All, NotIn,
}
use queue_c.DynList.{DynList, set, allocate, or_else, inserthead, pophead, same_pointer}
use queue_c.DynList.Rep.{Rep, first_of, last_of, Linked-set_prev, Linked-set_next, alive-set}

-- The data of the entries, in order.
abbrev pub contents : DynList → List ℕ → List ℕ
contents l xs = map l.heap.data_of xs

-- An address that is not allocated is not on the list.
pub NotIn-fresh :
    (live : ℕ → Bool) (a : ℕ) (xs : List ℕ)
    → live a ≡ false
    → All (λ x. live x ≡ true) xs
    → NotIn a xs
NotIn-fresh live a [] f h = tt
NotIn-fresh live a (x ∷ xs) f h = (λ e. cc (ap live e), NotIn-fresh live a xs f h.1)

pub map-set : (f : ℕ → ℕ) (a v : ℕ) (xs : List ℕ) → NotIn a xs → map (set f a v) xs ≡ map f xs
map-set f a v [] out = refl
map-set f a v (x ∷ xs) out = ground (arith, map-set f a v xs out.1)

pub set_self {ℓ} : {A : Type ℓ} (f : ℕ → A) (a : ℕ) (v : A) → set f a v a ≡ v
set_self f a v = ground arith

pub set_other {ℓ} : {A : Type ℓ} (f : ℕ → A) (a : ℕ) (v : A) (k : ℕ) → k ≢ a → set f a v k ≡ f k
set_other f a v k ne = ground arith

or_else-last_of :
    (x : ℕ) (xs : List ℕ) (d : Option ℕ) → or_else (last_of (some x) xs) d ≡ last_of (some x) xs
or_else-last_of x [] d = refl
or_else-last_of x (y ∷ xs) d = or_else-last_of y xs d

-- A new entry before the first.
abbrev with_head : DynList → ℕ → ℕ → List ℕ → DynList
with_head l value a [] = record l {
  heap = allocate l.heap a none none value;
  tail = some a;
  head = some a;
  count = l.count + 1;
}
with_head l value a (x ∷ xs) = record l {
  heap = record (allocate l.heap a (some x) none value) {
    prev = set (set l.heap.prev a none) x (some a);
  };
  head = some a;
  count = l.count + 1;
}

module _ (l : DynList) (value a : ℕ) (fresh : l.heap.live a ≡ false) where
  with_head-Rep : (xs : List ℕ) → Rep l xs → Rep (with_head l value a xs) (a ∷ xs)
  with_head-Rep [] r = record {
    linked = (set_self l.heap.prev a none, set_self l.heap.next a none, tt);
    alive = (set_self l.heap.live a true, tt);
    head = refl;
    tail = refl;
    count = omega (arith, r.count);
    distinct = (tt, tt);
  }
  with_head-Rep (x ∷ xs) r =
      let out = NotIn-fresh l.heap.live a (x ∷ xs) fresh r.alive in
      record {
        linked = (
          set_other (set l.heap.prev a none) x (some a) a out.0 ∙ set_self l.heap.prev a none,
          set_self l.heap.next a (some x),
          (
            set_self (set l.heap.prev a none) x (some a),
            set_other l.heap.next a (some x) x (λ e. out.0 (sym e)) ∙ r.linked.1,
            Linked-set_prev x (some a) (set l.heap.prev a none) (set l.heap.next a (some x))
                (some x) xs none r.distinct.0
                (Linked-set_prev a none l.heap.prev (set l.heap.next a (some x)) (some x) xs none
                  out.1
                  (Linked-set_next a (some x) l.heap.prev l.heap.next (some x) xs none out.1
                    r.linked.2)),
          ),
        );
        alive = (set_self l.heap.live a true, alive-set l.heap.live a true (x ∷ xs) out r.alive);
        head = refl;
        tail = r.tail;
        count = omega (arith, r.count);
        distinct = (out, r.distinct);
      }

  inserthead-eq : (xs : List ℕ) → Rep l xs → inserthead l value a ≡ some (with_head l value a xs)
  unfolding inserthead
  inserthead-eq [] r = rw (r.head, r.tail)
  inserthead-eq (x ∷ xs) r =
      let there : set l.heap.live a true x ≡ true =
        (alive-set l.heap.live a true (x ∷ xs) (NotIn-fresh l.heap.live a (x ∷ xs) fresh r.alive)
          r.alive).0 in
      rw (r.head, there, r.tail, or_else-last_of x xs (some a))

  -- Inserting at the head puts the entry with its data before the others.
  pub inserthead-Rep :
      (xs : List ℕ)
      → Rep l xs
      → (l' : DynList) × (inserthead l value a ≡ some l')
        × Rep l' (a ∷ xs)
        × (contents l' (a ∷ xs) ≡ value ∷ contents l xs)
  inserthead-Rep xs r =
      (with_head l value a xs, inserthead-eq xs r, with_head-Rep xs r, data_of xs r)
    where
      data_of :
          (xs : List ℕ)
          → Rep l xs
          → contents (with_head l value a xs) (a ∷ xs) ≡ value ∷ contents l xs
      data_of [] r = ap (λ v. v ∷ []) (set_self l.heap.data_of a value)
      data_of (x ∷ xs) r = ap₂ ◌∷◌ (set_self l.heap.data_of a value) (
          map-set l.heap.data_of a value (x ∷ xs)
            (NotIn-fresh l.heap.live a (x ∷ xs) fresh r.alive))

abbrev prev_of : (ℕ → Option ℕ) → List ℕ → ℕ → Option ℕ
prev_of prev [] = prev
prev_of prev (y ∷ ys) = set prev y none

-- The list without its first entry.
abbrev without_head : DynList → ℕ → List ℕ → DynList
without_head l x xs = record l {
  heap = record l.heap { prev = prev_of l.heap.prev xs; live = set l.heap.live x false };
  cur = if same_pointer l.cur (some x) then first_of xs none else l.cur;
  head = first_of xs none;
  count = l.count - 1;
  tail = if l.count - 1 == 0 then none else l.tail;
}

pophead-eq :
    (l : DynList) (x : ℕ) (xs : List ℕ)
    → Rep l (x ∷ xs)
    → pophead l ≡ some (some (l.heap.data_of x), without_head l x xs)
unfolding pophead
pophead-eq l x [] r = rw (r.head, r.alive.0, r.linked.1, r.alive.0)
pophead-eq l x (y ∷ xs) r = rw (r.head, r.alive.0, r.linked.1, r.alive.1.0, r.alive.0)

without_head-Rep :
    (l : DynList) (x : ℕ) (xs : List ℕ) → Rep l (x ∷ xs) → Rep (without_head l x xs) xs
without_head-Rep l x [] r = record {
  linked = tt;
  alive = tt;
  head = refl;
  tail = ground (arith, r.count);
  count = omega (arith, r.count);
  distinct = tt;
}
without_head-Rep l x (y ∷ xs) r = record {
  linked = (
    set_self l.heap.prev y none,
    r.linked.2.1,
    Linked-set_prev y none l.heap.prev l.heap.next (some y) xs none r.distinct.1.0 r.linked.2.2,
  );
  alive = alive-set l.heap.live x false (y ∷ xs) r.distinct.0 r.alive.1;
  head = refl;
  tail = let more : (l.count - 1 == 0) ≡ false = ground (arith, r.count) in rw more r.tail;
  count = omega (arith, r.count);
  distinct = r.distinct.1;
}

-- Popping a well-formed dynamic list that has an entry touches allocated entries only, gives the
-- data of the first entry, leaves the others linked in their order with their data, and frees the
-- first.
pub pophead-Rep :
    (l : DynList) (x : ℕ) (xs : List ℕ)
    → Rep l (x ∷ xs)
    → (l' : DynList) × (pophead l ≡ some (some (l.heap.data_of x), l'))
      × Rep l' xs
      × (contents l' xs ≡ contents l xs)
      × (l'.heap.live x ≡ false)
pophead-Rep l x xs r = (
  without_head l x xs,
  pophead-eq l x xs r,
  without_head-Rep l x xs r,
  refl,
  set_self l.heap.live x false,
)
