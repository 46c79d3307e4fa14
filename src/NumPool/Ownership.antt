-- ===== src/NumPool/Ownership.antt =====
-- Which numbers a pool holds and which its clients hold.
use mathlib.Core.List.{append-nil, append_assoc}
use queue_c.Base.{
  ℕ, suc, ◌+◌, ◌≡◌, ◌<◌, refl, sym, subst, true, All, All-append, Below_of_eq, All-left, All-right,
  List, [], ◌∷◌, ◌++◌, some, arith, pos, failed, if◌then◌else◌, ◌==◌, NotIn, Distinct,
  Distinct-insert, Distinct-remove, NotIn-before, Distinct-right, length, length-append, count_from,
}
use queue_c.StaticList
use queue_c.StaticList.{StaticList, invalid}
use queue_c.StaticList.Rep.{Rep}
use queue_c.StaticList.Remove.{get_head-Rep, get-empty}
use queue_c.StaticList.Insert.{add_tail-Rep}
use queue_c.StaticList.Init.{init-Rep, length-count_from}
use queue_c.NumPool.{NumPool, init, get, put, count, freenum, usednum}

-- The pool holds `free`, in the order in which it will hand them out, and clients hold `used`;
-- together these are all the numbers, each once.
pub record Owns (p : NumPool) (free used : List ℕ) : Type 0 where
  pub rep : Rep p.free_list free
  pub apart : Distinct (free ++ used)
  pub below : All (λ x. x < p.free_list.size) used
  pub total : length free + length used ≡ p.free_list.size

-- Initialising a pool with a positive count and memory returns 0, and all the numbers below the
-- count are free, in order.
pub init-Owns :
    (p : NumPool) (n : ℕ)
    → (q : NumPool) × (init p (pos (suc n)) true ≡ (pos 0, q)) × Owns q (count_from 0 (suc n)) []
unfolding init
init-Owns p n =
    let (t, made, rep, size) = init-Rep StaticList.zeroed n in
    (
      record { free_list = t },
      rw made refl,
      record {
        rep = rep;
        apart = rw append-nil rep.distinct;
        below = tt;
        total = omega (arith, length-count_from 1 n);
      },
    )

-- The number that a pool with a free number hands out is the first free one, which no client holds,
-- and the pool then counts it among those held.
pub get-Owns :
    (p : NumPool) (x : ℕ) (free used : List ℕ)
    → Owns p (x ∷ free) used
    → (q : NumPool) × (get p ≡ some (pos x, q)) × Owns q free (x ∷ used)
unfolding get
get-Owns p x free used o =
    let (t, got, rep, _, size) = get_head-Rep p.free_list x free o.rep in
    (
      record { free_list = t },
      rw got refl,
      record {
        rep = rep;
        apart = Distinct-insert free used x o.apart.1 o.apart.0;
        below = Below_of_eq (x ∷ used) size (o.rep.inside.0, o.below);
        total = omega (arith, o.total);
      },
    )

-- An exhausted pool gives QC_INVALID_INT, which is negative.
pub get-exhausted : (p : NumPool) (used : List ℕ) → Owns p [] used → get p ≡ some (invalid, p)
unfolding get
get-exhausted p used o = rw (get-empty p.free_list o.rep).0

NotIn-append : (x : ℕ) (xs ys zs : List ℕ) → Distinct (xs ++ (ys ++ (x ∷ zs))) → NotIn x xs
NotIn-append x xs ys zs d =
    All-left _ xs ys
      (NotIn-before (xs ++ ys) zs x (subst Distinct (sym (append_assoc xs ys (x ∷ zs))) d))

-- Taking `x` back moves it from the clients to the end of the pool.
Distinct-move :
    (free us vs : List ℕ) (x : ℕ)
    → Distinct (free ++ (us ++ (x ∷ vs)))
    → Distinct ((free ++ (x ∷ [])) ++ (us ++ vs))
Distinct-move free us vs x d =
    let d' : Distinct ((free ++ us) ++ (x ∷ vs)) = rw append_assoc d in
    let rest : Distinct (free ++ (us ++ vs)) =
      subst Distinct (append_assoc free us vs) (Distinct-remove (free ++ us) vs x d') in
    let clients = Distinct-right free (us ++ (x ∷ vs)) d in
    let out : NotIn x (free ++ (us ++ vs)) =
      All-append _ free (us ++ vs) (NotIn-append x free us vs d) (
        All-append _ us vs (NotIn-before us vs x clients) (Distinct-right us (x ∷ vs) clients).0) in
    rw append_assoc (Distinct-insert free (us ++ vs) x rest out)

-- A number that a client gives back joins the end of the free numbers. The result is 0, but -1 for
-- the number 0, although that is taken back too.
pub put-Owns :
    (p : NumPool) (x : ℕ) (free us vs : List ℕ)
    → Owns p free (us ++ (x ∷ vs))
    → (q : NumPool) × (put p (pos x) ≡ some (if x == 0 then failed else pos 0, q))
      × Owns q (free ++ (x ∷ [])) (us ++ vs)
unfolding put
put-Owns p x free us vs o =
    let below = All-right _ us (x ∷ vs) o.below in
    let (t, added, rep, size) =
      add_tail-Rep p.free_list x below.0 free o.rep (NotIn-append x free us vs o.apart) in
    (
      record { free_list = t },
      rw added (ground arith),
      record {
        rep = rep;
        apart = Distinct-move free us vs x o.apart;
        below =
            Below_of_eq (us ++ vs) size
              (All-append _ us vs (All-left _ us (x ∷ vs) o.below) below.1);
        total = rw size (
            omega (
              arith,
              o.total,
              length-append us (x ∷ vs),
              length-append us vs,
              length-append free (x ∷ []),
            ));
      },
    )

-- The counts that a pool reports are the number of numbers that the clients hold, the number of
-- free ones, and their sum.
pub usednum-eq-length :
    (p : NumPool) (free used : List ℕ)
    → Owns p free used
    → (usednum p ≡ pos (length used))
      × (freenum p ≡ pos (length free))
      × (count p ≡ pos (length free + length used))
unfolding usednum freenum count
usednum-eq-length p free used o = ground arith
