-- ===== src/DynList/Tail.antt =====
-- Inserting an entry at the end of a dynamic list.
use mathlib.Core.List.{append-nil, map-append}
use queue_c.Base.{
  ℕ, ◌+◌, ◌≡◌, ◌≢◌, refl, ap, ap₂, ◌∙◌, true, false, Option, none, some, List, [], ◌∷◌, ◌++◌, arith,
  All-append, NotIn, Distinct-insert, length-append,
}
use queue_c.StaticList.Links.{last_cell, All-last_cell}
use queue_c.DynList.{DynList, set, inserttail}
use queue_c.DynList.Rep.{
  Rep, first_of, last_of, Linked-set_prev, Linked-set_next, alive-set, Linked-append,
  last_of-append,
}
use queue_c.DynList.Ends.{NotIn-fresh, map-set, contents, set_self, set_other}
use queue_c.DynList.Remove.{last_of-cell, next_of, Linked-next_of, if_none}

next_of-other :
    (next : ℕ → Option ℕ) (ys : List ℕ) (v : Option ℕ) (k : ℕ)
    → NotIn k ys
    → next_of next ys v k ≡ next k
next_of-other next [] v k out = refl
next_of-other next (y ∷ ys) v k out =
    set_other next (last_cell y ys) v k (All-last_cell (λ t. k ≢ t) y ys out)

-- The list with a new entry behind the last.
abbrev with_tail : DynList → ℕ → ℕ → List ℕ → DynList
with_tail l value a xs = record l {
  heap = record {
    live = set l.heap.live a true;
    next = next_of (set l.heap.next a none) xs (some a);
    prev = set l.heap.prev a (last_of none xs);
    data_of = set l.heap.data_of a value;
  };
  head = if_none xs (some a) l.head;
  tail = some a;
  count = l.count + 1;
}

head-with_tail :
    (xs : List ℕ) (a : ℕ) (h : Option ℕ)
    → h ≡ first_of xs none
    → if_none xs (some a) h ≡ first_of (xs ++ (a ∷ [])) none
head-with_tail [] a h e = refl
head-with_tail (x ∷ xs) a h e = e

module _ (l : DynList) (value a : ℕ) (fresh : l.heap.live a ≡ false) where
  with_tail-Rep : (xs : List ℕ) → Rep l xs → Rep (with_tail l value a xs) (xs ++ (a ∷ []))
  with_tail-Rep xs r =
      let out = NotIn-fresh l.heap.live a xs fresh r.alive in
      record {
        linked =
            Linked-append _ _ none xs (a ∷ []) none
              (Linked-next_of _ (set l.heap.next a none) none xs none (some a) r.distinct (
                Linked-set_prev a (last_of none xs) l.heap.prev (set l.heap.next a none) none xs
                  none out
                  (Linked-set_next a none l.heap.prev l.heap.next none xs none out r.linked)))
              (
                set_self l.heap.prev a (last_of none xs),
                next_of-other (set l.heap.next a none) xs (some a) a out
                    ∙ set_self l.heap.next a none,
                tt,
              );
        alive =
            All-append _ xs (a ∷ []) (alive-set l.heap.live a true xs out r.alive)
              (set_self l.heap.live a true, tt);
        head = head-with_tail xs a l.head r.head;
        tail = rw last_of-append;
        count = omega (arith, r.count, length-append xs (a ∷ []));
        distinct = Distinct-insert xs [] a (rw append-nil r.distinct) (rw append-nil out);
      }

  inserttail-eq : (xs : List ℕ) → Rep l xs → inserttail l value a ≡ some (with_tail l value a xs)
  unfolding inserttail
  inserttail-eq [] r = rw r.tail
  inserttail-eq (x ∷ xs) r =
      let live_t : set l.heap.live a true (last_cell x xs) ≡ true =
        All-last_cell (λ t. set l.heap.live a true t ≡ true) x xs
          (alive-set l.heap.live a true (x ∷ xs) (NotIn-fresh l.heap.live a (x ∷ xs) fresh r.alive)
            r.alive) in
      simp (r.tail, last_of-cell, live_t)

  -- Inserting at the tail of a well-formed dynamic list, with an entry that was not allocated, puts
  -- the entry with its data behind the others, which keep their order and data.
  pub inserttail-Rep :
      (xs : List ℕ)
      → Rep l xs
      → (l' : DynList) × (inserttail l value a ≡ some l')
        × Rep l' (xs ++ (a ∷ []))
        × (contents l' (xs ++ (a ∷ [])) ≡ contents l xs ++ (value ∷ []))
  inserttail-Rep xs r = (
    with_tail l value a xs,
    inserttail-eq xs r,
    with_tail-Rep xs r,
    map-append _ xs (a ∷ [])
        ∙ ap₂ ◌++◌ (map-set l.heap.data_of a value xs (NotIn-fresh l.heap.live a xs fresh r.alive))
            (ap (λ v. v ∷ []) (set_self l.heap.data_of a value)),
  )
