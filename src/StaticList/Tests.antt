-- ===== src/StaticList/Tests.antt =====
-- Runs of the static list, and its theorems at concrete lists.
use queue_c.Base.{◌≡◌, refl, true, Option, some, List, [], ◌∷◌, arith, ℤ, pos, ◌>>=◌}
use queue_c.StaticList.{
  StaticList, detached, update, invalid, zeroed, init, get_head, get_at, add_head, add_first, load,
  store, set_next, set_previous,
}
use queue_c.StaticList.Rep.{Rep}
use queue_c.StaticList.Remove.{get_at-Rep}

-- The cells 2, 0 and 1 of four, in this order; cell 3 is on no list.
abbrev three : StaticList
three = record {
  head = pos 2;
  tail = pos 1;
  limit = pos 4;
  num = pos 3;
  cells =
      update
        (update (update (λ _. detached) 2 (record { previous = invalid; next = pos 0 })) 0
          (record { previous = pos 2; next = pos 1 }))
        1 (record { previous = pos 0; next = invalid });
  size = 4;
}

three-Rep : Rep three (2 ∷ 0 ∷ 1 ∷ [])
three-Rep = record {
  links = (refl, refl, (refl, refl, (refl, refl, tt)));
  head = refl;
  tail = refl;
  num = refl;
  limit = refl;
  inside = omega arith;
  distinct = omega arith;
}

-- The numbers that come out of a list of three after cell 1 is taken out and put back in front.
order : Option (List ℤ)
unfolding init get_head get_at add_head load store set_next set_previous add_first
order = do
  (_, a) ← get_at (init zeroed (pos 3) true).1 (pos 1)
  (_, b) ← add_head a (pos 1)
  (x, c) ← get_head b
  (y, d) ← get_head c
  (z, e) ← get_head d
  (w, f) ← get_head e
  some (x ∷ y ∷ z ∷ w ∷ [])

order_lem : order ≡ some (pos 1 ∷ pos 0 ∷ pos 2 ∷ invalid ∷ [])
unfolding order
order_lem = refl

get_at-Rep_example :
    (t : StaticList) × (get_at three (pos 0) ≡ some (pos 0, t))
    × Rep t (2 ∷ 1 ∷ [])
    × (t.cells 0 ≡ detached)
    × (t.size ≡ 4)
get_at-Rep_example = get_at-Rep three (2 ∷ []) 0 (1 ∷ []) three-Rep
