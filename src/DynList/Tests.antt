-- ===== src/DynList/Tests.antt =====
-- The theorems of the dynamic list at a concrete list.
use queue_c.Base.{◌≡◌, ◌==◌, refl, true, false, none, some, [], ◌∷◌, arith, if◌then◌else◌}
use queue_c.DynList.{DynList, set, removeentry}
use queue_c.DynList.Rep.{Rep}
use queue_c.DynList.Ends.{contents}
use queue_c.DynList.Remove.{removeentry-Rep}

-- The entries 8, 3 and 5, with the data 80, 30 and 50.
abbrev three : DynList
three = record {
  heap = record {
    live = set (set (set (λ _. false) 8 true) 3 true) 5 true;
    next = set (set (λ _. none) 8 (some 3)) 3 (some 5);
    prev = set (set (λ _. none) 3 (some 8)) 5 (some 3);
    data_of = λ k. if k == 8 then 80 else if k == 3 then 30 else 50;
  };
  head = some 8;
  tail = some 5;
  cur = none;
  count = 3;
}

three-Rep : Rep three (8 ∷ 3 ∷ 5 ∷ [])
three-Rep = record {
  linked = (refl, refl, (refl, refl, (refl, refl, tt)));
  alive = (refl, (refl, (refl, tt)));
  head = refl;
  tail = refl;
  count = refl;
  distinct = omega arith;
}

removeentry-Rep_example :
    (l' : DynList) × (removeentry three 3 ≡ some l')
    × Rep l' (8 ∷ 5 ∷ [])
    × (contents l' (8 ∷ 5 ∷ []) ≡ 80 ∷ 50 ∷ [])
    × (l'.heap.live 3 ≡ false)
removeentry-Rep_example = removeentry-Rep three (8 ∷ []) 3 (5 ∷ []) three-Rep
