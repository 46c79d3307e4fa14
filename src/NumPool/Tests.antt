-- ===== src/NumPool/Tests.antt =====
-- Runs of the number pool, and its theorems at a concrete pool.
use queue_c.Base.{◌≡◌, refl, some, [], ◌∷◌, arith, pos, failed}
use queue_c.StaticList.{detached, update, invalid}
use queue_c.NumPool.{NumPool, put}
use queue_c.NumPool.Ownership.{Owns, put-Owns}

-- Of three numbers the pool has 1 and 2; a client has 0.
abbrev two_left : NumPool
two_left = record {
  free_list = record {
    head = pos 1;
    tail = pos 2;
    limit = pos 3;
    num = pos 2;
    cells =
        update (update (λ _. detached) 1 (record { previous = invalid; next = pos 2 })) 2
          (record { previous = pos 1; next = invalid });
    size = 3;
  };
}

two_left-Owns : Owns two_left (1 ∷ 2 ∷ []) (0 ∷ [])
two_left-Owns = record {
  rep = record {
    links = (refl, refl, (refl, refl, tt));
    head = refl;
    tail = refl;
    num = refl;
    limit = refl;
    inside = omega arith;
    distinct = omega arith;
  };
  apart = omega arith;
  below = omega arith;
  total = refl;
}

-- The number 0 is taken back, and the result says that it is not.
put-Owns_example :
    (q : NumPool) × (put two_left (pos 0) ≡ some (failed, q)) × Owns q (1 ∷ 2 ∷ 0 ∷ []) []
put-Owns_example = put-Owns two_left 0 (1 ∷ 2 ∷ []) [] [] two_left-Owns
