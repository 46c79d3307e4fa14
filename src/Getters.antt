-- ===== src/Getters.antt =====
-- src/qc_mq/qc_getters.c: the threads that wait for a message. A getter is an object that the
-- thread waiting and the thread that pops it share, with a count of its holders.

pub mod Held
pub mod Inv
pub mod Pop
use queue_c.Base.{
  ℕ, ◌+◌, ◌-◌, Bool, true, false, Option, none, some, List, [], ◌∷◌, ◌++◌, if◌then◌else◌, ◌==◌,
  ◌>>=◌, ◌>>◌, assert, ltb, ℤ, pos, failed,
}
use queue_c.DynList.{set}

-- `entry` tells whether `_entry` is not NULL. An object whose count is 0 has been freed.
pub record Getter : Type 0 where
  pub is_timedout : Bool
  pub entry : Bool
  pub ref_count : ℕ

-- The list holds addresses, the next to be popped first. It stands for its `QcList`.
pub record GettersList : Type 0 where
  pub waiting : List ℕ
  pub at : ℕ → Getter

unfoldable pub create : GettersList
create = record {
  waiting = [];
  at = λ _. record { is_timedout = false; entry = false; ref_count = 0 };
}

-- A member that is read or written after the object has been freed is a fault, `none`.
abbrev pub access : GettersList → ℕ → Option Getter
access l g = assert (ltb 0 (l.at g).ref_count) >> some (l.at g)

-- `qc_getter_create`, at the address `g` that the allocator gives.
unfoldable pub getter_create : GettersList → ℕ → GettersList
getter_create l g = record l {
  at = set l.at g (record { is_timedout = false; entry = false; ref_count = 1 });
}

unfoldable pub getter_destroy : GettersList → ℕ → Option GettersList
getter_destroy l g = do
  o ← access l g
  some (record l { at = set l.at g (record o { ref_count = o.ref_count - 1 }) })

unfoldable pub push : GettersList → ℕ → Option GettersList
push l g = do
  o ← access l g
  some (record l { waiting = l.waiting ++ (g ∷ []); at = set l.at g (record o { entry = true }) })

-- The getter, or NULL.
unfoldable pub pop : GettersList → Option (Option ℕ × GettersList)
pop l = elim l.waiting [
  | [] ↦ some (none, l)
  | g ∷ rest ↦ (do
    o ← access l g
    some (
      some g,
      record l {
        waiting = rest;
        at = set l.at g (record o { entry = false; ref_count = o.ref_count + 1 });
      },
    ))
]

abbrev pub erase : ℕ → List ℕ → List ℕ
erase a [] = []
erase a (x ∷ xs) = let rest = erase a xs in if x == a then xs else x ∷ rest

-- Nothing is done if the getter has been popped.
unfoldable pub remove : GettersList → ℕ → Option (ℤ × GettersList)
remove l g = do
  o ← access l g
  if o.entry then some (pos 0, record l { waiting = erase g l.waiting }) else some (failed, l)

-- `is_timedout = 1`.
unfoldable pub expire : GettersList → ℕ → Option GettersList
expire l g = do
  o ← access l g
  some (record l { at = set l.at g (record o { is_timedout = true }) })
