-- ===== src/UnitPool/Units.antt =====
-- The units that a pool hands out lie in its buffer, and apart from one another.
use queue_c.Base.{
  ℕ, ◌+◌, ◌*◌, ◌≡◌, ◌≢◌, ◌≤◌, ◌<◌, ◌⊎◌, refl, List, ◌∷◌, [], some, none, arith, pos, failed, All,
  All-right, NotIn, inl, inr,
}
use native.Mathlib.Decide.{dec_lt}
use queue_c.NumPool.Ownership.{Owns, get-Owns, get-exhausted as numbers-exhausted}
use queue_c.UnitPool.{UnitPool, get, unit_address}

-- The bytes from `a` and from `b` on, `size` of them, have none in common.
abbrev pub Disjoint : ℕ → ℕ → ℕ → Type 0
Disjoint size a b = (a + size ≤ b) ⊎ (b + size ≤ a)

pub unit-le : (base size i j : ℕ) → i < j → base + i * size + size ≤ base + j * size
unit-le base size i j h = grind arith

pub units-Disjoint : (base size i j : ℕ) → i ≢ j → Disjoint size (base + i * size) (base + j * size)
units-Disjoint base size i j ne = elim (dec_lt i j) [
  | yes h ↦ inl (unit-le base size i j h)
  | no h ↦ inr (unit-le base size j i (omega arith))
]

All-Disjoint :
    (base size x : ℕ) (ys : List ℕ)
    → NotIn x ys
    → All (λ y. Disjoint size (base + x * size) (base + y * size)) ys
All-Disjoint base size x [] out = tt
All-Disjoint base size x (y ∷ ys) out =
    (units-Disjoint base size x y out.0, All-Disjoint base size x ys out.1)

-- A pool of units: its numbers are owned as in a number pool, and it has its buffer.
pub record OwnsUnits (u : UnitPool) (base : ℕ) (free used : List ℕ) : Type 0 where
  pub numbers : Owns u.num_pool free used
  pub buffer : u.unit_buff ≡ some base

-- The unit that a unit pool with a free unit hands out lies inside the buffer, has the number that
-- is reported for it, and shares no byte with the unit of any number that a client holds.
pub get-OwnsUnits :
    (u : UnitPool) (base x : ℕ) (free used : List ℕ)
    → OwnsUnits u base (x ∷ free) used
    → (v : UnitPool) × (get u
        ≡ some (record { address = some (base + x * u.unit_size); idx = pos x }, v))
      × OwnsUnits v base free (x ∷ used)
      × (base + x * u.unit_size + u.unit_size ≤ base + u.num_pool.free_list.size * u.unit_size)
      × All (λ y. Disjoint u.unit_size (base + x * u.unit_size) (base + y * u.unit_size)) used
unfolding get unit_address
get-OwnsUnits u base x free used o =
    let (p, got, owns) = get-Owns u.num_pool x free used o.numbers in
    (
      record u { num_pool = p },
      rw (got, o.buffer) refl,
      record { numbers = owns; buffer = o.buffer },
      unit-le base u.unit_size x u.num_pool.free_list.size o.numbers.rep.inside.0,
      All-Disjoint base u.unit_size x used (All-right _ free used o.numbers.apart.0),
    )

-- An exhausted pool gives NULL and the index -1.
pub get-exhausted :
    (u : UnitPool) (base : ℕ) (used : List ℕ)
    → OwnsUnits u base [] used
    → get u ≡ some (record { address = none; idx = failed }, u)
unfolding get
get-exhausted u base used o = rw (numbers-exhausted u.num_pool used o.numbers)
