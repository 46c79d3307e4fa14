-- ===== src/UnitPool.antt =====
-- src/qc_rt/qc_utils.c, "UnitPool": equal units of one buffer, numbered by a number pool.
pub mod Units
use queue_c.Base.{
  ℕ, ◌+◌, ◌*◌, Bool, Option, none, some, if◌then◌else◌, ◌>>=◌, ◌>>◌, assert, ℤ, pos, negsuc, ltb_ℤ,
  is_negative, failed, eqb_ℤ, not,
}
use queue_c.NumPool.{NumPool}
use queue_c.NumPool
use queue_c.StaticList

-- `unit_buff` is the address of the buffer, `none` for NULL. Sizes and addresses do not wrap: the
-- buffer is an object of the program, so `index * unit_size` stays inside it.
pub record UnitPool : Type 0 where
  pub num_pool : NumPool
  pub unit_size : ℕ
  pub unit_count : ℤ
  pub unit_buff : Option ℕ

-- `buff` is what `qc_malloc` returns for the units; a NULL stops the program there.
unfoldable pub init :
    UnitPool → ℕ → ℤ → (list_memory : Bool) → (buff : Option ℕ) → Option (ℤ × UnitPool)
init u unit_size unit_count list_memory buff =
    let (ret, p) = NumPool.init u.num_pool unit_count list_memory in
    let v : UnitPool = record {
      num_pool = p;
      unit_size = unit_size;
      unit_count = unit_count;
      unit_buff = none;
    } in
    if not (eqb_ℤ ret (pos 0))
    then some (failed, v)
    else do address ← buff; some (pos 0, record v { unit_buff = some address })

-- The address of unit `index`.
unfoldable pub unit_address : UnitPool → ℤ → Option ℕ
unit_address u (pos index) = do address ← u.unit_buff; some (address + index * u.unit_size)
unit_address u (negsuc n) = none

pub record Taken : Type 0 where
  pub address : Option ℕ
  pub idx : ℤ

-- The pointer that is returned, `none` for NULL, and what is written to `*idx`.
unfoldable pub get : UnitPool → Option (Taken × UnitPool)
get u = do
  (index, p) ← NumPool.get u.num_pool
  let v = record u { num_pool = p }
  if is_negative index
      then some (record { address = none; idx = failed }, v)
      else do a ← unit_address v index; some (record { address = some a; idx = index }, v)

unfoldable pub put : UnitPool → ℤ → Option (ℤ × UnitPool)
put u index = do (ret, p) ← NumPool.put u.num_pool index; some (ret, record u { num_pool = p })

unfoldable pub ptr_byindex : UnitPool → ℤ → Option ℕ
ptr_byindex u index = assert (ltb_ℤ index u.unit_count) >> unit_address u index

unfoldable pub count : UnitPool → ℤ
count u = NumPool.count u.num_pool

unfoldable pub usednum : UnitPool → ℤ
usednum u = NumPool.usednum u.num_pool

unfoldable pub freenum : UnitPool → ℤ
freenum u = NumPool.freenum u.num_pool
