-- ===== src/NumPool.antt =====
-- src/qc_rt/qc_utils.c, "NumPool": numbers 0, 1, … handed out and taken back, on a static list.
pub mod Ownership
mod Tests
use queue_c.Base.{
  ℕ, zero, suc, Bool, Option, some, if◌then◌else◌, ◌>>=◌, ℤ, pos, ◌-ℤ◌, ltb_ℤ, eqb_ℤ, failed,
}
use queue_c.StaticList.{StaticList}
use queue_c.StaticList

pub record NumPool : Type 0 where
  pub free_list : StaticList

unfoldable pub init : NumPool → ℤ → (has_memory : Bool) → ℤ × NumPool
init p init_count has_memory =
    let (ret, l) = StaticList.init StaticList.zeroed init_count has_memory in
    (if eqb_ℤ ret (pos 0) then pos 0 else failed, record { free_list = l })

unfoldable pub get : NumPool → Option (ℤ × NumPool)
get p = do (idx, l) ← StaticList.get_head p.free_list; some (idx, record { free_list = l })

unfoldable pub put : NumPool → ℤ → Option (ℤ × NumPool)
put p idx = do
  (ret, l) ← StaticList.add_tail p.free_list idx
  some (if ltb_ℤ (pos 0) ret then pos 0 else failed, record { free_list = l })

unfoldable pub count : NumPool → ℤ
count p = p.free_list.limit

unfoldable pub freenum : NumPool → ℤ
freenum p = p.free_list.num

unfoldable pub usednum : NumPool → ℤ
usednum p = p.free_list.limit -ℤ p.free_list.num
