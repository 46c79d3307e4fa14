-- ===== src/Message.antt =====
-- src/qc_mq/qc_message.c: a message, which owns its buffer or borrows it.
use Prim.Native.Nat.{bit_and}
use queue_c.Base.{
  ℕ, ◌==◌, Bool, true, false, not, Option, none, some, List, [], ◌∷◌, if◌then◌else◌, ◌>>◌, assert,
  ℤ, pos, is_negative,
}

-- `buff` is the address of the buffer, `none` for NULL. The bytes are not modelled.
pub record Message : Type 0 where
  pub priority : ℤ
  pub persist_id : ℤ
  pub buff_len : ℤ
  pub buff_flag : ℕ
  pub buff : Option ℕ

-- BUFFFLAG_CLONE and BUFFFLAG_NO_FREE.
abbrev pub flag_clone : ℕ
flag_clone = 1

abbrev pub flag_no_free : ℕ
flag_no_free = 2

abbrev pub has_flag : ℕ → ℕ → Bool
has_flag flag flags = not (bit_and flag flags == 0)

abbrev is_null : Option ℕ → Bool
is_null none = true
is_null (some a) = false

-- `copy` is the address that the allocator gives to a clone's buffer. An allocation that fails
-- stops the program inside `qc_malloc`.
unfoldable pub create : Option ℕ → ℤ → ℕ → (copy : ℕ) → Message
create buff len buff_flag copy = record {
  priority = pos 1;
  persist_id = pos 0;
  buff_len = if is_null buff then pos 0 else len;
  buff_flag = buff_flag;
  buff = if has_flag flag_clone buff_flag then some copy else buff;
}

-- The addresses that are freed besides the message itself.
unfoldable pub release : Option Message → List ℕ
release none = []
release (some m) =
    if has_flag flag_no_free m.buff_flag then [] else elim m.buff [ none ↦ [] | some a ↦ a ∷ [] ]

unfoldable pub setpriority : Message → ℤ → Option Message
setpriority m priority =
    assert (not (is_negative priority)) >> some (record m { priority = priority })
