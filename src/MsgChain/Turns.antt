-- ===== src/MsgChain/Turns.antt =====
-- Chains that stop the program, and chains whose buckets are at the start of their turns.
use queue_c.Base.{ℕ, suc, ◌≡◌, ◌≢◌, ◌≤◌, ◌<◌, ap, sym, subst, ◌∙◌, false, arith, length, ◌==◌}
use native.Mathlib.Decide.{ℕ_discrete, dec_lt}
use queue_c.MsgChain.{MsgChain, reset}
use queue_c.MsgChain.Inv.{IsChain, bucket_size}

-- Bucket 0 is empty and has not had its turn, and every bucket up to `n` with a message has had
-- its turns and does not hold all the messages.
pub record IsStuck (c : MsgChain) (n : ℕ) : Type 0 where
  pub lowest_empty : bucket_size c.buckets 0 ≡ 0
  pub lowest_turn : (c.buckets 0).pop_counter ≡ 0
  pub used_up : (k : ℕ) → k ≤ n → 0 < bucket_size c.buckets k → k < (c.buckets k).pop_counter
  pub shared : (k : ℕ) → k ≤ n → 0 < bucket_size c.buckets k → bucket_size c.buckets k ≢ c.msg_count

pub reset_Size :
    (c : MsgChain) (sn k : ℕ) → bucket_size (reset c sn).buckets k ≡ bucket_size c.buckets k
reset_Size c sn k = ground arith

pub reset_other :
    (c : MsgChain) (sn k : ℕ)
    → k ≢ sn
    → ((reset c sn).buckets k).pop_counter ≡ (c.buckets k).pop_counter
reset_other c sn k ne = ground arith

pub reset_self : (c : MsgChain) (sn : ℕ) → ((reset c sn).buckets sn).pop_counter ≡ 0
reset_self c sn = ground arith

pub IsStuck-pred : (c : MsgChain) (n : ℕ) → IsStuck c (suc n) → IsStuck c n
IsStuck-pred c n s = record {
  lowest_empty = s.lowest_empty;
  lowest_turn = s.lowest_turn;
  used_up = λ k h. s.used_up k (omega arith);
  shared = λ k h. s.shared k (omega arith);
}

pub IsStuck-reset : (c : MsgChain) (n : ℕ) → IsStuck c (suc n) → IsStuck (reset c (suc n)) n
IsStuck-reset c n s = record {
  lowest_empty = reset_Size c (suc n) 0 ∙ s.lowest_empty;
  lowest_turn = reset_other c (suc n) 0 (omega arith) ∙ s.lowest_turn;
  used_up = λ k h g. omega (
    arith,
    reset_Size c (suc n) k,
    reset_other c (suc n) k (omega arith),
    s.used_up k (omega arith) (omega (arith, reset_Size c (suc n) k)),
  );
  shared = λ k h g. λ e.
      s.shared k (omega arith) (omega (arith, reset_Size c (suc n) k))
        (sym (reset_Size c (suc n) k) ∙ e);
}

-- A bucket `top` below `bucket_count` has a message, and every bucket above `n` that has one is at
-- the start of its turns.
pub record IsFresh (c : MsgChain) (top n : ℕ) : Type 0 where
  pub some_left : 0 < c.msg_count
  pub full : 0 < bucket_size c.buckets top
  pub inside : top < c.bucket_count
  pub unused : (k : ℕ) → n ≤ k → 0 < bucket_size c.buckets k → (c.buckets k).pop_counter ≡ 0

pub IsFresh-reset : (c : MsgChain) (top n : ℕ) → IsFresh c top (suc n) → IsFresh (reset c n) top n
IsFresh-reset c top n f = record {
  some_left = f.some_left;
  full = omega (arith, f.full, reset_Size c n top);
  inside = f.inside;
  unused = λ k h g. elim (ℕ_discrete k n) [
    | yes e ↦ rw e (reset_self c n)
    | no ne ↦ reset_other c n k ne ∙ f.unused k (omega arith) (omega (arith, reset_Size c n k))
  ];
}

pub IsFresh-reset_all : (c : MsgChain) (top n : ℕ) → IsFresh c top 0 → IsFresh (reset c n) top 0
IsFresh-reset_all c top n f = record {
  some_left = f.some_left;
  full = omega (arith, f.full, reset_Size c n top);
  inside = f.inside;
  unused = λ k h g. elim (ℕ_discrete k n) [
    | yes e ↦ rw e (reset_self c n)
    | no ne ↦ reset_other c n k ne ∙ f.unused k h (omega (arith, reset_Size c n k))
  ];
}

pub lower_top :
    (c : MsgChain) (top n : ℕ)
    → top ≤ suc n
    → 0 < bucket_size c.buckets top
    → ¬ (0 < bucket_size c.buckets (suc n))
    → top ≤ n
lower_top c top n h full none_here = elim (ℕ_discrete top (suc n)) [
  | yes e ↦ absurd (none_here (subst (λ t. 0 < bucket_size c.buckets t) e full))
  | no ne ↦ omega arith
]

-- Nothing is asked of an empty bucket.
pub IsFresh-above :
    (c : MsgChain) (top n : ℕ)
    → ¬ (0 < bucket_size c.buckets (suc n))
    → IsFresh c top (suc (suc n))
    → IsFresh c top (suc n)
IsFresh-above c top n none_here f = record {
  some_left = f.some_left;
  full = f.full;
  inside = f.inside;
  unused = λ k h g. elim (ℕ_discrete k (suc n)) [
    | yes e ↦ absurd (none_here (subst (λ t. 0 < bucket_size c.buckets t) e g))
    | no ne ↦ f.unused k (omega arith) g
  ];
}

pub IsStuck-above :
    (c : MsgChain) (n : ℕ) → ¬ (0 < bucket_size c.buckets (suc n)) → IsStuck c n → IsStuck c (suc n)
IsStuck-above c n none_here s = record {
  lowest_empty = s.lowest_empty;
  lowest_turn = s.lowest_turn;
  used_up = λ k h g. s.used_up k (lower_top c k n h g none_here) g;
  shared = λ k h g. s.shared k (lower_top c k n h g none_here) g;
}

pub IsStuck-unreset :
    (c : MsgChain) (n : ℕ)
    → suc n < (c.buckets (suc n)).pop_counter
    → bucket_size c.buckets (suc n) ≢ c.msg_count
    → IsStuck (reset c (suc n)) n
    → IsStuck c (suc n)
IsStuck-unreset c n over ne s = record {
  lowest_empty = sym (reset_Size c (suc n) 0) ∙ s.lowest_empty;
  lowest_turn = sym (reset_other c (suc n) 0 (omega arith)) ∙ s.lowest_turn;
  used_up = λ k h g. elim (ℕ_discrete k (suc n)) [
    | yes e ↦ rw e over
    | no other ↦ omega (
      arith,
      reset_other c (suc n) k other,
      s.used_up k (omega arith) (omega (arith, reset_Size c (suc n) k)),
    )
  ];
  shared = λ k h g. elim (ℕ_discrete k (suc n)) [
    | yes e ↦ rw e ne
    | no other ↦ λ q.
        s.shared k (omega arith) (omega (arith, reset_Size c (suc n) k))
          (reset_Size c (suc n) k ∙ q)
  ];
}

-- A bucket that holds no message does not hold them all.
pub empty_not_sole : (size count : ℕ) → 0 < count → ¬ (0 < size) → (size == count) ≡ false
empty_not_sole size count h e = ground arith

-- Where the cursor is makes no difference, and above it there is no message.
pub IsStuck-everywhere :
    (c : MsgChain) (sn : ℕ)
    → IsChain (record c { cursor = sn })
    → IsStuck (record c { cursor = sn }) sn
    → (n : ℕ) → IsStuck c n
IsStuck-everywhere c sn v s n = record {
  lowest_empty = s.lowest_empty;
  lowest_turn = s.lowest_turn;
  used_up = λ k h g. s.used_up k (low k g) g;
  shared = λ k h g. s.shared k (low k g) g;
}
  where
    low : (k : ℕ) → 0 < bucket_size c.buckets k → k ≤ sn
    low k g = elim (dec_lt sn k) [
      | yes above ↦ absurd (omega (arith, ap length (v.above k above)))
      | no not_above ↦ omega arith
    ]

pub IsStuck-at : (c : MsgChain) (sn : ℕ) → IsStuck c sn → IsStuck (record c { cursor = sn }) sn
IsStuck-at c sn s = record {
  lowest_empty = s.lowest_empty;
  lowest_turn = s.lowest_turn;
  used_up = s.used_up;
  shared = s.shared;
}
