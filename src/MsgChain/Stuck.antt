-- ===== src/MsgChain/Stuck.antt =====
-- When `qc_msgchain_popmsg` stops the program although there is a message to pop.
use queue_c.Base.{
  sum, le-sum, ℕ, zero, suc, ◌-◌, ◌≡◌, ◌≢◌, ◌↔◌, ◌≤◌, ◌<◌, ap, sym, subst, ◌∙◌, inl, inr, false,
  Option, none, arith, length, ltb, ◌==◌, lt→ltb, ltb→lt, ltb-false, Bool-cases,
}
use native.Mathlib.Decide.{dec_lt}
use queue_c.MsgChain.{Bucket, MsgChain, Popped, reset, pass, second_pass, popmsg}
use queue_c.MsgChain.Inv.{IsChain, bucket_size, total}
use queue_c.MsgChain.Locate.{popmsg-Starts}
use queue_c.MsgChain.Turns.{
  IsStuck, IsFresh, IsStuck-pred, IsStuck-reset, IsFresh-reset, IsFresh-reset_all, lower_top,
  IsFresh-above, IsStuck-above, IsStuck-unreset, empty_not_sole, IsStuck-everywhere, IsStuck-at,
}

pass-IsStuck :
    (again : MsgChain → Option Popped) (n : ℕ) (c : MsgChain)
    → 0 < c.msg_count
    → IsStuck c n
    → pass again c n ≡ none
unfolding pass
pass-IsStuck again zero c h s = rw (
  lt→ltb (c.buckets 0).pop_counter 1 (omega (arith, s.lowest_turn)),
  ltb-false 0 (bucket_size c.buckets 0) (omega (arith, s.lowest_empty)),
)
pass-IsStuck again (suc n) c h s =
    elim (Bool-cases (ltb (c.buckets (suc n)).pop_counter (suc (suc n)))) [
      | inl turn ↦ elim (dec_lt 0 (bucket_size c.buckets (suc n))) [
        | yes full ↦ absurd (omega (arith, s.used_up (suc n) (omega arith) full, ltb→lt _ _ turn))
        | no none_here ↦
            rw (turn, ltb-false 0 (bucket_size c.buckets (suc n)) (omega arith))
              (pass-IsStuck again n c h (IsStuck-pred c n s))
      ]
      | inr over ↦
          let not_sole : (bucket_size c.buckets (suc n) == c.msg_count) ≡ false =
            elim (dec_lt 0 (bucket_size c.buckets (suc n))) [
              | yes full ↦ ground (arith, s.shared (suc n) (omega arith) full)
              | no none_here ↦ ground arith
            ] in
          rw (over, not_sole) (pass-IsStuck again n (reset c (suc n)) h (IsStuck-reset c n s))
    ]

-- From a bucket above or at `top`, with all turns unused, a message is found.
pass-IsFresh :
    (n : ℕ) (c : MsgChain) (top : ℕ) → top ≤ n → IsFresh c top 0 → pass (λ _. none) c n ≢ none
unfolding pass
pass-IsFresh zero c top h f =
    let full : 0 < bucket_size c.buckets 0 =
      subst (λ t. 0 < bucket_size c.buckets t) {x = top} (omega arith) f.full in
    rw
      (
        lt→ltb (c.buckets 0).pop_counter 1 (omega (arith, f.unused 0 (omega arith) full)),
        lt→ltb 0 (bucket_size c.buckets 0) full,
      )
      (λ e. cc)
pass-IsFresh (suc n) c top h f = elim (dec_lt 0 (bucket_size c.buckets (suc n))) [
  | yes full ↦
      rw
        (
          lt→ltb (c.buckets (suc n)).pop_counter (suc (suc n))
              (omega (arith, f.unused (suc n) (omega arith) full)),
          lt→ltb 0 (bucket_size c.buckets (suc n)) full,
        )
        (λ e. cc)
  | no none_here ↦
      let lower : top ≤ n = lower_top c top n h f.full none_here in
      elim (Bool-cases (ltb (c.buckets (suc n)).pop_counter (suc (suc n)))) [
        | inl turn ↦
            rw (turn, ltb-false 0 (bucket_size c.buckets (suc n)) (omega arith))
              (pass-IsFresh n c top lower f)
        | inr over ↦
            rw
              (
                over,
                empty_not_sole (bucket_size c.buckets (suc n)) c.msg_count f.some_left none_here,
              )
              (pass-IsFresh n (reset c (suc n)) top lower (IsFresh-reset_all c top (suc n) f))
      ]
]

second_pass-IsFresh : (c : MsgChain) (top : ℕ) → IsFresh c top 0 → second_pass c ≢ none
unfolding second_pass
second_pass-IsFresh c top f = pass-IsFresh (c.bucket_count - 1) c top (omega (arith, f.inside)) f

-- If the first pass from `n` down stops the program, the chain is stuck.
pass-none :
    (n : ℕ) (c : MsgChain) (top : ℕ)
    → IsFresh c top (suc n)
    → pass second_pass c n ≡ none
    → IsStuck c n
unfolding pass
pass-none zero c top f = elim (Bool-cases (ltb (c.buckets 0).pop_counter 1)) [
  | inl turn ↦ elim (dec_lt 0 (bucket_size c.buckets 0)) [
    | yes full ↦ rw (turn, lt→ltb 0 (bucket_size c.buckets 0) full) (λ e. cc)
    | no none_here ↦ λ e. record {
      lowest_empty = omega arith;
      lowest_turn = omega (arith, ltb→lt _ _ turn);
      used_up = λ k h g.
          absurd
            (none_here (subst (λ t. 0 < bucket_size c.buckets t) {x = k} {y = 0} (omega arith) g));
      shared = λ k h g.
          absurd
            (none_here (subst (λ t. 0 < bucket_size c.buckets t) {x = k} {y = 0} (omega arith) g));
    }
  ]
  | inr over ↦ elim (Bool-cases (bucket_size c.buckets 0 == c.msg_count)) [
    | inl sole ↦ rw (over, sole) (λ e. cc)
    | inr shared ↦
        rw (over, shared)
          (λ e. absurd (second_pass-IsFresh (reset c 0) top (IsFresh-reset c top 0 f) e))
  ]
]
pass-none (suc n) c top f = elim (Bool-cases (ltb (c.buckets (suc n)).pop_counter (suc (suc n)))) [
  | inl turn ↦ elim (dec_lt 0 (bucket_size c.buckets (suc n))) [
    | yes full ↦ rw (turn, lt→ltb 0 (bucket_size c.buckets (suc n)) full) (λ e. cc)
    | no none_here ↦
        rw (turn, ltb-false 0 (bucket_size c.buckets (suc n)) (omega arith))
          (λ e.
            IsStuck-above c n none_here (pass-none n c top (IsFresh-above c top n none_here f) e))
  ]
  | inr over ↦ elim (Bool-cases (bucket_size c.buckets (suc n) == c.msg_count)) [
    | inl sole ↦ rw (over, sole) (λ e. cc)
    | inr shared ↦
        rw (over, shared)
          (λ e.
            IsStuck-unreset c n (ground arith) (ground arith)
              (pass-none n (reset c (suc n)) top (IsFresh-reset c top (suc n) f) e))
  ]
]

start-IsFresh :
    (c : MsgChain) (sn : ℕ)
    → IsChain (record c { cursor = sn })
    → 0 < c.msg_count
    → 0 < bucket_size c.buckets sn
    → IsFresh (record c { cursor = sn }) sn (suc sn)
start-IsFresh c sn v h full = record {
  some_left = h;
  full = full;
  inside = v.cursor_in;
  unused = λ k above g. absurd (omega (arith, ap length (v.above k above)));
}

-- On a chain that satisfies the invariant and has a message, `popmsg` stops the program if and only
-- if bucket 0 is empty and has not had its turn, and every bucket with a message has had all its
-- turns and does not hold all the messages.
pub popmsg-none_iff :
    (c : MsgChain) → IsChain c → 0 < c.msg_count → (popmsg c ≡ none) ↔ ((n : ℕ) → IsStuck c n)
popmsg-none_iff c v h =
    let (sn, s) = popmsg-Starts c v h in
    (
      λ e n.
          IsStuck-everywhere c sn s.chain
            (pass-none sn (record c { cursor = sn }) sn (start-IsFresh c sn s.chain h s.full)
              (sym s.runs ∙ e))
            n,
      λ stuck.
          s.runs
          ∙ pass-IsStuck second_pass sn (record c { cursor = sn }) h (IsStuck-at c sn (stuck sn)),
    )

-- On a chain that satisfies the invariant and has a message in bucket 0, `popmsg` returns.
pub popmsg-returns : (c : MsgChain) → IsChain c → 0 < bucket_size c.buckets 0 → popmsg c ≢ none
popmsg-returns c v low e =
    let bound : bucket_size c.buckets 0 ≤ total c.bucket_count c.buckets =
      le-sum c.bucket_count (bucket_size c.buckets) 0 (omega (arith, v.cursor_in)) in
    let h : 0 < c.msg_count = omega (arith, v.counted) in
    omega (arith, ((popmsg-none_iff c v h).0 e 0).lowest_empty)

total_two :
    (n : ℕ) (b : ℕ → Bucket)
    → n ≤ 2
    → bucket_size b 0 ≡ 0
    → 0 < total n b
    → total n b ≡ bucket_size b 1
unfolding sum
total_two zero b h low left = absurd (omega arith)
total_two (suc zero) b h low left = absurd (omega arith)
total_two (suc (suc zero)) b h low left = omega arith
total_two (suc (suc (suc n))) b h low left = absurd (omega arith)

-- On a chain of at most two priorities that satisfies the invariant and has a message, `popmsg`
-- returns.
pub popmsg-two_levels :
    (c : MsgChain) → IsChain c → c.bucket_count ≤ 2 → 0 < c.msg_count → popmsg c ≢ none
popmsg-two_levels c v few h e =
    let s = (popmsg-none_iff c v h).0 e 1 in
    let all_in_one : total c.bucket_count c.buckets ≡ bucket_size c.buckets 1 =
      total_two c.bucket_count c.buckets few s.lowest_empty (omega (arith, v.counted)) in
    s.shared 1 (omega arith) (omega (arith, v.counted)) (omega (arith, v.counted))
