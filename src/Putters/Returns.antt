-- ===== src/Putters/Returns.antt =====
-- `qc_putterschain_pop` with one priority.
use queue_c.Base.{
  ℕ, zero, suc, ◌+◌, ◌≡◌, ◌≢◌, ◌<◌, ap, subst, ◌∙◌, inl, inr, none, some, List, arith, length, ltb,
  lt→ltb, ltb-false, eqb_true, eqb_false, Bool-cases, List-cases, sum, All,
}
use queue_c.Putters.{PuttersChain, take_from, locate, pass, pop}
use queue_c.Putters.Inv.{IsPutters, IsWaiting, bucket_size}

module _ (F : Type 0) (c : PuttersChain) (s : List ℕ) (v : IsPutters F c s)
    (one : c.bucket_count ≡ 1) (some_left : 0 < c.putter_count) where
  all_here : bucket_size c.buckets 0 ≡ c.putter_count
  unfolding sum
  all_here =
      let e : c.putter_count ≡ 0 + bucket_size c.buckets 0 =
        v.counted ∙ ap (λ n. sum n (bucket_size c.buckets)) one in
      omega arith

  locate-zero : (n : ℕ) → locate c.buckets n ≡ some 0
  unfolding locate
  locate-zero zero = rw (lt→ltb 0 (bucket_size c.buckets 0) (omega (arith, all_here)))
  locate-zero (suc n) =
      rw
        (ltb-false 0 (bucket_size c.buckets (suc n))
          (omega (arith, v.inside (suc n) (omega arith))))
        (locate-zero n)

  taken : (counter : ℕ) → take_from (record c { cursor = 0 }) 0 counter ≢ none
  taken counter = elim (List-cases (c.buckets 0).putters) [
    | inl e ↦ absurd (omega (arith, all_here, ap length e))
    | inr (p, ps, e) ↦
        let w : IsWaiting F 0 (c.at p) =
          (subst (All (λ x. IsWaiting F 0 (c.at x))) e (v.waiting 0)).0 in
        rw (take_from, e, lt→ltb 0 (c.at p).ref_count (omega (arith, w.sole))) (λ x. cc)
  ]

  -- A putter is popped.
  pub pop-one_level : pop c ≢ none
  unfolding pop pass
  pop-one_level =
      rw (eqb_false c.putter_count 0 (λ e. omega arith), locate-zero c.cursor)
        (elim (Bool-cases (ltb (c.buckets 0).pop_counter 1)) [
          | inl turn ↦
              rw (turn, lt→ltb 0 (bucket_size c.buckets 0) (omega (arith, all_here))) (taken _)
          | inr over ↦
              rw (over, eqb_true (bucket_size c.buckets 0) c.putter_count all_here) (taken _)
        ])
