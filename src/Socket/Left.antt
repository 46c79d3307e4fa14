-- ===== src/Socket/Left.antt =====
-- How many bytes are still to come.
use queue_c.Base.{
  ℕ, ◌≡◌, ◌<◌, refl, ap, ◌∙◌, some, List, [], arith, if◌then◌else◌, length, length-append, leb,
  ◌==◌, pos, pos_part, failed, ℤ, Bool, true, false, inl, inr, Bool-cases, agree,
}
use native.Mathlib.Decide.{ℕ_discrete}
use queue_c.Socket.{Socket, stream, tcp_recvall, tcp_send}
use queue_c.Socket.Receive.{
  tcp_recvall-gets, tcp_recvall-ends, tcp_recvall-zero, end_result, split_exists,
}

-- What holds on both sides of a test.
test-all :
    {A : Type 0} (P : A → Type 0) (b : Bool) (x y : A)
    → (b ≡ true → P x)
    → (b ≡ false → P y)
    → P (if b then x else y)
test-all P true x y f g = f refl
test-all P false x y f g = g refl

-- The number of bytes still to come.
abbrev pub left : Socket → ℕ
left s = length (stream s.incoming)

pub tcp_send-left : (bs : List ℕ) (s : Socket) → left (tcp_send bs s).1 ≡ left s
unfolding tcp_send
tcp_send-left bs s =
    test-all (λ (r : ℤ × Socket). left r.1 ≡ left s) (leb (length bs) s.capacity) _ _ (λ x. refl)
      (λ x.
        test-all (λ (r : ℤ × Socket). left r.1 ≡ left s) (s.capacity == 0) _ _ (λ y. refl)
          (λ y. refl))

-- A call that receives some.
pub tcp_recvall-left :
    (n : ℕ) (s s' : Socket) (ret : ℤ) (bs : List ℕ)
    → tcp_recvall n s ≡ some (ret, bs, s')
    → 0 < pos_part ret
    → left s' < left s
tcp_recvall-left n s s' ret bs e more = elim (ℕ_discrete n 0) [
  | yes nothing ↦
      let none_read =
        agree (tcp_recvall n s) (pos 0, [], s) (ret, bs, s')
          (ap (λ k. tcp_recvall k s) nothing ∙ tcp_recvall-zero s) e in
      let z : 0 ≡ pos_part ret = ap (λ (r : ℤ × List ℕ × Socket). pos_part r.0) none_read in
      absurd (omega arith)
  | no something ↦ elim (Bool-cases (leb n (left s))) [
    | inl enough ↦
        let (xs, ys, parts, l) = split_exists n (stream s.incoming) (ground arith) in
        let (later, run, rest) = tcp_recvall-gets s n xs ys l (omega arith) parts in
        let same =
          agree (tcp_recvall n s) (pos n, xs, record s { incoming = later }) (ret, bs, s') run e in
        let now : length (stream later) ≡ left s' =
          ap (λ (r : ℤ × List ℕ × Socket). left r.2) same in
        omega (arith, now, ap length rest, ap length parts, length-append xs ys)
    | inr few ↦
        let (xs, k, run) = tcp_recvall-ends s n (ground arith) in
        let same = agree (tcp_recvall n s) (end_result s, xs, k) (ret, bs, s') run e in
        let z : pos_part (end_result s) ≡ pos_part ret =
          ap (λ (r : ℤ × List ℕ × Socket). pos_part r.0) same in
        let none_read : pos_part (end_result s) ≡ 0 =
          test-all (λ (r : ℤ). pos_part r ≡ 0) s.is_broken failed (pos 0) (λ x. refl) (λ x. refl) in
        absurd (omega arith)
  ]
]
