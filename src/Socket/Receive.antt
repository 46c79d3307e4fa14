-- ===== src/Socket/Receive.antt =====
-- `qc_tcp_recvall` and `qc_tcp_send`, whatever the segments.
use queue_c.Base.{
  ℕ, zero, suc, ◌+◌, ◌-◌, ◌≡◌, ◌≤◌, ◌<◌, refl, ap, sym, subst, ◌∙◌, Option, none, some, List, [],
  ◌∷◌, ◌++◌, arith, Option-cases, List-cases, Bool-cases, ℤ, ◌==◌, if◌then◌else◌, length,
  length-append, ltb, leb, lt→ltb, ltb-false, eqb_false, eqb_true, eqb_ℤ, pos, failed, true, false,
  inl, inr,
}
use mathlib.Core.List.{append_assoc, append-nil}
use native.Mathlib.Decide.{ℕ_discrete}
use queue_c.Socket.{
  Socket, take, drop, stream, recv_from, recv, recvall_loop, tcp_recvall, tcp_send,
}

-- What a call of the system takes is the start of what arrives.
abbrev Begins : ℕ → List (List ℕ) → Option (List ℕ × List (List ℕ)) → Type 0
Begins n s none = stream s ≡ []
Begins n s (some (bytes, later)) =
    (0 < length bytes) × (length bytes ≤ n) × (stream s ≡ bytes ++ stream later)

length-take : (n : ℕ) (xs : List ℕ) → n ≤ length xs → length (take n xs) ≡ n
length-take zero xs le = refl
length-take (suc n) [] le = absurd (omega arith)
length-take (suc n) (x ∷ xs) le = ap suc (length-take n xs (omega arith))

take-drop : (n : ℕ) (xs : List ℕ) → take n xs ++ drop n xs ≡ xs
take-drop zero xs = refl
take-drop (suc n) [] = refl
take-drop (suc n) (x ∷ xs) = ap (λ l. x ∷ l) (take-drop n xs)

length-take_le : (n : ℕ) (xs : List ℕ) → length (take n xs) ≤ n
length-take_le zero xs = omega arith
length-take_le (suc n) [] = omega arith
length-take_le (suc n) (x ∷ xs) = omega (arith, length-take_le n xs)

recv_from-Begins : (n : ℕ) (s : List (List ℕ)) → Begins (suc n) s (recv_from (suc n) s)
recv_from-Begins n [] = refl
recv_from-Begins n ([] ∷ s) = recv_from-Begins n s
recv_from-Begins n ((x ∷ xs) ∷ s) = (
  omega arith,
  omega (arith, length-take_le n xs),
  ap (λ l. x ∷ (l ++ stream s)) (sym (take-drop n xs))
      ∙ ap (λ l. x ∷ l) (append_assoc (take n xs) (drop n xs) (stream s)),
)

recv-some :
    (n : ℕ) (s : Socket) (bs : List ℕ) (later : List (List ℕ))
    → recv_from (suc n) s.incoming ≡ some (bs, later)
    → recv (suc n) s ≡ (pos (length bs), bs, record s { incoming = later })
unfolding recv
recv-some n s bs later run = rw (eqb_false (suc n) 0 (omega arith), run) refl

-- What a call gives at the end of the connection.
abbrev pub end_result : Socket → ℤ
end_result s = if s.is_broken then failed else pos 0

recv-none :
    (n : ℕ) (s : Socket)
    → recv_from (suc n) s.incoming ≡ none
    → recv (suc n) s ≡ (end_result s, [], s)
unfolding recv
recv-none n s nothing = rw (eqb_false (suc n) 0 (omega arith), nothing) refl

-- A list that starts with `bs` and with the longer `xs`: `bs` is the start of `xs`.
split_prefix :
    (bs rest xs ys : List ℕ)
    → bs ++ rest ≡ xs ++ ys
    → length bs ≤ length xs
    → (zs : List ℕ) × (xs ≡ bs ++ zs) × (rest ≡ zs ++ ys)
split_prefix [] rest xs ys e le = (xs, refl, e)
split_prefix (b ∷ bs) rest [] ys e le = absurd (omega arith)
split_prefix (b ∷ bs) rest (x ∷ xs) ys e le =
    let same : b ≡ x = cc in
    let tails : bs ++ rest ≡ xs ++ ys = cc in
    let (zs, d, f) = split_prefix bs rest xs ys tails (omega arith) in (zs, cc, f)

-- Enough bytes arrive, `xs` and then `ys`.
loop-gets :
    (rounds len : ℕ) (rcved xs ys : List ℕ) (s : Socket)
    → length rcved + length xs ≡ len
    → stream s.incoming ≡ xs ++ ys
    → 0 < length xs
    → length xs < rounds
    → (later : List (List ℕ)) × (recvall_loop rounds len rcved s
        ≡ some (pos len, rcved ++ xs, record s { incoming = later }))
      × (stream later ≡ ys)
unfolding recvall_loop
loop-gets zero len rcved xs ys s total e some_left enough = absurd (omega arith)
loop-gets (suc rounds) len rcved [] ys s total e some_left enough = absurd (omega arith)
loop-gets (suc rounds) len rcved (x ∷ xs) ys s total e some_left enough =
    let left : len - length rcved ≡ suc (length xs) = omega arith in
    elim (Option-cases (recv_from (suc (length xs)) s.incoming)) [
      | inl nothing ↦
          let b : Begins (suc (length xs)) s.incoming none =
            subst (Begins (suc (length xs)) s.incoming) nothing
              (recv_from-Begins (length xs) s.incoming) in
          let impossible : [] ≡ x ∷ (xs ++ ys) = sym b ∙ e in absurd cc
      | inr ((bs, later), run) ↦
          let b : Begins (suc (length xs)) s.incoming (some (bs, later)) =
            subst (Begins (suc (length xs)) s.incoming) run
              (recv_from-Begins (length xs) s.incoming) in
          let (zs, whole, rest) = split_prefix bs (stream later) (x ∷ xs) ys (sym b.2 ∙ e) b.1 in
          let parts : suc (length xs) ≡ length bs + length zs =
            ap length whole ∙ length-append bs zs in
          let some_read : (length bs == 0) ≡ false = eqb_false (length bs) 0 (omega arith) in
          elim (List-cases zs) [
            | inl done ↦
                let last : ltb (length rcved + length bs) len ≡ false =
                  ltb-false _ _ (omega (arith, ap length done)) in
                let all : bs ≡ x ∷ xs = sym (whole ∙ ap (λ l. bs ++ l) done ∙ append-nil bs) in
                (
                  later,
                  rw
                      (
                        ap (λ k. recv k s) left ∙ recv-some (length xs) s bs later run,
                        some_read,
                        last,
                      )
                      (ap (λ l. some (pos len, rcved ++ l, record s { incoming = later })) all),
                  rest ∙ ap (λ l. l ++ ys) done,
                )
            | inr (z, zs', more) ↦
                let again : ltb (length rcved + length bs) len ≡ true =
                  lt→ltb _ _ (omega (arith, ap length more)) in
                let (later', f, g) =
                  loop-gets rounds len (rcved ++ bs) zs ys (record s { incoming = later })
                    (omega (arith, length-append rcved bs)) rest (omega (arith, ap length more))
                    (omega arith) in
                (
                  later',
                  rw
                      (
                        ap (λ k. recv k s) left ∙ recv-some (length xs) s bs later run,
                        some_read,
                        again,
                      )
                      (f
                        ∙ ap (λ l. some (pos len, l, record s { incoming = later' }))
                            (append_assoc rcved bs zs ∙ ap (λ l. rcved ++ l) (sym whole))),
                  g,
                )
          ]
    ]

-- Too few bytes arrive.
loop-ends :
    (rounds len : ℕ) (rcved : List ℕ) (s : Socket)
    → length rcved + length (stream s.incoming) < len
    → length (stream s.incoming) < rounds
    → (bs : List ℕ) × (s' : Socket) × (recvall_loop rounds len rcved s
        ≡ some (end_result s, bs, s'))
unfolding recvall_loop
loop-ends zero len rcved s few enough = absurd (omega arith)
loop-ends (suc rounds) len rcved s few enough =
    let need : ℕ = len - length rcved - 1 in
    let left : len - length rcved ≡ suc need = omega arith in
    elim (Option-cases (recv_from (suc need) s.incoming)) [
      | inl nothing ↦ elim (Bool-cases s.is_broken) [
        | inl broken ↦
            (rcved, s, rw (ap (λ k. recv k s) left ∙ recv-none need s nothing, broken) refl)
        | inr closed ↦
            (rcved, s, rw (ap (λ k. recv k s) left ∙ recv-none need s nothing, closed) refl)
      ]
      | inr ((bs, later), run) ↦
          let b : Begins (suc need) s.incoming (some (bs, later)) =
            subst (Begins (suc need) s.incoming) run (recv_from-Begins need s.incoming) in
          let parts : length (stream s.incoming) ≡ length bs + length (stream later) =
            ap length b.2 ∙ length-append bs (stream later) in
          let some_read : (length bs == 0) ≡ false = eqb_false (length bs) 0 (omega (arith, b.0)) in
          let again : ltb (length rcved + length bs) len ≡ true =
            lt→ltb _ _ (omega (arith, parts)) in
          let (xs, s', f) =
            loop-ends rounds len (rcved ++ bs) (record s { incoming = later })
              (omega (arith, parts, length-append rcved bs)) (omega (arith, parts, b.0)) in
          (xs, s', rw (ap (λ k. recv k s) left ∙ recv-some need s bs later run, some_read, again) f)
    ]

pub split_exists :
    (n : ℕ) (xs : List ℕ) → n ≤ length xs → (ys zs : List ℕ) × (xs ≡ ys ++ zs) × (length ys ≡ n)
split_exists n xs le = (take n xs, drop n xs, sym (take-drop n xs), length-take n xs le)

-- In whatever segments the bytes arrive, `tcp_recvall` of 1 or more bytes returns their number and
-- the bytes that arrive first, if so many arrive, and those behind them are still to come.
pub tcp_recvall-gets :
    (s : Socket) (len : ℕ) (xs ys : List ℕ)
    → length xs ≡ len
    → 0 < len
    → stream s.incoming ≡ xs ++ ys
    → (later : List (List ℕ)) × (tcp_recvall len s
        ≡ some (pos len, xs, record s { incoming = later }))
      × (stream later ≡ ys)
unfolding tcp_recvall
tcp_recvall-gets s len xs ys total more e =
    loop-gets (suc len) len [] xs ys s (omega arith) e (omega arith) (omega arith)

pub tcp_recvall-ends :
    (s : Socket) (len : ℕ)
    → length (stream s.incoming) < len
    → (bs : List ℕ) × (s' : Socket) × (tcp_recvall len s ≡ some (end_result s, bs, s'))
unfolding tcp_recvall
tcp_recvall-ends s len few = loop-ends (suc len) len [] s (omega arith) (omega arith)

-- A connection that takes all the bytes.
abbrev pub after_send : List ℕ → Socket → Socket
after_send bs s = record s { capacity = s.capacity - length bs; sent = s.sent ++ bs }

pub tcp_send-whole :
    (bs : List ℕ) (s : Socket)
    → length bs ≤ s.capacity
    → tcp_send bs s ≡ (pos (length bs), after_send bs s)
unfolding tcp_send
tcp_send-whole bs s le = let fits : leb (length bs) s.capacity ≡ true = ground arith in rw fits refl

-- A connection that breaks before it has taken all the bytes.
pub tcp_send-short :
    (bs : List ℕ) (s : Socket) (n : ℕ)
    → length bs ≡ n
    → s.capacity < n
    → eqb_ℤ (tcp_send bs s).0 (pos n) ≡ false
unfolding tcp_send
tcp_send-short bs s n l lt =
    let broken : leb (length bs) s.capacity ≡ false = ground arith in
    elim (ℕ_discrete s.capacity 0) [
      | yes none_left ↦ rw (broken, eqb_true s.capacity 0 none_left) refl
      | no some_left ↦
          rw (broken, eqb_false s.capacity 0 some_left) (eqb_false s.capacity n (omega arith))
    ]

-- No bytes are received as at the end of a connection.
pub tcp_recvall-zero : (s : Socket) → tcp_recvall 0 s ≡ some (pos 0, [], s)
unfolding tcp_recvall recvall_loop recv
tcp_recvall-zero s = refl
