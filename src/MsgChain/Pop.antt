-- ===== src/MsgChain/Pop.antt =====
-- `qc_msgchain_popmsg`: what a message that is popped is, and what is left.
use queue_c.Base.{
  sum-grow, ℕ, zero, suc, ◌+◌, ◌-◌, ◌≡◌, ◌≢◌, ◌≤◌, ◌<◌, refl, ap, sym, subst, ◌∙◌, inl, inr, All,
  Option, none, some, List, ◌∷◌, arith, length, ltb, ◌==◌, ltb→lt, ltb-false, Bool-cases,
  List-cases, pos,
}
use native.Mathlib.Decide.{ℕ_discrete, dec_lt}
use queue_c.Message.{Message}
use queue_c.MsgChain.{
  Bucket, MsgChain, Popped, pophead, take_from, reset, visit, pass, second_pass, popmsg,
}
use queue_c.MsgChain.Locate.{popmsg-Starts}
use queue_c.MsgChain.Inv.{IsChain, bucket_size, total, update_self, update_other}

-- `d` is `c` without the oldest message of one bucket, which is `m`.
pub record Pops (c d : MsgChain) (m : Option Message) : Type 0 where
  pub sn : ℕ
  pub message : Message
  pub taken : m ≡ some message
  pub front : (c.buckets sn).msgs ≡ message ∷ (d.buckets sn).msgs
  pub others : (k : ℕ) → k ≢ sn → (d.buckets k).msgs ≡ (c.buckets k).msgs
  pub fewer : d.msg_count + 1 ≡ c.msg_count
  pub turns : (k : ℕ) → (d.buckets k).pop_counter ≤ suc k
  pub cursor : d.cursor ≡ c.cursor
  pub bucket_count : d.bucket_count ≡ c.bucket_count
  pub count_limit : d.count_limit ≡ c.count_limit
  pub temp : d.temp ≡ c.temp

-- If the loop returns, it has popped a message of `c`.
abbrev pub Yields : MsgChain → Option Popped → Type 0
Yields c none = Unit
Yields c (some (m, d)) = Pops c d m

-- There is a message, and no bucket has had too many turns.
pub record IsReady (c : MsgChain) : Type 0 where
  pub some_left : 0 < c.msg_count
  pub turns : (k : ℕ) → (c.buckets k).pop_counter ≤ suc k

pub reset_msgs : (c : MsgChain) (sn k : ℕ) → ((reset c sn).buckets k).msgs ≡ (c.buckets k).msgs
reset_msgs c sn k = ground arith

reset_turns : (c : MsgChain) (sn : ℕ) → IsReady c → IsReady (reset c sn)
reset_turns c sn r = record { some_left = r.some_left; turns = λ k. ground (arith, r.turns k) }

Yields-reset : (c : MsgChain) (sn : ℕ) (r : Option Popped) → Yields (reset c sn) r → Yields c r
Yields-reset c sn none y = tt
Yields-reset c sn (some (m, d)) y = record {
  sn = y.sn;
  message = y.message;
  taken = y.taken;
  front = sym (reset_msgs c sn y.sn) ∙ y.front;
  others = λ k ne. y.others k ne ∙ reset_msgs c sn k;
  fewer = y.fewer;
  turns = y.turns;
  cursor = y.cursor;
  bucket_count = y.bucket_count;
  count_limit = y.count_limit;
  temp = y.temp;
}

pub take_from-Pops :
    (c : MsgChain) (sn counter : ℕ)
    → IsReady c
    → 0 < length (c.buckets sn).msgs
    → counter ≤ suc sn
    → Yields c (some (take_from c sn counter))
take_from-Pops c sn counter r full few = elim (List-cases (c.buckets sn).msgs) [
  | inl e ↦ absurd (omega (arith, ap length e))
  | inr (x, xs, e) ↦ record {
    sn = sn;
    message = x;
    taken = rw e;
    front =
        e
        ∙ ap (λ (l : List Message). x ∷ l)
            (sym (
              ap (λ (b : Bucket). b.msgs) (update_self c.buckets sn _)
              ∙ ap (λ (l : List Message). (pophead l).1) e));
    others = λ k ne. ap (λ (b : Bucket). b.msgs) (update_other c.buckets sn _ k ne);
    fewer = omega (arith, r.some_left);
    turns = λ k. ground (arith, r.turns k);
    cursor = refl;
    bucket_count = refl;
    count_limit = refl;
    temp = refl;
  }
]

visit-Yields :
    (c : MsgChain) (sn : ℕ) (skip used_up : MsgChain → Option Popped)
    → IsReady c
    → Yields c (skip c)
    → Yields (reset c sn) (used_up (reset c sn))
    → Yields c (visit c sn skip used_up)
visit-Yields c sn skip used_up r skipped again =
    elim (Bool-cases (ltb (c.buckets sn).pop_counter (suc sn))) [
      | inl turn ↦ elim (Bool-cases (ltb 0 (length (c.buckets sn).msgs))) [
        | inl full ↦ rw (turn, full) (take_from-Pops c sn _ r (ltb→lt _ _ full) (ltb→lt _ _ turn))
        | inr none_here ↦ rw (turn, none_here) skipped
      ]
      | inr over ↦ elim (Bool-cases (length (c.buckets sn).msgs == c.msg_count)) [
        | inl sole ↦ rw (over, sole) (take_from-Pops c sn _ r (ground arith) (r.turns sn))
        | inr shared ↦ rw (over, shared) (Yields-reset c sn _ again)
      ]
    ]

pass-Yields :
    (again : MsgChain → Option Popped)
    → ((d : MsgChain) → IsReady d → Yields d (again d))
    → (sn : ℕ) (c : MsgChain) → IsReady c
    → Yields c (pass again c sn)
unfolding pass
pass-Yields again good zero c r =
    visit-Yields c zero (λ _. none) again r tt (good (reset c zero) (reset_turns c zero r))
pass-Yields again good (suc n) c r =
    let below = λ (d : MsgChain). pass again d n in
    visit-Yields c (suc n) below below r (pass-Yields again good n c r)
      (pass-Yields again good n (reset c (suc n)) (reset_turns c (suc n) r))

pub second_pass-Yields : (c : MsgChain) → IsReady c → Yields c (second_pass c)
unfolding second_pass
second_pass-Yields c r = pass-Yields (λ _. none) (λ d _. tt) (c.bucket_count - 1) c r

pub IsChain-IsReady : (c : MsgChain) → IsChain c → 0 < c.msg_count → IsReady c
IsChain-IsReady c v h = record { some_left = h; turns = v.turns }

Pops-le-cursor :
    (c d : MsgChain) (m : Option Message) → IsChain c → (p : Pops c d m) → p.sn ≤ c.cursor
Pops-le-cursor c d m v p = elim (dec_lt c.cursor p.sn) [
  | yes g ↦ absurd (omega (arith, ap length (sym p.front ∙ v.above p.sn g)))
  | no g ↦ omega arith
]

Pops-placed :
    (c d : MsgChain) (m : Option Message)
    → IsChain c
    → Pops c d m
    → (k : ℕ) → All (λ x. x.priority ≡ pos (suc k)) (d.buckets k).msgs
Pops-placed c d m v p k = elim (ℕ_discrete k p.sn) [
  | yes q ↦ rw q (subst (All (λ x. x.priority ≡ pos (suc p.sn))) p.front (v.placed p.sn)).1
  | no ne ↦ subst (All (λ x. x.priority ≡ pos (suc k))) (sym (p.others k ne)) (v.placed k)
]

-- What is left after a pop is a chain again.
pub Pops-IsChain : (c d : MsgChain) (m : Option Message) → IsChain c → Pops c d m → IsChain d
Pops-IsChain c d m v p =
    let here : bucket_size c.buckets p.sn ≡ bucket_size d.buckets p.sn + 1 =
      omega (arith, ap length p.front) in
    let low : p.sn ≤ c.cursor = Pops-le-cursor c d m v p in
    let grown : total c.bucket_count c.buckets ≡ total c.bucket_count d.buckets + 1 =
      sum-grow c.bucket_count (bucket_size c.buckets) (bucket_size d.buckets) p.sn
        (omega (arith, v.cursor_in)) here (λ k ne. ap length (sym (p.others k ne))) in
    record {
      cursor_in = omega (arith, v.cursor_in, p.cursor, p.bucket_count);
      counted =
          omega (arith, v.counted, p.fewer, grown, ap (λ n. total n d.buckets) p.bucket_count);
      limited = omega (arith, v.limited, p.fewer, p.count_limit);
      above =
          λ k h. p.others k (λ q. omega (arith, p.cursor)) ∙ v.above k (omega (arith, p.cursor));
      turns = p.turns;
      placed = Pops-placed c d m v p;
    }

-- On a chain with no message the assertion stops the program.
pub popmsg-no_message : (c : MsgChain) → c.msg_count ≤ 0 → popmsg c ≡ none
unfolding popmsg
popmsg-no_message c h = rw (ltb-false 0 c.msg_count h)

-- If `popmsg` returns on a chain that satisfies the invariant, the message returned is the oldest
-- of one bucket, every other message stays where it is, the count is one less, no turn counter
-- exceeds its bucket's priority, only the cursor and the turn counters change besides, and the
-- invariant holds again.
pub popmsg-Pops :
    (c d : MsgChain) (m : Option Message)
    → IsChain c
    → popmsg c ≡ some (m, d)
    → Pops (record c { cursor = d.cursor }) d m × IsChain d
popmsg-Pops c d m v e = elim (dec_lt 0 c.msg_count) [
  | yes h ↦
      let (sn, s) = popmsg-Starts c v h in
      let ready : IsReady (record c { cursor = sn }) = IsChain-IsReady _ s.chain h in
      let popped : Pops (record c { cursor = sn }) d m =
        subst (Yields (record c { cursor = sn })) (sym s.runs ∙ e)
          (pass-Yields second_pass second_pass-Yields sn _ ready) in
      (
        subst (λ k. Pops (record c { cursor = k }) d m) (sym popped.cursor) popped,
        Pops-IsChain (record c { cursor = sn }) d m s.chain popped,
      )
  | no h ↦ cc (popmsg-no_message c (omega arith))
]
