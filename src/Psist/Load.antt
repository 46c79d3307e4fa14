-- ===== src/Psist/Load.antt =====
-- `qc_psist_loadqueue` against the list of the records in use.
use queue_c.Base.{
  ℕ, zero, suc, ◌+◌, ◌-◌, ◌≡◌, ◌<◌, refl, ap, sym, subst, ◌∙◌, inl, inr, true, Option, none, some,
  List, [], ◌∷◌, arith, map, ◌==◌, if◌then◌else◌, ℤ, pos, failed, Option-cases, Bool-cases, Bool,
}
use queue_c.Protocol.{Host}
use queue_c.PsistFile.{MsgRecord, PsistFile, offset_of, file_size, fetch_ready, file_seek}
use queue_c.PsistFile.Records.{head_of, IsStore}
use queue_c.PsistFile.Fetch.{at_record, next_used, stored_at, AllFit, do_fetch-eq-outcome}
use queue_c.PsistFile.RoundTrip.{next_used-here}
use queue_c.Psist.{Psist, load_loop, loadqueue}

-- The records in use among `left` from `k` on.
abbrev pub used_records : Host → PsistFile → (left k : ℕ) → List ℕ
used_records host q zero k = []
used_records host q (suc left) k =
    let rest = used_records host q left (suc k) in
    if (head_of host q k).flag == 0 then rest else k ∷ rest

-- Put a list of messages in order, up to the first that does not go in.
abbrev pub put_all : {A : Type 0} → (A → MsgRecord → Option A) → List MsgRecord → A → ℤ × A
put_all put [] a = (pos 0, a)
put_all put (m ∷ ms) a = elim (put a m) [ none ↦ (failed, a) | some a' ↦ put_all put ms a' ]

-- The list after the next record in use.
record Next (host : Host) (q : PsistFile) (left k j : ℕ) : Type 0 where
  after : ℕ
  records : used_records host q left k ≡ j ∷ used_records host q after (suc j)
  count : suc j + after ≡ k + left
  fewer : after < left

next-none :
    (host : Host) (q : PsistFile) (left k : ℕ)
    → next_used host q left k ≡ none
    → used_records host q left k ≡ []
next-none host q zero k = λ e. refl
next-none host q (suc left) k = elim (Bool-cases ((head_of host q k).flag == 0)) [
  | inl free ↦ rw free (next-none host q left (suc k))
  | inr used ↦ rw used (λ e. cc)
]

next_used-skip :
    (host : Host) (q : PsistFile) (left k : ℕ)
    → ((head_of host q k).flag == 0) ≡ true
    → next_used host q (suc left) k ≡ next_used host q left (suc k)
next_used-skip host q left k free = rw free

next_used-Next :
    (host : Host) (q : PsistFile) (left k j : ℕ)
    → next_used host q left k ≡ some j
    → Next host q left k j
next_used-Next host q zero k j = λ e. cc
next_used-Next host q (suc left) k j = elim (Bool-cases ((head_of host q k).flag == 0)) [
  | inl free ↦ λ e.
      let n : Next host q left (suc k) j =
        next_used-Next host q left (suc k) j (sym (next_used-skip host q left k free) ∙ e) in
      record {
        after = n.after;
        records =
            subst
              (λ (b : Bool).
                (if b
                  then used_records host q left (suc k)
                  else k ∷ used_records host q left (suc k))
                ≡ j ∷ used_records host q n.after (suc j))
              (sym free) n.records;
        count = omega (arith, n.count);
        fewer = omega (arith, n.fewer);
      }
  | inr used ↦ λ e.
      let same : k ≡ j =
        ap (λ (o : Option ℕ). elim o [ none ↦ 0 | some x ↦ x ])
          (sym (next_used-here host q left k used) ∙ e) in
      record {
        after = left;
        records = rw used (ap (λ i. i ∷ used_records host q left (suc i)) same);
        count = omega arith;
        fewer = omega arith;
      }
]

module _ {A : Type 0} (put : A → MsgRecord → Option A) (host : Host) (q : PsistFile) (v : IsStore q)
    (fit : AllFit host q) where
  load_loop-eq-put_all :
      (rounds left k : ℕ) (a : A)
      → file_size q.info < 2147483648
      → k + left + 1 ≡ q.info.msgcount_limit
      → left < rounds
      → let r = put_all put (map (stored_at host q) (used_records host q left k)) a in
        (q' : PsistFile) × (load_loop put host rounds (at_record q k) a ≡ some (r.0, r.1, q'))
  unfolding load_loop
  load_loop-eq-put_all zero left k a small e h = absurd (omega arith)
  load_loop-eq-put_all (suc rounds) left k a small e h =
      elim (Option-cases (next_used host q left k)) [
        | inl ended ↦ (
          at_record q (q.info.msgcount_limit - 1),
          rw (
            do_fetch-eq-outcome host q v fit left k small e,
            ended,
            next-none host q left k ended,
          ),
        )
        | inr (j, n) ↦
            let x : Next host q left k j = next_used-Next host q left k j n in
            elim (Option-cases (put a (stored_at host q j))) [
              | inl full ↦ (
                at_record q (suc j),
                rw (do_fetch-eq-outcome host q v fit left k small e, n, x.records, full),
              )
              | inr (a', taken) ↦
                  let (q', run) =
                    load_loop-eq-put_all rounds x.after (suc j) a' small (omega (arith, x.count))
                      (omega (arith, x.fewer)) in
                  (
                    q',
                    rw (do_fetch-eq-outcome host q v fit left k small e, n, x.records, taken) run,
                  )
            ]
      ]

-- On a file as long as its head says and of at most 2147483647 bytes, whose records in use hold no
-- more than their room, `loadqueue` returns, and puts the messages of the records in use into the
-- queue in the order of the records, the last record of the file left out, up to the first that
-- does not go in; the result is 0 if they all do, else -1.
pub loadqueue-eq-put_all :
    {A : Type 0} (put : A → MsgRecord → Option A) (host : Host) (p : Psist) (a : A)
    → IsStore p.qtbl
    → AllFit host p.qtbl
    → file_size p.qtbl.info < 2147483648
    → let r =
        put_all put
          (map
            (stored_at host p.qtbl)
            (used_records host p.qtbl (p.qtbl.info.msgcount_limit - 1) 0))
          a in
      (q : PsistFile) × (loadqueue put host p a ≡ some (r.0, r.1, q))
unfolding loadqueue fetch_ready file_seek
loadqueue-eq-put_all put host p a v fit small =
    let first : 16 ≡ offset_of p.qtbl.info 0 = omega arith in
    rw first (
      load_loop-eq-put_all put host p.qtbl v fit p.qtbl.info.msgcount_limit
        (p.qtbl.info.msgcount_limit - 1) 0 a small (omega (arith, v.some_records))
        (omega (arith, v.some_records)))
