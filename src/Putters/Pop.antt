-- ===== src/Putters/Pop.antt =====
-- `qc_putterschain_pop`: which putter is popped, and what is left.
use queue_c.Base.{
  ℕ, zero, suc, ◌+◌, ◌-◌, ◌≡◌, ◌≢◌, ◌<◌, refl, ap, sym, ◌∙◌, inl, inr, false, Option, none, some,
  ◌>>=◌, List, ◌∷◌, arith, length, ltb, ◌==◌, Bool-cases, List-cases,
}
use queue_c.DynList.{set}
use queue_c.Getters.Held.{set_self, set_other}
use queue_c.Putters.{
  PutBucket, PuttersChain, Popped, take_from, reset, visit, pass, second_pass, locate, pop,
}

-- `d` is `c` without the putter that has waited longest in one bucket, which is `popped`, and whose
-- object now has the popping thread as a second holder.
pub record Pops (c d : PuttersChain) (popped : Option ℕ) : Type 0 where
  pub sn : ℕ
  pub putter : ℕ
  pub taken : popped ≡ some putter
  pub front : (c.buckets sn).putters ≡ putter ∷ (d.buckets sn).putters
  pub others : (k : ℕ) → k ≢ sn → (d.buckets k).putters ≡ (c.buckets k).putters
  pub fewer : d.putter_count + 1 ≡ c.putter_count
  pub bucket_count : d.bucket_count ≡ c.bucket_count
  pub object :
      d.at
      ≡ set c.at putter
          (record (c.at putter) { entry = false; ref_count = (c.at putter).ref_count + 1 })

-- If the loop returns, it has popped a putter of `c`.
abbrev pub Yields : PuttersChain → Option Popped → Type 0
Yields c none = Unit
Yields c (some (p, d)) = Pops c d p

reset_putters :
    (c : PuttersChain) (sn k : ℕ) → ((reset c sn).buckets k).putters ≡ (c.buckets k).putters
reset_putters c sn k = ground arith

Yields-reset : (c : PuttersChain) (sn : ℕ) (r : Option Popped) → Yields (reset c sn) r → Yields c r
Yields-reset c sn none y = tt
Yields-reset c sn (some (p, d)) y = record {
  sn = y.sn;
  putter = y.putter;
  taken = y.taken;
  front = sym (reset_putters c sn y.sn) ∙ y.front;
  others = λ k ne. y.others k ne ∙ reset_putters c sn k;
  fewer = y.fewer;
  bucket_count = y.bucket_count;
  object = y.object;
}

module _ (c : PuttersChain) (some_left : 0 < c.putter_count) where
  take_from-Yields : (sn counter : ℕ) → Yields c (take_from c sn counter)
  take_from-Yields sn counter = elim (List-cases (c.buckets sn).putters) [
    | inl e ↦ rw (take_from, e) tt
    | inr (p, ps, e) ↦ elim (Bool-cases (ltb 0 (c.at p).ref_count)) [
      | inr freed ↦ rw (take_from, e, freed) tt
      | inl live ↦
          rw (take_from, e, live)
            (record {
              sn = sn;
              putter = p;
              taken = refl;
              front =
                  e
                  ∙ sym (
                      ap (λ (l : List ℕ). p ∷ l)
                        (ap (λ (b : PutBucket). b.putters) (set_self c.buckets sn _)));
              others = λ k ne. ap (λ (b : PutBucket). b.putters) (set_other c.buckets sn _ k ne);
              fewer = omega (arith, some_left);
              bucket_count = refl;
              object = refl;
            })
    ]
  ]

  visit-Yields :
      (sn : ℕ) (skip used_up : PuttersChain → Option Popped)
      → Yields c (skip c)
      → Yields (reset c sn) (used_up (reset c sn))
      → Yields c (visit c sn skip used_up)
  visit-Yields sn skip used_up skipped again =
      elim (Bool-cases (ltb (c.buckets sn).pop_counter (suc sn))) [
        | inl turn ↦ elim (Bool-cases (ltb 0 (length (c.buckets sn).putters))) [
          | inl full ↦ rw (turn, full) (take_from-Yields sn _)
          | inr none_here ↦ rw (turn, none_here) skipped
        ]
        | inr over ↦ elim (Bool-cases (length (c.buckets sn).putters == c.putter_count)) [
          | inl sole ↦ rw (over, sole) (take_from-Yields sn _)
          | inr shared ↦ rw (over, shared) (Yields-reset c sn _ again)
        ]
      ]

pass-Yields :
    (again : PuttersChain → Option Popped)
    → ((d : PuttersChain) → 0 < d.putter_count → Yields d (again d))
    → (sn : ℕ) (c : PuttersChain) → 0 < c.putter_count
    → Yields c (pass again c sn)
unfolding pass
pass-Yields again good zero c r = visit-Yields c r zero (λ _. none) again tt (good (reset c zero) r)
pass-Yields again good (suc n) c r =
    let below = λ (d : PuttersChain). pass again d n in
    visit-Yields c r (suc n) below below (pass-Yields again good n c r)
      (pass-Yields again good n (reset c (suc n)) r)

second_pass-Yields : (c : PuttersChain) → 0 < c.putter_count → Yields c (second_pass c)
unfolding second_pass
second_pass-Yields c r = pass-Yields (λ _. none) (λ d _. tt) (c.bucket_count - 1) c r

Yields-cursor :
    (c : PuttersChain) (sn : ℕ) (r : Option Popped)
    → Yields (record c { cursor = sn }) r
    → Yields c r
Yields-cursor c sn none y = tt
Yields-cursor c sn (some (p, d)) y = record {
  sn = y.sn;
  putter = y.putter;
  taken = y.taken;
  front = y.front;
  others = y.others;
  fewer = y.fewer;
  bucket_count = y.bucket_count;
  object = y.object;
}

from_located :
    (c : PuttersChain)
    → 0 < c.putter_count
    → (r : Option ℕ) → Yields c (r >>= λ sn. pass second_pass (record c { cursor = sn }) sn)
from_located c h none = tt
from_located c h (some sn) =
    Yields-cursor c sn _
      (pass-Yields second_pass second_pass-Yields sn (record c { cursor = sn }) h)

-- If it returns while a putter waits, it has popped one.
pub pop-Yields : (c : PuttersChain) → 0 < c.putter_count → Yields c (pop c)
unfolding pop
pop-Yields c h = elim (Bool-cases (c.putter_count == 0)) [
  | inl e ↦ absurd (ground arith)
  | inr e ↦ rw e (from_located c h (locate c.buckets c.cursor))
]

pub pop-no_putter : (c : PuttersChain) → c.putter_count ≡ 0 → pop c ≡ some (none, c)
unfolding pop
pop-no_putter c h = rw h
