-- ===== src/Putters/Inv.antt =====
-- The invariant of the putters, and the operations of the thread that waits.
use queue_c.Base.{
  subst, sym, ℕ, suc, ◌-◌, ◌≡◌, ◌≢◌, ◌≤◌, ◌<◌, ◌⊎◌, refl, ap, ◌∙◌, inl, inr, true, false, some,
  List, arith, length, lt→ltb, All, All-at, All-imp, NotIn, Distinct, IsIn, sum, ℤ, pos, ◌-ℤ◌,
}
use native.Mathlib.Decide.{ℕ_discrete}
use queue_c.DynList.{set}
use queue_c.Getters.{erase}
use queue_c.Getters.Held.{
  set_self, set_other, All-set, All-set_any, All-erase, Distinct-erase, NotIn-erase, NotIn-differs,
}
use queue_c.Putters.{Putter, PutBucket, PuttersChain, putter_destroy, bucket_sn, expire}

abbrev pub bucket_size : (ℕ → PutBucket) → ℕ → ℕ
bucket_size b k = length (b k).putters

-- A putter that waits in bucket `k`: its thread alone holds it, its priority is the bucket's, and
-- if it has not timed out, `F` holds.
pub record IsWaiting (F : Type 0) (k : ℕ) (o : Putter) : Type 0 where
  pub sole : o.ref_count ≡ 1
  pub listed : o.entry ≡ true
  pub level : o.priority ≡ pos (suc k)
  pub message_level : o.message.priority ≡ pos (suc k)
  pub live : o.is_timedout ≡ false → F

-- A putter that has been signalled.
pub record IsPending (o : Putter) : Type 0 where
  pub sole : o.ref_count ≡ 1
  pub unlisted : o.entry ≡ false
  pub in_time : o.is_timedout ≡ false

-- The count is that of the buckets, a putter waits in at most one place or has been signalled.
pub record IsPutters (F : Type 0) (c : PuttersChain) (signalled : List ℕ) : Type 0 where
  pub counted : c.putter_count ≡ sum c.bucket_count (bucket_size c.buckets)
  pub inside : (k : ℕ) → c.bucket_count ≤ k → bucket_size c.buckets k ≡ 0
  pub distinct : (k : ℕ) → Distinct (c.buckets k).putters
  pub waiting : (k : ℕ) → All (λ p. IsWaiting F k (c.at p)) (c.buckets k).putters
  pub once : Distinct signalled
  pub pending : All (λ p. IsPending (c.at p)) signalled
  pub apart : (k : ℕ) → All (λ p. NotIn p (c.buckets k).putters) signalled

pub IsPutters-imp :
    (E F : Type 0) (c : PuttersChain) (s : List ℕ) → (E → F) → IsPutters E c s → IsPutters F c s
IsPutters-imp E F c s f v = record {
  counted = v.counted;
  inside = v.inside;
  distinct = v.distinct;
  waiting = λ k.
      All-imp _ _ (c.buckets k).putters
        (λ p w. record {
          sole = w.sole;
          listed = w.listed;
          level = w.level;
          message_level = w.message_level;
          live = λ e. f (w.live e);
        })
        (v.waiting k);
  once = v.once;
  pending = v.pending;
  apart = v.apart;
}

-- The bucket of a putter whose priority is one of the chain's.
pub bucket_sn_lem :
    (c : PuttersChain) (o : Putter) (sn : ℕ)
    → o.priority ≡ pos (suc sn)
    → sn < c.bucket_count
    → bucket_sn c o ≡ some sn
bucket_sn_lem c o sn e lt =
    let down : o.priority -ℤ pos 1 ≡ pos sn = ap (λ (p : ℤ). p -ℤ pos 1) e ∙ ground arith in
    rw (down, bucket_sn, lt→ltb sn c.bucket_count lt)

-- The message of every object is what it was.
abbrev pub SameMessages : PuttersChain → PuttersChain → Type 0
SameMessages c d = (x : ℕ) → (d.at x).message ≡ (c.at x).message

pub set-SameMessages :
    (c : PuttersChain) (p : ℕ) (o : Putter)
    → o.message ≡ (c.at p).message
    → SameMessages c (record c { at = set c.at p o })
set-SameMessages c p o e x = elim (ℕ_discrete x p) [
  | yes same ↦
      subst (λ y. (set c.at p o y).message ≡ (c.at y).message) (sym same)
        (ap (λ (y : Putter). y.message) (set_self c.at p o) ∙ e)
  | no other ↦ ap (λ (y : Putter). y.message) (set_other c.at p o x other)
]

module _ (F : Type 0) (c : PuttersChain) (s : List ℕ) (v : IsPutters F c s) where
  pub not_waiting : (p : ℕ) → (c.at p).ref_count ≢ 1 → (k : ℕ) → NotIn p (c.buckets k).putters
  not_waiting p n k =
      NotIn-differs (IsWaiting F k) c.at p (c.buckets k).putters (v.waiting k) (λ w. n w.sole)

  -- A putter waits in the bucket of its priority only.
  pub elsewhere :
      (p i : ℕ) → (c.at p).priority ≡ pos (suc i) → (k : ℕ) → k ≢ i → NotIn p (c.buckets k).putters
  elsewhere p i e k ne =
      NotIn-differs (IsWaiting F k) c.at p (c.buckets k).putters (v.waiting k) (λ w. ne cc)

  pub not_pending : (p : ℕ) → ¬ IsPending (c.at p) → NotIn p s
  not_pending p n = NotIn-differs IsPending c.at p s v.pending n

  -- The object of a putter that is neither listed nor signalled may change.
  pub IsPutters-set :
      (p : ℕ) (o : Putter)
      → ((k : ℕ) → NotIn p (c.buckets k).putters)
      → NotIn p s
      → IsPutters F (record c { at = set c.at p o }) s
  IsPutters-set p o n m = record {
    counted = v.counted;
    inside = v.inside;
    distinct = v.distinct;
    waiting =
        λ k. All-set (λ _ x. IsWaiting F k x) c.at p o (c.buckets k).putters (n k) (v.waiting k);
    once = v.once;
    pending = All-set (λ _ x. IsPending x) c.at p o s m v.pending;
    apart = v.apart;
  }

  -- A putter that has been signalled is released by its thread.
  pub woken-IsPutters :
      (p : ℕ)
      → IsIn p s
      → (c' : PuttersChain) × (putter_destroy c p ≡ some c')
        × IsPutters F c' (erase p s)
        × (c'.bucket_count ≡ c.bucket_count)
        × SameMessages c c'
  unfolding putter_destroy
  woken-IsPutters p i =
      let w : IsPending (c.at p) = All-at (λ x. IsPending (c.at x)) s p v.pending i in
      (
        record c { at = set c.at p (record (c.at p) { ref_count = (c.at p).ref_count - 1 }) },
        rw (lt→ltb 0 (c.at p).ref_count (omega (arith, w.sole))),
        record {
          counted = v.counted;
          inside = v.inside;
          distinct = v.distinct;
          waiting = λ k.
              All-set (λ _ x. IsWaiting F k x) c.at p _ (c.buckets k).putters
                (All-at (λ x. NotIn x (c.buckets k).putters) s p (v.apart k) i) (v.waiting k);
          once = Distinct-erase p s v.once;
          pending =
              All-set (λ _ x. IsPending x) c.at p _ (erase p s) (NotIn-erase p s v.once)
                (All-erase _ p s v.pending);
          apart = λ k. All-erase _ p s (v.apart k);
        },
        refl,
        set-SameMessages c p _ refl,
      )

  still_held : (p k : ℕ) → IsIn p (c.buckets k).putters ⊎ IsIn p s → (c.at p).ref_count ≡ 1
  still_held p k (inl i) =
      (All-at (λ x. IsWaiting F k (c.at x)) (c.buckets k).putters p (v.waiting k) i).sole
  still_held p k (inr i) = (All-at (λ x. IsPending (c.at x)) s p v.pending i).sole

  -- A putter that waits, signalled or not, times out.
  pub expire-IsPutters :
      (p k : ℕ)
      → IsIn p (c.buckets k).putters ⊎ IsIn p s
      → (c' : PuttersChain) × (expire c p ≡ some c')
        × IsPutters F c' (erase p s)
        × (c'.bucket_count ≡ c.bucket_count)
        × SameMessages c c'
  unfolding expire
  expire-IsPutters p k i = (
    record c { at = set c.at p (record (c.at p) { is_timedout = true }) },
    rw (lt→ltb 0 (c.at p).ref_count (omega (arith, still_held p k i))),
    record {
      counted = v.counted;
      inside = v.inside;
      distinct = v.distinct;
      waiting = λ j.
          All-set_any (λ _ x. IsWaiting F j x) c.at p _ (c.buckets j).putters
            (λ w. record {
              sole = w.sole;
              listed = w.listed;
              level = w.level;
              message_level = w.message_level;
              live = λ e. cc;
            })
            (v.waiting j);
      once = Distinct-erase p s v.once;
      pending =
          All-set (λ _ x. IsPending x) c.at p _ (erase p s) (NotIn-erase p s v.once)
            (All-erase _ p s v.pending);
      apart = λ j. All-erase _ p s (v.apart j);
    },
    refl,
    set-SameMessages c p _ refl,
  )
