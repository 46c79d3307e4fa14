-- ===== src/HashTable/Enum.antt =====
-- `qc_hashtbl_enumbegin` and `qc_hashtbl_enumnext`.
use queue_c.Base.{
  subst, ℕ, zero, suc, ◌+◌, ◌≡◌, ◌≤◌, ◌<◌, refl, ap, true, false, Option, none, some, List, [], ◌∷◌,
  ◌++◌, map, arith, leb, length,
}
use queue_c.HashTable.{Entry, HashTable, chained, enumbegin, advance, enumnext}

module _ {ℓ} {K D : Type ℓ} where
  -- All that `enumnext` gives, called until it gives NULL, or `calls` times.
  unfoldable pub drain : (calls : ℕ) → HashTable K D → List D
  drain zero t = []
  drain (suc calls) t = elim (enumnext t).0 [ none ↦ [] | some d ↦ d ∷ drain calls (enumnext t).1 ]

  -- The entries still to come: those of the chain, and of the buckets that follow.
  pub record IsLeft (t : HashTable K D) (left : ℕ) (es : List (Entry K D)) : Type ℓ where
    pub no : t.cur_bucket_no + suc left ≡ t.bucket_count
    pub entries : t.cur_entry ++ chained left (suc t.cur_bucket_no) t.buckets ≡ es

  -- The next answer gives the first entry to come, and leaves the others.
  abbrev Next : Option D × HashTable K D → List (Entry K D) → Type ℓ
  Next (r, t) [] = r ≡ none
  Next (r, t) (e ∷ es) = (r ≡ some e.data_of) × ((left : ℕ) × IsLeft t left es)

  advance-Next :
      (left fuel : ℕ) (t : HashTable K D) (cur : List (Entry K D))
      → t.cur_bucket_no + suc left ≡ t.bucket_count
      → left ≤ fuel
      → Next (advance fuel t cur) (cur ++ chained left (suc t.cur_bucket_no) t.buckets)
  unfolding advance chained
  advance-Next left fuel t (e ∷ cur) at enough = (refl, (left, record { no = at; entries = refl }))
  advance-Next zero zero t [] at enough = refl
  advance-Next zero (suc fuel) t [] at enough =
      let over : leb t.bucket_count (suc t.cur_bucket_no) ≡ true = ground arith in rw over
  advance-Next (suc left) zero t [] at enough = absurd (omega arith)
  advance-Next (suc left) (suc fuel) t [] at enough =
      let more : leb t.bucket_count (suc t.cur_bucket_no) ≡ false = ground arith in
      rw more (
        advance-Next left fuel (record t { cur_bucket_no = suc t.cur_bucket_no })
          (t.buckets (suc t.cur_bucket_no)) (omega arith) (omega arith))

  drain-IsLeft :
      (calls left : ℕ) (t : HashTable K D) (es : List (Entry K D))
      → IsLeft t left es
      → length es < calls
      → drain calls t ≡ map (λ (e : Entry K D). e.data_of) es
  unfolding drain enumnext
  drain-IsLeft zero left t es l h = absurd (omega arith)
  drain-IsLeft (suc calls) left t [] l h =
      let n =
        subst (Next (enumnext t)) l.entries
          (advance-Next left t.bucket_count t t.cur_entry l.no (omega (arith, l.no))) in
      rw (drain, n)
  drain-IsLeft (suc calls) left t (e ∷ es) l h =
      let (first, (left', l')) =
        subst (Next (enumnext t)) l.entries
          (advance-Next left t.bucket_count t t.cur_entry l.no (omega (arith, l.no))) in
      rw (drain, first)
        (ap (λ (ds : List D). e.data_of ∷ ds)
          (drain-IsLeft calls left' (enumnext t).1 es l' (omega arith)))

  -- In a table with a bucket, calling `enumnext` after `enumbegin` more often than there are
  -- entries gives the data of every entry, bucket after bucket, and then NULL.
  pub drain-enumbegin :
      (t : HashTable K D) (buckets calls : ℕ)
      → t.bucket_count ≡ suc buckets
      → length (chained t.bucket_count 0 t.buckets) < calls
      → drain calls (enumbegin t)
        ≡ map (λ (e : Entry K D). e.data_of) (chained t.bucket_count 0 t.buckets)
  unfolding enumbegin chained
  drain-enumbegin t buckets calls e h =
      drain-IsLeft calls buckets (enumbegin t) (chained t.bucket_count 0 t.buckets)
        (record { no = omega arith; entries = rw e }) h
