-- ===== src/HashTable/Count.antt =====
-- `entry_count` of the table.
use queue_c.Base.{
  ℕ, zero, suc, ◌+◌, ◌%◌, ◌≡◌, ◌≤◌, ◌<◌, refl, inl, inr, Option, none, some, List, [], ◌∷◌, arith,
  if◌then◌else◌, ℤ, pos, eqb_ℤ, length, length-append, Bool-cases,
}
use native.Mathlib.Decide.{ℕ_discrete}
use queue_c.HashTable.{
  Entry, HashTable, uint_size, same, set_bucket, insert, unlink, drop_entry, delete, chained,
}
use queue_c.HashTable.Lookup.{
  IsHashing, left_of, behind, left_of-behind, set_bucket_self, set_bucket-other, index_of_lem,
}

-- The count is that of the entries in all the buckets, modulo the size of an unsigned int.
pub record IsCounted {ℓ} {K D : Type ℓ} (t : HashTable K D) : Type ℓ where
  pub counted : t.entry_count ≡ length (chained t.bucket_count 0 t.buckets) % uint_size

module _ {ℓ} {K D : Type ℓ} where
  abbrev pub entries : HashTable K D → List (Entry K D)
  entries t = chained t.bucket_count 0 t.buckets

  chained-outside :
      (left start i : ℕ) (b : ℕ → List (Entry K D)) (es : List (Entry K D))
      → i < start
      → chained left start (set_bucket b i es) ≡ chained left start b
  unfolding chained
  chained-outside zero start i b es lt = refl
  chained-outside (suc left) start i b es lt = rw (
    set_bucket-other b i es start (λ e. omega arith),
    chained-outside left (suc start) i b es (omega arith),
  )

  -- One bucket is replaced.
  length-chained :
      (left start i : ℕ) (b : ℕ → List (Entry K D)) (es : List (Entry K D))
      → start ≤ i
      → i < start + left
      → length (chained left start (set_bucket b i es)) + length (b i)
        ≡ length (chained left start b) + length es
  unfolding chained
  length-chained zero start i b es low high = absurd (omega arith)
  length-chained (suc left) start i b es low high = elim (ℕ_discrete start i) [
    | yes q ↦
        rw (q, set_bucket_self b i es, chained-outside left (suc i) i b es (omega arith))
          (omega (
            arith,
            length-append es (chained left (suc i) b),
            length-append (b i) (chained left (suc i) b),
          ))
    | no ne ↦ rw (set_bucket-other b i es start ne) (
        omega (
          arith,
          length-append (b start) (chained left (suc start) (set_bucket b i es)),
          length-append (b start) (chained left (suc start) b),
          length-chained left (suc start) i b es (omega arith) (omega arith),
        ))
  ]

  abbrev removed : Option (Entry K D × List (Entry K D)) → ℕ
  removed none = 0
  removed (some x) = 1

  removed-behind :
      (e : Entry K D) (o : Option (Entry K D × List (Entry K D))) → removed (behind e o) ≡ removed o
  removed-behind e none = refl
  removed-behind e (some x) = refl

  length-unlink :
      (compare : K → K → ℤ) (a : K) (es : List (Entry K D))
      → length es ≡ length (left_of es (unlink compare a es)) + removed (unlink compare a es)
  unfolding unlink
  length-unlink compare a [] = refl
  length-unlink compare a (e ∷ es) = elim (Bool-cases (same compare e.key a)) [
    | inl q ↦ rw q (omega arith)
    | inr q ↦
        rw (q, left_of-behind e es (unlink compare a es), removed-behind e (unlink compare a es))
          (omega (arith, length-unlink compare a es))
  ]

module _ {ℓ} {K D : Type ℓ} (t : HashTable K D) (h : IsHashing t) (c : IsCounted t) where
  -- Inserting keeps the count equal to the number of entries modulo the size of an unsigned int,
  -- and adds one entry.
  pub insert-IsCounted :
      (a : K) (d : D)
      → (t' : HashTable K D) × (insert t a d ≡ some (pos 0, t'))
        × IsCounted t'
        × (length (entries t') ≡ length (entries t) + 1)
  unfolding insert
  insert-IsCounted a d =
      let i = t.hash a t.bucket_count in
      let new : List (Entry K D) = record { key = a; data_of = d } ∷ t.buckets i in
      let grown : length (chained t.bucket_count 0 (set_bucket t.buckets i new))
          ≡ length (entries t) + 1 =
        omega (
          arith,
          length-chained t.bucket_count 0 i t.buckets new (omega arith)
              (omega (arith, h.bounded a)),
        ) in
      (
        record t {
          buckets = set_bucket t.buckets i new;
          entry_count = (t.entry_count + 1) % uint_size;
        },
        rw (index_of_lem t h a) refl,
        record { counted = omega (arith, c.counted, grown) },
        grown,
      )

  drop-IsCounted :
      (i : ℕ) (o : Option (Entry K D × List (Entry K D)))
      → i < t.bucket_count
      → length (t.buckets i) ≡ length (left_of (t.buckets i) o) + removed o
      → IsCounted (drop_entry t i o).2
        × (length (entries (drop_entry t i o).2)
              + (if eqb_ℤ (drop_entry t i o).0 (pos 1) then 1 else 0)
            ≡ length (entries t))
  drop-IsCounted i none lt shorter = (c, omega arith)
  drop-IsCounted i (some (e, rest)) lt shorter =
      let same_total =
        length-chained t.bucket_count 0 i t.buckets rest (omega arith) (omega arith) in
      (record { counted = omega (arith, c.counted) }, omega arith)

  -- Deleting keeps the count equal to the number of entries modulo the size of an unsigned int, and
  -- takes one entry out exactly when it returns 1.
  pub delete-IsCounted :
      (a : K)
      → (r : ℤ) × (gone : List (Entry K D)) × (t' : HashTable K D) × (delete t a
          ≡ some (r, gone, t'))
        × IsCounted t'
        × (length (entries t') + (if eqb_ℤ r (pos 1) then 1 else 0) ≡ length (entries t))
  unfolding delete
  delete-IsCounted a =
      let i = t.hash a t.bucket_count in
      let o = unlink t.compare a (t.buckets i) in
      let (r, gone, t') = drop_entry t i o in
      let (counted, fewer) =
        drop-IsCounted i o (h.bounded a) (length-unlink t.compare a (t.buckets i)) in
      (r, gone, t', rw (index_of_lem t h a) refl, counted, fewer)
