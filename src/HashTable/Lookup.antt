-- ===== src/HashTable/Lookup.antt =====
-- `qc_hashtbl_insert`, `qc_hashtbl_find` and `qc_hashtbl_delete` against one another.
use queue_c.Base.{
  ◌↔◌, ◌≢◌, subst, ℕ, ◌+◌, ◌-◌, ◌%◌, ◌≡◌, ◌<◌, refl, sym, ap, ◌∙◌, inl, inr, Bool, true, false,
  Option, none, some, List, [], ◌∷◌, arith, if◌then◌else◌, ◌==◌, ◌>>=◌, ℤ, pos, lt→ltb, Bool-cases,
}
use native.Mathlib.Decide.{ℕ_discrete}
use queue_c.HashTable.{
  Entry, HashTable, uint_size, same, index_of, set_bucket, insert, find_in, find, unlink,
  drop_entry, destroyed, delete,
}

-- What the table relies on: a key equals itself, equal keys equal the same keys, and they have one
-- hash, which is that of a bucket.
pub record IsHashing {ℓ} {K D : Type ℓ} (t : HashTable K D) : Type ℓ where
  pub itself : (a : K) → same t.compare a a ≡ true
  pub alike : (a b c : K) → same t.compare a b ≡ true → same t.compare a c ≡ same t.compare b c
  pub one_hash :
      (a b : K) → same t.compare a b ≡ true → t.hash a t.bucket_count ≡ t.hash b t.bucket_count
  pub bounded : (a : K) → t.hash a t.bucket_count < t.bucket_count

pub eq_self : (i : ℕ) → (i == i) ≡ true
eq_self i = ground arith

pub eq_other : (i j : ℕ) → i ≢ j → (i == j) ≡ false
eq_other i j ne = ground arith

module _ {ℓ} {K D : Type ℓ} where
  pub set_bucket_self :
      (b : ℕ → List (Entry K D)) (i : ℕ) (es : List (Entry K D)) → set_bucket b i es i ≡ es
  set_bucket_self b i es = rw (eq_self i)

  pub set_bucket-other :
      (b : ℕ → List (Entry K D)) (i : ℕ) (es : List (Entry K D)) (j : ℕ)
      → j ≢ i
      → set_bucket b i es j ≡ b j
  set_bucket-other b i es j ne = rw (eq_other j i ne)

  -- Looking for `b` in its bucket `j` where bucket `i` has got a new entry for `a`.
  find_in-new :
      (compare : K → K → ℤ) (buckets : ℕ → List (Entry K D)) (i j : ℕ) (a b : K) (d : D)
      → (same compare a b ≡ true → i ≡ j)
      → find_in compare b (set_bucket buckets i (record { key = a; data_of = d } ∷ buckets i) j)
        ≡ (if same compare a b then some d else find_in compare b (buckets j))
  unfolding find_in
  find_in-new compare buckets i j a b d one = elim (Bool-cases (same compare a b)) [
    | inl e ↦ rw (one e, eq_self j, e)
    | inr n ↦ elim (ℕ_discrete j i) [
      | yes q ↦ rw (q, eq_self i, n)
      | no ne ↦ rw (eq_other j i ne, n)
    ]
  ]

  -- What an unlinking finds, and what it leaves.
  abbrev pub found : Option (Entry K D × List (Entry K D)) → Option D
  found none = none
  found (some (e, rest)) = some e.data_of

  abbrev pub left_of : List (Entry K D) → Option (Entry K D × List (Entry K D)) → List (Entry K D)
  left_of es none = es
  left_of es (some (e, rest)) = rest

  abbrev pub behind :
      Entry K D → Option (Entry K D × List (Entry K D)) → Option (Entry K D × List (Entry K D))
  behind e o = do (x, rest) ← o; some (x, e ∷ rest)

  found-behind :
      (e : Entry K D) (o : Option (Entry K D × List (Entry K D))) → found (behind e o) ≡ found o
  found-behind e none = refl
  found-behind e (some (x, rest)) = refl

  pub left_of-behind :
      (e : Entry K D) (es : List (Entry K D)) (o : Option (Entry K D × List (Entry K D)))
      → left_of (e ∷ es) (behind e o) ≡ e ∷ left_of es o
  left_of-behind e es none = refl
  left_of-behind e es (some (x, rest)) = refl

  -- The entry that is unlinked is the one that is found.
  found-unlink :
      (compare : K → K → ℤ) (a : K) (es : List (Entry K D))
      → found (unlink compare a es) ≡ find_in compare a es
  unfolding find_in unlink
  found-unlink compare a [] = refl
  found-unlink compare a (e ∷ es) = elim (Bool-cases (same compare e.key a)) [
    | inl q ↦ rw q
    | inr q ↦ rw q (found-behind e (unlink compare a es) ∙ found-unlink compare a es)
  ]

  -- A key that does not equal the one that is unlinked finds what it found before.
  find_in-unlink :
      (compare : K → K → ℤ) (a b : K)
      → ((c : K) → same compare c a ≡ true → same compare c b ≡ false)
      → (es : List (Entry K D))
      → find_in compare b (left_of es (unlink compare a es)) ≡ find_in compare b es
  unfolding find_in unlink
  find_in-unlink compare a b apart [] = refl
  find_in-unlink compare a b apart (e ∷ es) = elim (Bool-cases (same compare e.key a)) [
    | inl q ↦ rw (q, apart e.key q)
    | inr q ↦ rw (q, left_of-behind e es (unlink compare a es), find_in-unlink compare a b apart es)
  ]

module _ {ℓ} {K D : Type ℓ} (t : HashTable K D) (h : IsHashing t) where
  pub index_of_lem : (k : K) → index_of t k ≡ some (t.hash k t.bucket_count)
  index_of_lem k = rw (lt→ltb _ _ (h.bounded k))

  some_if : (c : Bool) (x y : Option D) → some (if c then x else y) ≡ (if c then some x else some y)
  some_if true x y = refl
  some_if false x y = refl

  -- After a key is inserted in a table whose hash and comparison fit together, it and the keys
  -- equal to it find what was inserted, and every other key what it found before.
  pub insert-find :
      (a : K) (d : D)
      → (t' : HashTable K D) × (insert t a d ≡ some (pos 0, t'))
        × ((b : K) → find t' b ≡ (if same t.compare a b then some (some d) else find t b))
  unfolding insert find
  insert-find a d = (
    record t {
      buckets =
          set_bucket t.buckets (t.hash a t.bucket_count)
            (record { key = a; data_of = d } ∷ t.buckets (t.hash a t.bucket_count));
      entry_count = (t.entry_count + 1) % uint_size;
    },
    rw (index_of_lem a) refl,
    λ b.
        rw
          (
            index_of_lem b,
            find_in-new t.compare t.buckets (t.hash a t.bucket_count) (t.hash b t.bucket_count) a b
                d (h.one_hash a b),
          )
          (some_if (same t.compare a b) (some d) _),
  )

  -- Deleting a key that was just inserted returns 1, hands the inserted entry to the destroy
  -- function if there is one, and gives every bucket back as it was, and the count modulo the size
  -- of an unsigned int.
  pub insert-delete :
      (a : K) (d : D)
      → (t' t'' : HashTable K D) × (insert t a d ≡ some (pos 0, t'))
        × (delete t' a ≡ some (pos 1, destroyed t (record { key = a; data_of = d } ∷ []), t''))
        × ((k : ℕ) → t''.buckets k ≡ t.buckets k)
        × (t''.entry_count ≡ t.entry_count % uint_size)
  unfolding insert delete unlink
  insert-delete a d =
      let i = t.hash a t.bucket_count in
      let with_a = set_bucket t.buckets i (record { key = a; data_of = d } ∷ t.buckets i) in
      (
        record t { buckets = with_a; entry_count = (t.entry_count + 1) % uint_size },
        record t {
          buckets = set_bucket with_a i (t.buckets i);
          entry_count = ((t.entry_count + 1) % uint_size + (uint_size - 1)) % uint_size;
        },
        rw (index_of_lem a) refl,
        rw (index_of_lem a, set_bucket_self t.buckets i _, h.itself a) refl,
        λ k. elim (ℕ_discrete k i) [
          | yes q ↦ rw q (set_bucket_self with_a i _)
          | no ne ↦ set_bucket-other with_a i _ k ne ∙ set_bucket-other t.buckets i _ k ne
        ],
        omega arith,
      )

  apart_from :
      (a b : K)
      → same t.compare a b ≡ false
      → (c : K) → same t.compare c a ≡ true
      → same t.compare c b ≡ false
  apart_from a b n c e = h.alike c a b e ∙ n

  -- Looking for `b` after an entry for `a` is unlinked from its bucket.
  find_in-left :
      (a b : K)
      → same t.compare a b ≡ false
      → (i j : ℕ)
      → find_in t.compare b
          (set_bucket t.buckets i (left_of (t.buckets i) (unlink t.compare a (t.buckets i))) j)
        ≡ find_in t.compare b (t.buckets j)
  find_in-left a b n i j = elim (ℕ_discrete j i) [
    | yes q ↦ rw (q, eq_self i) (find_in-unlink t.compare a b (apart_from a b n) (t.buckets i))
    | no ne ↦ rw (eq_other j i ne)
  ]

  Deleted : K → K → Option (Entry K D × List (Entry K D)) → Type ℓ
  Deleted a b o =
      (find (drop_entry t (t.hash a t.bucket_count) o).2 b ≡ find t b)
      × (((drop_entry t (t.hash a t.bucket_count) o).0 ≡ pos 0) ↔ (find t a ≡ some none))

  drop-Deleted :
      (a b : K)
      → same t.compare a b ≡ false
      → (o : Option (Entry K D × List (Entry K D)))
      → unlink t.compare a (t.buckets (t.hash a t.bucket_count)) ≡ o
      → Deleted a b o
  unfolding find Deleted
  drop-Deleted a b n none q =
      let gone : find_in t.compare a (t.buckets (t.hash a t.bucket_count)) ≡ none =
        sym (found-unlink t.compare a _) ∙ ap found q in
      (refl, (λ _. rw (index_of_lem a, gone), λ _. refl))
  drop-Deleted a b n (some (e, rest)) q =
      let i = t.hash a t.bucket_count in
      let there : find_in t.compare a (t.buckets i) ≡ some e.data_of =
        sym (found-unlink t.compare a _) ∙ ap found q in
      let kept : left_of (t.buckets i) (unlink t.compare a (t.buckets i)) ≡ rest =
        ap (left_of (t.buckets i)) q in
      let finds : find t a ≡ some (some e.data_of) = rw (index_of_lem a, there) in
      (
        rw (index_of_lem b) (
            ap some (
              subst
                (λ (l : List (Entry K D)).
                  find_in t.compare b (set_bucket t.buckets i l (t.hash b t.bucket_count))
                  ≡ find_in t.compare b (t.buckets (t.hash b t.bucket_count)))
                kept (find_in-left a b n i (t.hash b t.bucket_count)))),
        (λ z. cc, λ z. cc),
      )

  -- Deleting a key returns, a key that does not equal it finds what it found before, and the result
  -- is 0 exactly if the key was not found.
  pub delete-find :
      (a b : K)
      → same t.compare a b ≡ false
      → (r : ℤ) × (gone : List (Entry K D)) × (t' : HashTable K D) × (delete t a
          ≡ some (r, gone, t'))
        × (find t' b ≡ find t b)
        × ((r ≡ pos 0) ↔ (find t a ≡ some none))
  unfolding delete Deleted
  delete-find a b n =
      let i = t.hash a t.bucket_count in
      let o = unlink t.compare a (t.buckets i) in
      let (r, gone, t') = drop_entry t i o in
      let (same_find, iff) = drop-Deleted a b n o refl in
      (r, gone, t', rw (index_of_lem a) refl, same_find, iff)
