-- ===== src/HashTable.antt =====
-- src/qc_rt/qc_hash.c, the table: chains of entries in buckets, with the hash and the comparison
-- given by the caller. A hash outside the buckets is a fault, `none`.
pub mod Lookup
pub mod Count
pub mod Enum
mod Tests
use queue_c.Base.{
  ℕ, zero, suc, ◌+◌, ◌%◌, ◌^◌, Bool, true, false, Option, none, some, List, [], ◌∷◌, ◌++◌, map,
  if◌then◌else◌, ltb, leb, ◌==◌, ◌>>=◌, ◌>>◌, ◌-◌, assert, ℤ, pos, eqb_ℤ,
}

pub record Entry {ℓ} (K D : Type ℓ) : Type ℓ where
  pub key : K
  pub data_of : D

-- A bucket is the chain of its entries from the head on, and `cur_entry` the rest of a chain from
-- the entry that is enumerated next; no entry is deleted between two steps of an enumeration.
-- `destroys` says that there is a DestroyFunc.
pub record HashTable {ℓ} (K D : Type ℓ) : Type ℓ where
  pub buckets : ℕ → List (Entry K D)
  pub bucket_count : ℕ
  pub entry_count : ℕ
  pub cur_bucket_no : ℕ
  pub cur_entry : List (Entry K D)
  pub hash : K → ℕ → ℕ
  pub compare : K → K → ℤ
  pub destroys : Bool

-- `unsigned int`.
abbrev pub uint_size : ℕ
uint_size = 2 ^ 32

abbrev pub same {ℓ} : {K : Type ℓ} → (K → K → ℤ) → K → K → Bool
same compare a b = eqb_ℤ (compare a b) (pos 0)

module _ {ℓ} {K D : Type ℓ} where
  -- NULL for no buckets or no lock. Memory that cannot be had stops the program in `qc_malloc`.
  unfoldable pub create :
      ℕ → (with_rwlock lock_made : Bool) → (K → ℕ → ℕ) → (K → K → ℤ) → Bool → Option (HashTable K D)
  create bucket_count with_rwlock lock_made hash compare destroys =
      if bucket_count == 0
      then none
      else if lock_made
      then some (record {
        buckets = λ _. [];
        bucket_count = bucket_count;
        entry_count = 0;
        cur_bucket_no = 0;
        cur_entry = [];
        hash = hash;
        compare = compare;
        destroys = destroys;
      })
      else none

  -- The bucket of a key.
  abbrev pub index_of : HashTable K D → K → Option ℕ
  index_of t key =
      let index = t.hash key t.bucket_count in assert (ltb index t.bucket_count) >> some index

  abbrev pub set_bucket : (ℕ → List (Entry K D)) → ℕ → List (Entry K D) → ℕ → List (Entry K D)
  set_bucket b i es k = if k == i then es else b k

  unfoldable pub insert : HashTable K D → K → D → Option (ℤ × HashTable K D)
  insert t key d = do
    index ← index_of t key
    let new_entry : Entry K D = record { key = key; data_of = d }
    some (
      pos 0,
      record t {
        buckets = set_bucket t.buckets index (new_entry ∷ t.buckets index);
        entry_count = (t.entry_count + 1) % uint_size;
      },
    )

  -- The walk along a chain.
  unfoldable pub find_in : (K → K → ℤ) → K → List (Entry K D) → Option D
  find_in compare key [] = none
  find_in compare key (e ∷ es) =
      if same compare e.key key then some e.data_of else find_in compare key es

  -- `none` inside is the NULL of a key that is not there.
  unfoldable pub find : HashTable K D → K → Option (Option D)
  find t key = do index ← index_of t key; some (find_in t.compare key (t.buckets index))

  -- The first entry with the key, and the chain without it.
  unfoldable pub unlink : (K → K → ℤ) → K → List (Entry K D) → Option (Entry K D × List (Entry K D))
  unlink compare key [] = none
  unlink compare key (e ∷ es) =
      if same compare e.key key
      then some (e, es)
      else (do (x, rest) ← unlink compare key es; some (x, e ∷ rest))

  abbrev pub destroyed : HashTable K D → List (Entry K D) → List (Entry K D)
  destroyed t es = if t.destroys then es else []

  abbrev pub drop_entry :
      HashTable K D
      → ℕ
      → Option (Entry K D × List (Entry K D))
      → ℤ × List (Entry K D) × HashTable K D
  drop_entry t index none = (pos 0, [], t)
  drop_entry t index (some (e, rest)) = (
    pos 1,
    destroyed t (e ∷ []),
    record t {
      buckets = set_bucket t.buckets index rest;
      entry_count = (t.entry_count + (uint_size - 1)) % uint_size;
    },
  )

  -- The result, the entries that DestroyFunc is called with, and the table.
  unfoldable pub delete : HashTable K D → K → Option (ℤ × List (Entry K D) × HashTable K D)
  delete t key = do
    index ← index_of t key
    some (drop_entry t index (unlink t.compare key (t.buckets index)))

  -- The entries of `left` buckets from `i` on.
  unfoldable pub chained : (left i : ℕ) → (ℕ → List (Entry K D)) → List (Entry K D)
  chained zero i b = []
  chained (suc left) i b = b i ++ chained left (suc i) b

  -- The entries that DestroyFunc is called with, in order.
  unfoldable pub destroy : HashTable K D → List (Entry K D)
  destroy t = destroyed t (chained t.bucket_count 0 t.buckets)

  unfoldable pub enumbegin : HashTable K D → HashTable K D
  enumbegin t = record t { cur_bucket_no = 0; cur_entry = t.buckets 0 }

  -- The loop goes on to the next bucket at most `left` times; that is enough for `left` from the
  -- number of buckets on.
  unfoldable pub advance : (left : ℕ) → HashTable K D → List (Entry K D) → Option D × HashTable K D
  advance left t (e ∷ es) = (some e.data_of, record t { cur_entry = es })
  advance zero t [] = (none, record t { cur_entry = [] })
  advance (suc left) t [] =
      let no = suc t.cur_bucket_no in
      let later = advance left (record t { cur_bucket_no = no }) (t.buckets no) in
      if leb t.bucket_count no
      then (none, record t { cur_bucket_no = no; cur_entry = [] })
      else later

  unfoldable pub enumnext : HashTable K D → Option D × HashTable K D
  enumnext t = advance t.bucket_count t t.cur_entry
