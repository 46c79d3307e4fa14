-- ===== src/HashTable/Tests.antt =====
-- Runs of the hash table, and its theorems at a concrete table.
use queue_c.Base.{
  ℕ, ◌≡◌, ◌%◌, refl, true, some, [], ◌∷◌, arith, if◌then◌else◌, ◌==◌, pos, map, ◌-ℤ◌,
}
use queue_c.HashTable.{Entry, HashTable, insert, find, chained, enumbegin, same}
use queue_c.HashTable.Lookup.{IsHashing, insert-find}
use queue_c.HashTable.Enum.{drain, drain-enumbegin}

-- Numbers as keys, in two buckets; 4 and 6 share one.
abbrev two_buckets : HashTable ℕ ℕ
two_buckets = record {
  buckets = λ k.
      if k == 0
      then record { key = 6; data_of = 66 } ∷ record { key = 4; data_of = 44 } ∷ []
      else [];
  bucket_count = 2;
  entry_count = 2;
  cur_bucket_no = 0;
  cur_entry = [];
  hash = λ k n. k % n;
  compare = λ a b. pos a -ℤ pos b;
  destroys = true;
}

same_number : (a b : ℕ) → same two_buckets.compare a b ≡ true → a ≡ b
same_number a b e = ground arith

two_buckets-IsHashing : IsHashing two_buckets
two_buckets-IsHashing = record {
  itself = λ a. ground arith;
  alike = λ a b c e. rw (same_number a b e);
  one_hash = λ a b e. rw (same_number a b e);
  bounded = λ a. omega arith;
}

insert-find_example :
    (t' : HashTable ℕ ℕ) × (insert two_buckets 4 45 ≡ some (pos 0, t'))
    × ((b : ℕ)
        → find t' b ≡ (if same two_buckets.compare 4 b then some (some 45) else find two_buckets b))
insert-find_example = insert-find two_buckets two_buckets-IsHashing 4 45

drain-enumbegin_example :
    drain 3 (enumbegin two_buckets)
    ≡ map (λ (e : Entry ℕ ℕ). e.data_of) (chained 2 0 two_buckets.buckets)
unfolding chained
drain-enumbegin_example = drain-enumbegin two_buckets 1 3 refl (omega arith)
