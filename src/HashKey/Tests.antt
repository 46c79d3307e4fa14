-- ===== src/HashKey/Tests.antt =====
-- Runs of the hashes, and their theorems at concrete strings.
use queue_c.Base.{ℕ, ◌≡◌, refl, true, [], ◌∷◌, arith, pos, List}
use queue_c.HashTable.{HashTable}
use queue_c.HashTable.Lookup.{IsHashing}
use queue_c.HashKey.{string_loop, absorb, hashstring, strcompare, tolower}
use queue_c.HashKey.Strings.{hashstring-IsHashing}

-- "Que" and "qUE".
abbrev title : List ℕ
title = 81 ∷ 117 ∷ 101 ∷ []

abbrev shouted : List ℕ
shouted = 113 ∷ 85 ∷ 69 ∷ []

title-hash : hashstring title 1000 ≡ 307
unfolding hashstring string_loop absorb tolower
title-hash = refl

title-shouted : strcompare title shouted ≡ pos 0
unfolding strcompare tolower
title-shouted = refl

-- A table of numbers by name.
abbrev names : HashTable (List ℕ) ℕ
names = record {
  buckets = λ _. [];
  bucket_count = 1000;
  entry_count = 0;
  cur_bucket_no = 0;
  cur_entry = [];
  hash = hashstring;
  compare = strcompare;
  destroys = true;
}

hashstring-IsHashing_example : IsHashing names
hashstring-IsHashing_example = hashstring-IsHashing names refl refl (omega arith)
