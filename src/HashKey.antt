-- ===== src/HashKey.antt =====
-- src/qc_rt/qc_hash.c, the keys: hashes and comparisons of strings and of bytes. A string is the
-- list of its bytes before the terminator.
pub mod Strings
mod Tests
use queue_c.Base.{
  ℕ, zero, suc, ◌+◌, ◌*◌, ◌%◌, ◌^◌, List, [], ◌∷◌, if◌then◌else◌, ltb, leb, ◌==◌, Bool, ◌&&◌, not,
  ℤ, pos, negsuc, eqb_ℤ,
}

-- `unsigned int`.
abbrev pub uint_size : ℕ
uint_size = 2 ^ 32

-- `tolower` in the C locale.
unfoldable pub tolower : ℕ → ℕ
tolower c = if leb 65 c && leb c 90 then c + 32 else c

-- The locals `i` (`j` in `qc_hashbin`), `ret` and `hash_value` of the two loops.
pub record State : Type 0 where
  pub round : ℕ
  pub ret : ℕ
  pub hash_value : ℕ

-- Every five bytes the value is added to the result and starts again.
abbrev pub turn : State → State
turn s =
    if s.round == 5
    then record { round = 0; ret = (s.ret + s.hash_value) % uint_size; hash_value = 0 }
    else s

-- `hash_value += hash_value << 3` and the next byte.
abbrev pub mix : ℕ → ℕ → ℕ
mix hash_value byte = ((hash_value + hash_value * 8 % uint_size) % uint_size + byte) % uint_size

unfoldable pub absorb : State → ℕ → State
absorb s byte =
    let s1 = turn s in
    record s1 { round = s1.round + 1; hash_value = mix s1.hash_value (tolower byte) }

abbrev pub finish : State → ℕ → ℕ
finish s bucket_count = (s.ret + s.hash_value) % uint_size % bucket_count

abbrev pub initial : State
initial = record { round = 0; ret = 0; hash_value = 0 }

unfoldable pub string_loop : State → List ℕ → State
string_loop s [] = s
string_loop s (c ∷ str) = string_loop (absorb s c) str

unfoldable pub hashstring : List ℕ → ℕ → ℕ
hashstring str bucket_count = finish (string_loop initial str) bucket_count

-- `left` bytes from address `at` on.
unfoldable pub bin_loop : (left : ℕ) → (ℕ → ℕ) → ℕ → State → State
bin_loop zero memory at s = s
bin_loop (suc left) memory at s = bin_loop left memory (suc at) (absorb s (memory at))

unfoldable pub hashbin : (ℕ → ℕ) → (key length : ℕ) → ℕ → ℕ
hashbin memory key length bucket_count = finish (bin_loop length memory key initial) bucket_count

unfoldable pub compare_loop : (left : ℕ) → (ℕ → ℕ) → ℕ → ℕ → ℕ
compare_loop zero memory a b = 1
compare_loop (suc left) memory a b =
    let rest = compare_loop left memory (suc a) (suc b) in
    if not (memory a == memory b) then 0 else rest

-- The lengths are of type `int`, and a negative one compares no byte.
unfoldable pub bincompare : (ℕ → ℕ) → ℕ → ℤ → ℕ → ℤ → ℕ
bincompare memory str1 (pos n) str2 len2 =
    if not (eqb_ℤ (pos n) len2) then 0 else compare_loop n memory str1 str2
bincompare memory str1 (negsuc n) str2 len2 = if not (eqb_ℤ (negsuc n) len2) then 0 else 1

-- The sign of `strcasecmp`, which is what `qc_strcompare` returns; a shorter string is less.
unfoldable pub strcompare : List ℕ → List ℕ → ℤ
strcompare [] [] = pos 0
strcompare [] (d ∷ t) = negsuc 0
strcompare (c ∷ s) [] = pos 1
strcompare (c ∷ s) (d ∷ t) =
    let rest = strcompare s t in
    if ltb (tolower c) (tolower d)
    then negsuc 0
    else if ltb (tolower d) (tolower c)
    then pos 1
    else rest
