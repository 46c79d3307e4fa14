-- ===== src/HashKey/Strings.antt =====
-- The hashes and comparisons fit together, as a table of strings needs.
use queue_c.Base.{
  ℕ, suc, ◌≡◌, ◌<◌, refl, sym, ap, ap₂, List, [], ◌∷◌, arith, if◌then◌else◌, ltb, ◌==◌, true, false,
  ℤ, pos, negsuc, length, map, ◌↔◌, subst,
}
use native.Mathlib.Decide.{ℕ_discrete}
use native.Mathlib.Nat.{mod-lt}
use queue_c.HashTable.{HashTable, same}
use queue_c.HashTable.Lookup.{IsHashing, eq_self, eq_other}
use queue_c.HashKey.{
  State, tolower, absorb, finish, initial, string_loop, hashstring, bin_loop, hashbin, compare_loop,
  bincompare, strcompare,
}

-- A string in lower case.
abbrev pub lower : List ℕ → List ℕ
lower = map tolower

string_loop-lower :
    (str1 str2 : List ℕ) (s : State)
    → lower str1 ≡ lower str2
    → string_loop s str1 ≡ string_loop s str2
unfolding string_loop absorb
string_loop-lower [] [] s e = refl
string_loop-lower [] (d ∷ t) s e = cc
string_loop-lower (c ∷ s) [] st e = cc
string_loop-lower (c ∷ s) (d ∷ t) st e =
    let first : tolower c ≡ tolower d = cc in
    let rest : lower s ≡ lower t = cc in rw first (string_loop-lower s t _ rest)

three_way :
    (a b : ℕ) (rest : ℤ)
    → (if ltb a b then negsuc 0 else if ltb b a then pos 1 else rest) ≡ pos 0
    → (a ≡ b) × (rest ≡ pos 0)
three_way a b rest e = (ground arith, ground arith)

strcompare-lower : (str1 str2 : List ℕ) → strcompare str1 str2 ≡ pos 0 → lower str1 ≡ lower str2
unfolding strcompare
strcompare-lower [] [] e = refl
strcompare-lower [] (d ∷ t) e = cc
strcompare-lower (c ∷ s) [] e = cc
strcompare-lower (c ∷ s) (d ∷ t) e =
    let both = three_way (tolower c) (tolower d) (strcompare s t) e in
    ap₂ ◌∷◌ both.0 (strcompare-lower s t both.1)

-- Strings that compare equal have the same hash.
pub hashstring-strcompare :
    (str1 str2 : List ℕ) (n : ℕ)
    → strcompare str1 str2 ≡ pos 0
    → hashstring str1 n ≡ hashstring str2 n
unfolding hashstring
hashstring-strcompare str1 str2 n e =
    ap (λ (s : State). finish s n)
      (string_loop-lower str1 str2 initial (strcompare-lower str1 str2 e))

-- Only the lower case counts.
strcompare-alike : (a b c : List ℕ) → lower a ≡ lower b → strcompare a c ≡ strcompare b c
unfolding strcompare
strcompare-alike [] [] c e = refl
strcompare-alike [] (y ∷ b) c e = cc
strcompare-alike (x ∷ a) [] c e = cc
strcompare-alike (x ∷ a) (y ∷ b) [] e = refl
strcompare-alike (x ∷ a) (y ∷ b) (z ∷ c) e =
    let first : tolower x ≡ tolower y = cc in
    let rest : lower a ≡ lower b = cc in rw (first, strcompare-alike a b c rest)

pub strcompare_self : (a : List ℕ) → strcompare a a ≡ pos 0
unfolding strcompare
strcompare_self [] = refl
strcompare_self (c ∷ s) = let rest = strcompare_self s in ground arith

same-equal : (a b : List ℕ) → same strcompare a b ≡ true → strcompare a b ≡ pos 0
same-equal a b e = ground arith

-- A table with a bucket whose hash is `hashstring` and whose comparison is `strcompare` has what
-- the table relies on: the comparison is an equivalence, equal keys have one hash, and the hash is
-- that of a bucket.
pub hashstring-IsHashing :
    {D : Type 0} (t : HashTable (List ℕ) D)
    → t.hash ≡ hashstring
    → t.compare ≡ strcompare
    → 0 < t.bucket_count
    → IsHashing t
unfolding hashstring
hashstring-IsHashing {D = D} t hash compare some_bucket = record {
  itself = λ a. rw (compare, strcompare_self a);
  alike = λ a b c e. rw (compare, strcompare-alike a b c (strcompare-lower a b (equal a b e)));
  one_hash = λ a b e. rw hash (hashstring-strcompare a b t.bucket_count (equal a b e));
  bounded = λ a. rw hash (mod-lt _ some_bucket);
}
  where
    equal : (a b : List ℕ) → same t.compare a b ≡ true → strcompare a b ≡ pos 0
    equal a b e = same-equal a b (subst (λ (f : List ℕ → List ℕ → ℤ). same f a b ≡ true) compare e)

-- The string stands in memory.
abbrev pub Stored : (ℕ → ℕ) → ℕ → List ℕ → Type 0
Stored memory at [] = Unit
Stored memory at (c ∷ str) = (memory at ≡ c) × Stored memory (suc at) str

bin_loop-string_loop :
    (memory : ℕ → ℕ) (str : List ℕ) (at : ℕ) (s : State)
    → Stored memory at str
    → bin_loop (length str) memory at s ≡ string_loop s str
unfolding bin_loop string_loop
bin_loop-string_loop memory [] at s h = refl
bin_loop-string_loop memory (c ∷ str) at s h =
    subst (λ x. bin_loop (length str) memory (suc at) (absorb s x) ≡ string_loop (absorb s c) str)
      (sym h.0) (bin_loop-string_loop memory str (suc at) (absorb s c) h.1)

-- For a string that stands in memory, `hashbin` at its address and length is its `hashstring`.
pub hashbin-hashstring :
    (memory : ℕ → ℕ) (key : ℕ) (str : List ℕ) (n : ℕ)
    → Stored memory key str
    → hashbin memory key (length str) n ≡ hashstring str n
unfolding hashbin hashstring
hashbin-hashstring memory key str n h =
    ap (λ (s : State). finish s n) (bin_loop-string_loop memory str key initial h)

compare_loop-equal :
    (memory : ℕ → ℕ) (str1 str2 : List ℕ) (a b : ℕ)
    → Stored memory a str1
    → Stored memory b str2
    → length str1 ≡ length str2
    → (compare_loop (length str1) memory a b ≡ 1) ↔ (str1 ≡ str2)
unfolding compare_loop
compare_loop-equal memory [] [] a b h k e = (λ _. refl, λ _. refl)
compare_loop-equal memory [] (d ∷ t) a b h k e = absurd (omega (arith, e))
compare_loop-equal memory (c ∷ s) [] a b h k e = absurd (omega (arith, e))
compare_loop-equal memory (c ∷ s) (d ∷ t) a b h k e =
    let rest = compare_loop-equal memory s t (suc a) (suc b) h.1 k.1 (omega (arith, e)) in
    elim (ℕ_discrete c d) [
      | yes q ↦
          let alike : (memory a == memory b) ≡ true = ground arith in
          rw alike (λ z. ap₂ ◌∷◌ q (rest.0 z), λ z. rest.1 cc)
      | no ne ↦
          let apart : (memory a == memory b) ≡ false = ground arith in
          rw apart (λ z. absurd (omega arith), λ z. absurd (ne cc))
    ]

-- For two byte strings that stand in memory, `bincompare` at their addresses and lengths is 1 if
-- and only if they are equal.
pub bincompare-equal :
    (memory : ℕ → ℕ) (a b : ℕ) (str1 str2 : List ℕ)
    → Stored memory a str1
    → Stored memory b str2
    → (bincompare memory a (pos (length str1)) b (pos (length str2)) ≡ 1) ↔ (str1 ≡ str2)
unfolding bincompare
bincompare-equal memory a b str1 str2 h k = elim (ℕ_discrete (length str1) (length str2)) [
  | yes e ↦
      rw (e, eq_self (length str2))
        (subst (λ n. (compare_loop n memory a b ≡ 1) ↔ (str1 ≡ str2)) e
          (compare_loop-equal memory str1 str2 a b h k e))
  | no ne ↦
      rw (eq_other (length str1) (length str2) ne)
        (λ z. absurd (omega arith), λ z. absurd (ne (ap length z)))
]
