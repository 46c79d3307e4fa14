-- ===== src/StaticList/Init.antt =====
-- `qc_staticlist_init` and `qc_staticlist_clear`.
use queue_c.Base.{
  ℕ, zero, suc, ◌+◌, ◌-◌, ◌≡◌, ◌<◌, ◌≤◌, refl, ap, sym, subst, Bool, ◌∙◌, true, false, All, List,
  [], ◌∷◌, some, arith, ℤ, pos, negsuc, pos_part, NotIn, Distinct, length, count_from,
  if◌then◌else◌, ◌==◌, failed,
}
use queue_c.StaticList.{
  Cell, StaticList, update, invalid, init, init_cells, zeroed, clear, clear_loop,
}
use queue_c.StaticList.Links.{Links, first_of, last_cell, last_of-cons, Links-set_next}
use queue_c.StaticList.Rep.{Rep}
use queue_c.StaticList.Remove.{get_head-Rep}

-- The link back from cell `i` of a fresh list.
abbrev back : ℕ → ℤ
back i = if i == 0 then invalid else pos (i - 1)

init_cells-before : (k i : ℕ) (c : ℕ → Cell) (j : ℕ) → j < i → init_cells k i c j ≡ c j
init_cells-before zero i c j h = refl
init_cells-before (suc k) i c j h = init_cells-before k (suc i) _ j (omega arith) ∙ ground arith

first_of-count_from : (i k : ℕ) → first_of (count_from i k) (pos (i + k)) ≡ pos i
first_of-count_from i zero = ground arith
first_of-count_from i (suc k) = refl

back-suc : (i : ℕ) → back (suc i) ≡ pos i
back-suc i = ground arith

Links-init_cells :
    (k i : ℕ) (c : ℕ → Cell) → Links (init_cells k i c) (back i) (count_from i k) (pos (i + k))
Links-init_cells zero i c = tt
Links-init_cells (suc k) i c =
    let c' = update c i (record { previous = back i; next = pos (suc i) }) in
    let here : init_cells k (suc i) c' i ≡ record { previous = back i; next = pos (suc i) } =
      init_cells-before k (suc i) c' i (omega arith) ∙ ground arith in
    let shift : suc i + k ≡ i + suc k = omega arith in
    let rest = count_from (suc i) k in
    (
      ap (λ (x : Cell). x.previous) here,
      ap (λ (x : Cell). x.next) here
          ∙ (sym (first_of-count_from (suc i) k) ∙ ap (λ m. first_of rest (pos m)) shift),
      subst (λ p. Links (init_cells k (suc i) c') p rest (pos (i + suc k))) (back-suc i)
          (subst (λ m. Links (init_cells k (suc i) c') (back (suc i)) rest (pos m)) shift
            (Links-init_cells k (suc i) c')),
    )

NotIn-count_from : (i j k : ℕ) → j < i → NotIn j (count_from i k)
NotIn-count_from i j zero h = tt
NotIn-count_from i j (suc k) h = (omega arith, NotIn-count_from (suc i) j k (omega arith))

pub Distinct-count_from : (i k : ℕ) → Distinct (count_from i k)
Distinct-count_from i zero = tt
Distinct-count_from i (suc k) =
    (NotIn-count_from (suc i) i k (omega arith), Distinct-count_from (suc i) k)

pub All-count_from : (i k n : ℕ) → i + k ≤ n → All (λ x. x < n) (count_from i k)
All-count_from i zero n h = tt
All-count_from i (suc k) n h = (omega arith, All-count_from (suc i) k n (omega arith))

last_cell-count_from : (i k : ℕ) → last_cell i (count_from (suc i) k) ≡ i + k
last_cell-count_from i zero = omega arith
last_cell-count_from i (suc k) = last_cell-count_from (suc i) k ∙ omega arith

pub length-count_from : (i k : ℕ) → length (count_from i k) ≡ k
length-count_from i zero = refl
length-count_from i (suc k) = ap suc (length-count_from (suc i) k)

-- Initialising a static list with a positive limit and memory for its cells returns 0 and gives the
-- list of all the cells, in the order of their numbers.
pub init-Rep :
    (s : StaticList) (n : ℕ)
    → (t : StaticList) × (init s (pos (suc n)) true ≡ (pos 0, t))
      × Rep t (count_from 0 (suc n))
      × (t.size ≡ suc n)
unfolding init
init-Rep s n =
    let c = init_cells (suc n) 0 zeroed.cells in
    let last : last_cell 0 (count_from 1 n) ≡ n = last_cell-count_from 0 n ∙ omega arith in
    (
      (init s (pos (suc n)) true).1,
      refl,
      record {
        links =
            subst
              (λ t.
                Links (update c t (record { previous = (c t).previous; next = invalid })) invalid
                  (count_from 0 (suc n)) invalid)
              last
              (Links-set_next c invalid 0 (count_from 1 n) _ invalid (Distinct-count_from 0 (suc n))
                (Links-init_cells (suc n) 0 zeroed.cells));
        head = refl;
        tail = ap pos (sym last) ∙ sym (last_of-cons invalid 0 (count_from 1 n));
        num = ap pos (sym (length-count_from 0 (suc n)));
        limit = refl;
        inside = All-count_from 0 (suc n) (suc n) (omega arith);
        distinct = Distinct-count_from 0 (suc n);
      },
      refl,
    )

-- A limit that is not positive, or no memory, gives -1.
pub init-failed :
    (s : StaticList) (n : ℕ) (m : Bool)
    → ((init s (negsuc n) m).0 ≡ failed)
      × ((init s (pos 0) m).0 ≡ failed)
      × ((init s (pos n) false).0 ≡ failed)
unfolding init
init-failed s zero m = (refl, refl, refl)
init-failed s (suc n) m = (refl, refl, refl)

clear_loop-Rep :
    (xs : List ℕ) (s : StaticList)
    → Rep s xs
    → (t : StaticList) × (clear_loop (length xs) s ≡ some t) × Rep t [] × (t.size ≡ s.size)
unfolding clear_loop
clear_loop-Rep [] s r = (s, refl, r, refl)
clear_loop-Rep (x ∷ xs) s r =
    let (t, got, left, _, same) = get_head-Rep s x xs r in
    let (u, done, empty, size) = clear_loop-Rep xs t left in (u, rw got done, empty, size ∙ same)

-- Clearing a static list runs to its end and leaves the empty list, with the cells of the array as
-- many as before.
pub clear-Rep :
    (xs : List ℕ) (s : StaticList)
    → Rep s xs
    → (t : StaticList) × (clear s ≡ some t) × Rep t [] × (t.size ≡ s.size)
unfolding clear
clear-Rep xs s r =
    let (t, done, empty, same) = clear_loop-Rep xs s r in
    (t, ap (λ n. clear_loop (pos_part n) s) r.num ∙ done, empty, same)
