-- ===== src/StaticList/Insert.antt =====
-- `qc_staticlist_add_head`, `qc_staticlist_add_tail` and `qc_staticlist_add_at`.
use mathlib.Core.Path.{fun_ext}
use mathlib.Core.List.{append-nil, append_assoc}
use queue_c.Base.{
  ℕ, ◌≡◌, ◌<◌, refl, ap, subst, ◌∙◌, All-right, List, [], ◌∷◌, ◌++◌, Option, some, arith, ℤ, pos,
  ◌+ℤ◌, NotIn, Distinct, lt→ltb,
}
use queue_c.StaticList.{
  Cell, StaticList, detached, update, invalid, is_invalid, set_next, set_previous, load, store,
  add_first, add_head, add_tail, add_at,
}
use queue_c.StaticList.Links.{first_of, last_of, last_cell, Links-right, last_of-append}
use queue_c.StaticList.Rep.{Rep, set_next_of, set_previous_of, if_empty, set_next-last}
use queue_c.StaticList.Remove.{in_range, not_empty}
use queue_c.StaticList.Between.{
  between, cells_with, Links-cells_with, Links-cells_at, with_cells, Rep-with,
}

-- Adding a cell that is not on the list returns its number.
abbrev pub Adds : Option (ℤ × StaticList) → StaticList → ℕ → List ℕ → Type 0
Adds result s x xs = (t : StaticList) × (result ≡ some (pos x, t)) × Rep t xs × (t.size ≡ s.size)

-- The facts about a list that ends in `p`.
if_empty-snoc {ℓ} : {A : Type ℓ} (ys : List ℕ) (p : ℕ) (a b : A) → if_empty (ys ++ (p ∷ [])) a b ≡ b
if_empty-snoc [] p a b = refl
if_empty-snoc (y ∷ ys) p a b = refl

last_cell-snoc : (y : ℕ) (ys : List ℕ) (p : ℕ) → last_cell y (ys ++ (p ∷ [])) ≡ p
last_cell-snoc y [] p = refl
last_cell-snoc y (z ∷ ys) p = last_cell-snoc z ys p

set_next_of-snoc :
    (c : ℕ → Cell) (ys : List ℕ) (p : ℕ) (n : ℤ)
    → set_next_of c (ys ++ (p ∷ [])) n ≡ update c p (record { previous = (c p).previous; next = n })
set_next_of-snoc c [] p n = refl
set_next_of-snoc c (y ∷ ys) p n = rw (last_cell-snoc y ys p)

-- The cells that `add_at` leaves, with `x` put behind `p` and before `zs`.
abbrev cells_behind : (ℕ → Cell) → ℕ → ℕ → List ℕ → ℕ → Cell
cells_behind c p x zs =
    update
      (set_previous_of (update c p (record { previous = (c p).previous; next = pos x })) zs (pos x))
      x (record { previous = pos p; next = first_of zs invalid })

abbrev behind : StaticList → ℕ → ℕ → List ℕ → StaticList
behind s p x zs = record s {
  tail = if_empty zs (pos x) s.tail;
  num = s.num +ℤ pos 1;
  cells = cells_behind s.cells p x zs;
}

behind-eq-with :
    (s : StaticList) (ys : List ℕ) (p x : ℕ) (zs : List ℕ)
    → with_cells s (ys ++ (p ∷ [])) x zs (
        update
          (set_previous_of (set_next_of s.cells (ys ++ (p ∷ [])) (pos x)) zs (pos x))
          x
          (between (ys ++ (p ∷ [])) zs))
      ≡ behind s p x zs
behind-eq-with s ys p x zs =
    rw (if_empty-snoc ys p (pos x) s.head, set_next_of-snoc s.cells ys p (pos x), last_of-append)

module _ (s : StaticList) (x : ℕ) (lt : x < s.size) where
  Rep-behind :
      (ys : List ℕ) (p : ℕ) (zs : List ℕ)
      → Rep s (ys ++ (p ∷ zs))
      → NotIn x (ys ++ (p ∷ zs))
      → Rep (behind s p x zs) (ys ++ (p ∷ x ∷ zs))
  Rep-behind ys p zs r out =
      let front = ys ++ (p ∷ []) in
      let r' : Rep s (front ++ zs) = rw append_assoc r in
      let out' : NotIn x (front ++ zs) = rw append_assoc out in
      subst (λ t. Rep t (ys ++ (p ∷ x ∷ zs))) (behind-eq-with s ys p x zs)
        (subst (Rep _) (append_assoc ys (p ∷ []) (x ∷ zs)) (
          Rep-with s front x zs _ r' lt out'
            (Links-cells_at front zs x r'.distinct out' s.cells r'.links)))

  module _ (ys : List ℕ) (p : ℕ) where
    -- Writing the two links of a cell one by one gives the cell.
    both_links :
        (c : ℕ → Cell) (n : ℤ)
        → let d = update c x (record { previous = pos p; next = (c x).next }) in
          update d x (record { previous = (d x).previous; next = n })
          ≡ update c x (record { previous = pos p; next = n })
    both_links c n = fun_ext (λ j. ground arith)

    add_at-eq-behind :
        (zs : List ℕ)
        → Rep s (ys ++ (p ∷ zs))
        → add_at s (pos p) (pos x) ≡ some (pos x, behind s p x zs)
    unfolding add_at load store set_next set_previous
    add_at-eq-behind [] r =
        let here = All-right _ ys (p ∷ []) r.inside in
        rw
          (
            in_range s p r.limit here.0,
            in_range s x r.limit lt,
            ap is_invalid r.head ∙ not_empty ys p [],
            lt→ltb p s.size here.0,
            (Links-right s.cells invalid ys (p ∷ []) invalid r.links).1,
            lt→ltb x s.size lt,
            lt→ltb x s.size lt,
          )
          (ap
            (λ (c : ℕ → Cell).
              some (pos x, record s { tail = pos x; num = s.num +ℤ pos 1; cells = c }))
            (both_links
              (update s.cells p (record { previous = (s.cells p).previous; next = pos x }))
              invalid))
    add_at-eq-behind (z ∷ zs) r =
        let here = All-right _ ys (p ∷ z ∷ zs) r.inside in
        rw
          (
            in_range s p r.limit here.0,
            in_range s x r.limit lt,
            ap is_invalid r.head ∙ not_empty ys p (z ∷ zs),
            lt→ltb p s.size here.0,
            (Links-right s.cells invalid ys (p ∷ z ∷ zs) invalid r.links).1,
            lt→ltb z s.size here.1.0,
            lt→ltb x s.size lt,
            lt→ltb x s.size lt,
          )
          (ap (λ (c : ℕ → Cell). some (pos x, record s { num = s.num +ℤ pos 1; cells = c }))
            (both_links
              (set_previous_of
                (update s.cells p (record { previous = (s.cells p).previous; next = pos x }))
                (z ∷ zs) (pos x))
              (pos z)))

module _ (s : StaticList) (x : ℕ) (lt : x < s.size) where
  Adds-first : Rep s [] → Adds (add_first s (pos x)) s x (x ∷ [])
  unfolding add_first store
  Adds-first r = (
    record s { head = pos x; tail = pos x; num = pos 1; cells = update s.cells x detached },
    rw (lt→ltb x s.size lt),
    record {
      links = ground arith;
      head = refl;
      tail = refl;
      num = refl;
      limit = r.limit;
      inside = (lt, tt);
      distinct = (tt, tt);
    },
    refl,
  )

  -- Adding a cell that is below the limit and not on the list at the tail returns its number and
  -- puts it behind all the cells of the list.
  pub add_tail-Rep :
      (xs : List ℕ) → Rep s xs → NotIn x xs → Adds (add_tail s (pos x)) s x (xs ++ (x ∷ []))
  unfolding add_tail store
  add_tail-Rep [] r out = rw (in_range s x r.limit lt, ap is_invalid r.head) (Adds-first r)
  add_tail-Rep (y ∷ ys) r out =
      let apart : Distinct ((y ∷ ys) ++ []) = rw append-nil r.distinct in
      let away : NotIn x ((y ∷ ys) ++ []) = rw append-nil out in
      (
        with_cells s (y ∷ ys) x [] (cells_with s.cells (y ∷ ys) x []),
        rw (
          in_range s x r.limit lt,
          ap is_invalid r.head,
          lt→ltb x s.size lt,
          r.tail,
          set_next-last
              (record s {
                tail = last_of (pos y) ys;
                cells = update s.cells x (record { previous = last_of (pos y) ys; next = invalid });
              })
              y ys (pos x) r.inside,
        ),
        Rep-with s (y ∷ ys) x [] _ (rw append-nil r) lt away
            (Links-cells_with (y ∷ ys) [] x apart away s.cells (rw append-nil r.links)),
        refl,
      )

  -- Adding a cell that is below the limit and not on the list at the head returns its number and
  -- puts it before all the cells of the list.
  pub add_head-Rep : (xs : List ℕ) → Rep s xs → NotIn x xs → Adds (add_head s (pos x)) s x (x ∷ xs)
  unfolding add_head load store set_previous
  add_head-Rep [] r out = rw (in_range s x r.limit lt, ap is_invalid r.head) (Adds-first r)
  add_head-Rep (y ∷ ys) r out = (
    with_cells s [] x (y ∷ ys) (cells_with s.cells [] x (y ∷ ys)),
    rw (
      in_range s x r.limit lt,
      ap is_invalid r.head,
      lt→ltb x s.size lt,
      r.head,
      lt→ltb y s.size r.inside.0,
    ),
    Rep-with s [] x (y ∷ ys) _ r lt out
        (Links-cells_with [] (y ∷ ys) x r.distinct out s.cells r.links),
    refl,
  )

  -- Adding a cell that is below the limit and not on the list behind a cell of the list returns its
  -- number and puts it right behind that cell; the other cells keep their order.
  pub add_at-Rep :
      (ys : List ℕ) (p : ℕ) (zs : List ℕ)
      → Rep s (ys ++ (p ∷ zs))
      → NotIn x (ys ++ (p ∷ zs))
      → Adds (add_at s (pos p) (pos x)) s x (ys ++ (p ∷ x ∷ zs))
  add_at-Rep ys p zs r out =
      (behind s p x zs, add_at-eq-behind s x lt ys p zs r, Rep-behind s x lt ys p zs r out, refl)
