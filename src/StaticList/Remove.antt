-- ===== src/StaticList/Remove.antt =====
-- `qc_staticlist_get_at`, `qc_staticlist_get_head` and `qc_staticlist_get_tail`.
use queue_c.Base.{
  ℕ, ◌≡◌, ◌<◌, refl, ap, subst, ◌∙◌, false, All, All-append, All-left, All-right, List, [], ◌∷◌,
  ◌++◌, some, arith, ℤ, pos, ◌-ℤ◌, NotIn, NotIn-before, Distinct, Distinct-left, Distinct-right,
  Distinct-remove, length-append, lt→ltb,
}
use mathlib.Core.List.{append-nil}
use queue_c.StaticList.{
  Cell, StaticList, detached, update, invalid, is_invalid, load, store, get_at, get_head, get_tail,
  out_of_range,
}
use queue_c.StaticList.Links.{
  Links, first_of, last_of, Links-left, Links-right, Links-append, Links-update, last_of-append,
}
use queue_c.StaticList.Rep.{
  Rep, set_next_of, set_previous_of, if_empty, relink_next, relink_previous, Links-set_next_of,
  Links-set_previous_of, Links-set_next_of-other, Links-set_previous_of-other,
}

-- The cells with `x` taken out from between `ys` and `zs`.
abbrev cells_without : (ℕ → Cell) → List ℕ → ℕ → List ℕ → ℕ → Cell
cells_without c ys x zs =
    update (set_previous_of (set_next_of c ys (first_of zs invalid)) zs (last_of invalid ys)) x
      detached

abbrev pub without : StaticList → List ℕ → ℕ → List ℕ → StaticList
without s ys x zs = record s {
  head = if_empty ys (first_of zs invalid) s.head;
  tail = if_empty zs (last_of invalid ys) s.tail;
  num = s.num -ℤ pos 1;
  cells = cells_without s.cells ys x zs;
}

NotIn-both : (ys zs : List ℕ) (x : ℕ) → Distinct (ys ++ (x ∷ zs)) → NotIn x (ys ++ zs)
NotIn-both ys zs x d = All-append _ ys zs (NotIn-before ys zs x d) (Distinct-right ys (x ∷ zs) d).0

Links-without :
    (c : ℕ → Cell) (ys : List ℕ) (x : ℕ) (zs : List ℕ)
    → Distinct (ys ++ (x ∷ zs))
    → Links c invalid (ys ++ (x ∷ zs)) invalid
    → Links (cells_without c ys x zs) invalid (ys ++ zs) invalid
Links-without c ys x zs d l =
    Links-update _ invalid (ys ++ zs) invalid x detached (NotIn-both ys zs x d) (
      Links-append _ invalid ys zs invalid
        (Links-set_previous_of-other _ invalid ys zs _ _ apart (
          Links-set_next_of c invalid ys (pos x) _ (Distinct-left ys zs apart)
            (Links-left c invalid ys (x ∷ zs) invalid l)))
        (Links-set_previous_of _ (pos x) _ zs invalid (Distinct-right ys zs apart) (
          Links-set_next_of-other c (pos x) ys zs _ invalid apart
            (Links-right c invalid ys (x ∷ zs) invalid l).2)))
  where
    apart : Distinct (ys ++ zs)
    apart = Distinct-remove ys zs x d

head-without :
    (ys : List ℕ) (x : ℕ) (zs : List ℕ) (h : ℤ)
    → h ≡ first_of (ys ++ (x ∷ zs)) invalid
    → if_empty ys (first_of zs invalid) h ≡ first_of (ys ++ zs) invalid
head-without [] x zs h e = refl
head-without (y ∷ ys) x zs h e = e

tail-without :
    (ys : List ℕ) (x : ℕ) (zs : List ℕ) (t : ℤ)
    → t ≡ last_of invalid (ys ++ (x ∷ zs))
    → if_empty zs (last_of invalid ys) t ≡ last_of invalid (ys ++ zs)
tail-without ys x [] t e = rw last_of-append
tail-without ys x (z ∷ zs) t e = e ∙ rw (last_of-append, last_of-append)

Rep-without :
    (s : StaticList) (ys : List ℕ) (x : ℕ) (zs : List ℕ)
    → Rep s (ys ++ (x ∷ zs))
    → Rep (without s ys x zs) (ys ++ zs)
Rep-without s ys x zs r = record {
  links = Links-without s.cells ys x zs r.distinct r.links;
  head = head-without ys x zs s.head r.head;
  tail = tail-without ys x zs s.tail r.tail;
  num =
      ap (λ (n : ℤ). n -ℤ pos 1) r.num
      ∙ ground (arith, length-append ys (x ∷ zs), length-append ys zs);
  limit = r.limit;
  inside =
      All-append _ ys zs (All-left _ ys (x ∷ zs) r.inside) (All-right _ ys (x ∷ zs) r.inside).1;
  distinct = Distinct-remove ys zs x r.distinct;
}

-- A cell below the limit passes the range test.
pub in_range :
    (s : StaticList) (x : ℕ) → s.limit ≡ pos s.size → x < s.size → out_of_range s (pos x) ≡ false
in_range s x e h = ground arith

pub not_empty :
    (ys : List ℕ) (x : ℕ) (zs : List ℕ) → is_invalid (first_of (ys ++ (x ∷ zs)) invalid) ≡ false
not_empty [] x zs = refl
not_empty (y ∷ ys) x zs = refl

-- The links of a cell in the middle.
cell-middle :
    (s : StaticList) (ys : List ℕ) (x : ℕ) (zs : List ℕ)
    → Rep s (ys ++ (x ∷ zs))
    → s.cells x ≡ record { previous = last_of invalid ys; next = first_of zs invalid }
cell-middle s ys x zs r = ground (arith, Links-right s.cells invalid ys (x ∷ zs) invalid r.links)

-- Taking a cell of the list out by its number returns the number and leaves the other cells in
-- order; the cell is then detached.
pub get_at-eq-without :
    (s : StaticList) (ys : List ℕ) (x : ℕ) (zs : List ℕ)
    → Rep s (ys ++ (x ∷ zs))
    → get_at s (pos x) ≡ some (pos x, without s ys x zs)
unfolding get_at load store
get_at-eq-without s ys x zs r = rw (
  in_range s x r.limit here.0,
  ap is_invalid r.head ∙ not_empty ys x zs,
  lt→ltb x s.size here.0,
  cell-middle s ys x zs r,
  relink_next s ys (first_of zs invalid) (All-left _ ys (x ∷ zs) r.inside),
  relink_previous
      (record s {
        head = if_empty ys (first_of zs invalid) s.head;
        cells = set_next_of s.cells ys (first_of zs invalid);
      })
      zs (last_of invalid ys) here.1,
  lt→ltb x s.size here.0,
)
  where
    here : All (λ y. y < s.size) (x ∷ zs)
    here = All-right _ ys (x ∷ zs) r.inside

-- `qc_staticlist_get_head` is `get_at` at the first cell.
pub get_head-eq-without :
    (s : StaticList) (x : ℕ) (zs : List ℕ)
    → Rep s (x ∷ zs)
    → get_head s ≡ some (pos x, without s [] x zs)
unfolding get_head load store
get_head-eq-without s x zs r = rw (
  r.head,
  lt→ltb x s.size r.inside.0,
  cell-middle s [] x zs r,
  relink_previous (record s { head = first_of zs invalid }) zs invalid r.inside.1,
  lt→ltb x s.size r.inside.0,
)

pub get_tail-eq-without :
    (s : StaticList) (ys : List ℕ) (x : ℕ)
    → Rep s (ys ++ (x ∷ []))
    → get_tail s ≡ some (pos x, without s ys x [])
unfolding get_tail load store
get_tail-eq-without s ys x r = rw (
  r.tail,
  last_of-append invalid ys (x ∷ []),
  lt→ltb x s.size here,
  cell-middle s ys x [] r,
  relink_next (record s { tail = last_of invalid ys }) ys invalid (All-left _ ys (x ∷ []) r.inside),
  lt→ltb x s.size here,
)
  where
    here : x < s.size
    here = (All-right _ ys (x ∷ []) r.inside).0

-- The results, stated for every list that the operations meet.
module _ (s : StaticList) where
  -- Taking a cell out of the middle of a static list by its number returns the number, leaves the
  -- other cells on the list in their order, and detaches the cell; the number of cells in the array
  -- stays.
  pub get_at-Rep :
      (ys : List ℕ) (x : ℕ) (zs : List ℕ)
      → Rep s (ys ++ (x ∷ zs))
      → (t : StaticList) × (get_at s (pos x) ≡ some (pos x, t))
        × Rep t (ys ++ zs)
        × (t.cells x ≡ detached)
        × (t.size ≡ s.size)
  get_at-Rep ys x zs r = (
    without s ys x zs,
    get_at-eq-without s ys x zs r,
    Rep-without s ys x zs r,
    ground arith,
    refl,
  )

  -- Taking the head of a static list that has a cell returns the first cell, leaves the others in
  -- their order, and detaches the cell.
  pub get_head-Rep :
      (x : ℕ) (zs : List ℕ)
      → Rep s (x ∷ zs)
      → (t : StaticList) × (get_head s ≡ some (pos x, t))
        × Rep t zs
        × (t.cells x ≡ detached)
        × (t.size ≡ s.size)
  get_head-Rep x zs r =
      (without s [] x zs, get_head-eq-without s x zs r, Rep-without s [] x zs r, ground arith, refl)

  -- Taking the tail of a static list that has a cell returns the last cell, leaves the others in
  -- their order, and detaches the cell.
  pub get_tail-Rep :
      (ys : List ℕ) (x : ℕ)
      → Rep s (ys ++ (x ∷ []))
      → (t : StaticList) × (get_tail s ≡ some (pos x, t))
        × Rep t ys
        × (t.cells x ≡ detached)
        × (t.size ≡ s.size)
  get_tail-Rep ys x r = (
    without s ys x [],
    get_tail-eq-without s ys x r,
    subst (Rep (without s ys x [])) (append-nil ys) (Rep-without s ys x [] r),
    ground arith,
    refl,
  )

  -- Taking from an empty list gives QC_INVALID_INT and leaves the list as it is.
  pub get-empty : Rep s [] → (get_head s ≡ some (invalid, s)) × (get_tail s ≡ some (invalid, s))
  unfolding get_head get_tail
  get-empty r = (ground arith, ground arith)
