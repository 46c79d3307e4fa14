-- ===== src/StaticList/Between.antt =====
-- A cell put between two parts of a static list, whatever operation puts it there.
use queue_c.Base.{
  ℕ, ◌≡◌, ◌<◌, refl, ap, ◌∙◌, All-append, All-left, All-right, List, [], ◌∷◌, ◌++◌, arith, ℤ, pos,
  ◌+ℤ◌, NotIn, Distinct, Distinct-left, Distinct-right, Distinct-insert, length-append,
}
use queue_c.StaticList.{Cell, StaticList, update, invalid}
use queue_c.StaticList.Links.{
  Links, first_of, last_of, Links-left, Links-right, Links-append, Links-update, last_of-append,
}
use queue_c.StaticList.Rep.{
  Rep, set_next_of, set_previous_of, if_empty, Links-set_next_of, Links-set_previous_of,
  Links-set_next_of-other, Links-set_previous_of-other, set_next_of-other, set_previous_of-other,
}

-- The links of a cell between `ys` and `zs`.
abbrev pub between : List ℕ → List ℕ → Cell
between ys zs = record { previous = last_of invalid ys; next = first_of zs invalid }

-- The cells with `x` put between `ys` and `zs`, its own links written first.
abbrev pub cells_with : (ℕ → Cell) → List ℕ → ℕ → List ℕ → ℕ → Cell
cells_with c ys x zs =
    set_previous_of (set_next_of (update c x (between ys zs)) ys (pos x)) zs (pos x)

-- The neighbours are linked to `x`, and `x` to them.
Links-insert :
    (c : ℕ → Cell) (ys : List ℕ) (x : ℕ) (zs : List ℕ)
    → Links c invalid ys (pos x)
    → c x ≡ between ys zs
    → Links c (pos x) zs invalid
    → Links c invalid (ys ++ (x ∷ zs)) invalid
Links-insert c ys x zs l e r =
    Links-append c invalid ys (x ∷ zs) invalid l
      (ap (λ (k : Cell). k.previous) e, ap (λ (k : Cell). k.next) e, r)

module _ (ys zs : List ℕ) (x : ℕ) (d : Distinct (ys ++ zs)) (out : NotIn x (ys ++ zs)) where
  -- Both neighbours are relinked, in cells `c` that hold the two lists.
  relinked-Links :
      (c : ℕ → Cell) (m p : ℤ)
      → Links c invalid ys m
      → Links c p zs invalid
      → Links (set_previous_of (set_next_of c ys (pos x)) zs (pos x)) invalid ys (pos x)
        × Links (set_previous_of (set_next_of c ys (pos x)) zs (pos x)) (pos x) zs invalid
  relinked-Links c m p l r = (
    Links-set_previous_of-other _ invalid ys zs _ _ d
        (Links-set_next_of c invalid ys m _ (Distinct-left ys zs d) l),
    Links-set_previous_of _ p _ zs invalid (Distinct-right ys zs d)
        (Links-set_next_of-other c p ys zs _ invalid d r),
  )

  pub Links-cells_with :
      (c : ℕ → Cell)
      → Links c invalid (ys ++ zs) invalid
      → Links (cells_with c ys x zs) invalid (ys ++ (x ∷ zs)) invalid
  Links-cells_with c l =
      let old = update c x (between ys zs) in
      let both =
        relinked-Links old (first_of zs invalid) (last_of invalid ys)
          (Links-update c invalid ys _ x _ (All-left _ ys zs out)
            (Links-left c invalid ys zs invalid l))
          (Links-update c _ zs invalid x _ (All-right _ ys zs out)
            (Links-right c invalid ys zs invalid l)) in
      Links-insert _ ys x zs both.0
        (set_previous_of-other _ zs _ x (All-right _ ys zs out)
          ∙ set_next_of-other _ ys _ x (All-left _ ys zs out)
          ∙ ground arith)
        both.1

  -- The same with the links of `x` written last.
  pub Links-cells_at :
      (c : ℕ → Cell)
      → Links c invalid (ys ++ zs) invalid
      → Links
          (update (set_previous_of (set_next_of c ys (pos x)) zs (pos x)) x (between ys zs))
          invalid
          (ys ++ (x ∷ zs))
          invalid
  Links-cells_at c l =
      let both =
        relinked-Links c (first_of zs invalid) (last_of invalid ys)
          (Links-left c invalid ys zs invalid l) (Links-right c invalid ys zs invalid l) in
      Links-insert _ ys x zs (Links-update _ invalid ys _ x _ (All-left _ ys zs out) both.0)
        (ground arith) (Links-update _ _ zs invalid x _ (All-right _ ys zs out) both.1)

abbrev pub with_cells : StaticList → List ℕ → ℕ → List ℕ → (ℕ → Cell) → StaticList
with_cells s ys x zs c = record s {
  head = if_empty ys (pos x) s.head;
  tail = if_empty zs (pos x) s.tail;
  num = s.num +ℤ pos 1;
  cells = c;
}

head-with :
    (ys : List ℕ) (x : ℕ) (zs : List ℕ) (h : ℤ)
    → h ≡ first_of (ys ++ zs) invalid
    → if_empty ys (pos x) h ≡ first_of (ys ++ (x ∷ zs)) invalid
head-with [] x zs h e = refl
head-with (y ∷ ys) x zs h e = e

tail-with :
    (ys : List ℕ) (x : ℕ) (zs : List ℕ) (t : ℤ)
    → t ≡ last_of invalid (ys ++ zs)
    → if_empty zs (pos x) t ≡ last_of invalid (ys ++ (x ∷ zs))
tail-with ys x [] t e = rw last_of-append
tail-with ys x (z ∷ zs) t e = e ∙ rw (last_of-append, last_of-append)

pub Rep-with :
    (s : StaticList) (ys : List ℕ) (x : ℕ) (zs : List ℕ) (c : ℕ → Cell)
    → Rep s (ys ++ zs)
    → x < s.size
    → NotIn x (ys ++ zs)
    → Links c invalid (ys ++ (x ∷ zs)) invalid
    → Rep (with_cells s ys x zs c) (ys ++ (x ∷ zs))
Rep-with s ys x zs c r lt out l = record {
  links = l;
  head = head-with ys x zs s.head r.head;
  tail = tail-with ys x zs s.tail r.tail;
  num =
      ap (λ (n : ℤ). n +ℤ pos 1) r.num
      ∙ ground (arith, length-append ys (x ∷ zs), length-append ys zs);
  limit = r.limit;
  inside = All-append _ ys (x ∷ zs) (All-left _ ys zs r.inside) (lt, All-right _ ys zs r.inside);
  distinct = Distinct-insert ys zs x r.distinct out;
}
