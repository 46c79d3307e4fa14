-- ===== src/StaticList.antt =====
-- src/qc_rt/qc_list.c, "Static List": a doubly linked list whose links are cell numbers, so that it
-- can stand in shared memory. A list holds each of its cells at most once; a cell that is on no
-- list has both links invalid.
pub mod Links
pub mod Rep
pub mod Remove
pub mod Between
pub mod Insert
pub mod Init
mod Tests
use queue_c.Base.{
  ℕ, zero, suc, ◌-◌, ◌==◌, Bool, true, false, not, ◌||◌, Option, none, some, if◌then◌else◌, ltb,
  leb, ◌>>=◌, ◌>>◌, ℤ, pos, negsuc, pos_part, ◌+ℤ◌, ◌-ℤ◌, ltb_ℤ, eqb_ℤ, is_negative, failed,
}

-- QC_INVALID_INT, -99.
abbrev pub invalid : ℤ
invalid = negsuc 98

abbrev pub is_invalid : ℤ → Bool
is_invalid i = eqb_ℤ i invalid

pub record Cell : Type 0 where
  pub previous : ℤ
  pub next : ℤ

-- A cell that is on no list.
abbrev pub detached : Cell
detached = record { previous = invalid; next = invalid }

-- The buffer of cells is part of the list's value: `cells i` is the cell at `buff_offset`, number
-- `i`. It has `size` cells; an access to another one is a fault.
pub record StaticList : Type 0 where
  pub head : ℤ
  pub tail : ℤ
  pub limit : ℤ
  pub num : ℤ
  pub cells : ℕ → Cell
  pub size : ℕ

abbrev pub update : (ℕ → Cell) → ℕ → Cell → ℕ → Cell
update c i v j = if j == i then v else c j

-- `get_staticlist_cell`, to read the cell and to write it.
unfoldable pub load : StaticList → ℤ → Option Cell
load s (pos i) = if ltb i s.size then some (s.cells i) else none
load s (negsuc i) = none

unfoldable pub store : StaticList → ℤ → Cell → Option StaticList
store s (pos i) v = if ltb i s.size then some (record s { cells = update s.cells i v }) else none
store s (negsuc i) v = none

unfoldable pub set_previous : StaticList → ℤ → ℤ → Option StaticList
set_previous s i p = do c ← load s i; store s i (record c { previous = p })

unfoldable pub set_next : StaticList → ℤ → ℤ → Option StaticList
set_next s i n = do c ← load s i; store s i (record c { next = n })

-- `cell < 0 || cell >= staticList->limit`
abbrev pub out_of_range : StaticList → ℤ → Bool
out_of_range s cell = is_negative cell || not (ltb_ℤ cell s.limit)

-- The loop of `qc_staticlist_init`, from cell `i` on, over the `rounds` cells that are left.
abbrev pub init_cells : ℕ → ℕ → (ℕ → Cell) → ℕ → Cell
init_cells zero i c = c
init_cells (suc rounds) i c =
    init_cells rounds (suc i) (
      update c i
        (record { previous = if i == 0 then invalid else pos (i - 1); next = pos (suc i) }))

abbrev pub zeroed : StaticList
zeroed = record {
  head = pos 0;
  tail = pos 0;
  limit = pos 0;
  num = pos 0;
  cells = λ _. record { previous = pos 0; next = pos 0 };
  size = 0;
}

-- `has_memory` is true if `buff_ptr` is a buffer of `limit` cells, or is NULL and `malloc` gives one.
unfoldable pub init : StaticList → ℤ → (has_memory : Bool) → ℤ × StaticList
init s (negsuc n) has_memory = (failed, s)
init s (pos zero) has_memory = (failed, s)
init s (pos (suc n)) has_memory =
    if has_memory
    then (
      pos 0,
      record {
        head = pos 0;
        tail = pos n;
        limit = pos (suc n);
        num = pos (suc n);
        cells =
            let c = init_cells (suc n) 0 zeroed.cells in
            update c n (record { previous = (c n).previous; next = invalid });
        size = suc n;
      },
    )
    else (failed, zeroed)

unfoldable pub get_head : StaticList → Option (ℤ × StaticList)
get_head s = if is_invalid s.head then some (s.head, s) else do
  first ← load s s.head
  let t = record s { head = first.next }
  u ←
      (if is_invalid t.head
        then some (record t { tail = invalid })
        else set_previous t t.head invalid)
  v ← store (record u { num = u.num -ℤ pos 1 }) s.head detached
  some (s.head, v)

unfoldable pub get_tail : StaticList → Option (ℤ × StaticList)
get_tail s = if is_invalid s.tail then some (s.tail, s) else do
  last ← load s s.tail
  let t = record s { tail = last.previous }
  u ← (if is_invalid t.tail then some (record t { head = invalid }) else set_next t t.tail invalid)
  v ← store (record u { num = u.num -ℤ pos 1 }) s.tail detached
  some (s.tail, v)

unfoldable pub get_at : StaticList → ℤ → Option (ℤ × StaticList)
get_at s cell =
    if out_of_range s cell
    then some (failed, s)
    else if is_invalid s.head
    then some (invalid, s)
    else do
      c ← load s cell
      t ←
          (if is_invalid c.previous
            then some (record s { head = c.next })
            else set_next s c.previous c.next)
      u ←
          (if is_invalid c.next
            then some (record t { tail = c.previous })
            else set_previous t c.next c.previous)
      v ← store (record u { num = u.num -ℤ pos 1 }) cell detached
      some (cell, v)

-- Both `add_head` and `add_tail` start an empty list in this way.
unfoldable pub add_first : StaticList → ℤ → Option (ℤ × StaticList)
add_first s cell = do
  t ← store s cell detached
  some (cell, record t { head = cell; tail = cell; num = pos 1 })

unfoldable pub add_head : StaticList → ℤ → Option (ℤ × StaticList)
add_head s cell =
    if out_of_range s cell
    then some (failed, s)
    else if is_invalid s.head
    then add_first s cell
    else do
      t ← store s cell (record { previous = invalid; next = s.head })
      u ← set_previous t s.head cell
      some (cell, record u { head = cell; num = u.num +ℤ pos 1 })

unfoldable pub add_tail : StaticList → ℤ → Option (ℤ × StaticList)
add_tail s cell =
    if out_of_range s cell
    then some (failed, s)
    else if is_invalid s.head
    then add_first s cell
    else do
      t ← store s cell (record { previous = s.tail; next = invalid })
      u ← set_next t s.tail cell
      some (cell, record u { tail = cell; num = u.num +ℤ pos 1 })

unfoldable pub add_at : StaticList → ℤ → ℤ → Option (ℤ × StaticList)
add_at s previous_cell cell =
    if out_of_range s previous_cell
    then some (failed, s)
    else if out_of_range s cell
    then some (failed, s)
    else if is_invalid s.head
    then some (invalid, s)
    else do
      p ← load s previous_cell
      t ← set_next s previous_cell cell
      u ← (if is_invalid p.next then some t else set_previous t p.next cell)
      v ← set_previous u cell previous_cell
      w ← set_next v cell p.next
      some (
        cell,
        record w { tail = if is_invalid p.next then cell else w.tail; num = w.num +ℤ pos 1 },
      )

-- The loop of `qc_staticlist_clear`; a negative `num` makes no round.
unfoldable pub clear_loop : ℕ → StaticList → Option StaticList
clear_loop zero s = some s
clear_loop (suc rounds) s = do (_, t) ← get_head s; clear_loop rounds t

unfoldable pub clear : StaticList → Option StaticList
unfolding clear_loop
clear s = clear_loop (pos_part s.num) s

unfoldable pub count : StaticList → ℤ
count s = s.num

unfoldable pub peek_head : StaticList → ℤ
peek_head s = s.head

unfoldable pub peek_tail : StaticList → ℤ
peek_tail s = s.tail

unfoldable pub peek_precell : StaticList → ℤ → Option ℤ
peek_precell s cell =
    if out_of_range s cell then some failed else do c ← load s cell; some c.previous

unfoldable pub peek_nextcell : StaticList → ℤ → Option ℤ
peek_nextcell s cell = if out_of_range s cell then some failed else do c ← load s cell; some c.next
