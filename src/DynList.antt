-- ===== src/DynList.antt =====
-- src/qc_rt/qc_list.c, the dynamic list (`QcList`): entries on the heap, linked both ways. An
-- entry that is read or written while it is not allocated is a fault, `none`.
pub mod Rep
pub mod Ends
pub mod Remove
pub mod Tail
mod Tests
use queue_c.Base.{
  ℕ, ◌+◌, ◌-◌, Bool, true, false, Option, none, some, if◌then◌else◌, ◌==◌, ◌>>=◌, ◌>>◌, assert,
  List, [], ◌∷◌,
}

-- The allocated entries, by address, and their members. NULL is `none`.
pub record Heap : Type 0 where
  pub live : ℕ → Bool
  pub next : ℕ → Option ℕ
  pub prev : ℕ → Option ℕ
  pub data_of : ℕ → ℕ

-- `count` is an unsigned int, which counts entries in memory and so does not wrap.
pub record DynList : Type 0 where
  pub heap : Heap
  pub head : Option ℕ
  pub tail : Option ℕ
  pub cur : Option ℕ
  pub count : ℕ

abbrev pub set {ℓ} : {A : Type ℓ} → (ℕ → A) → ℕ → A → ℕ → A
set f a v k = if k == a then v else f k

abbrev pub read_next : Heap → ℕ → Option (Option ℕ)
read_next h a = assert (h.live a) >> some (h.next a)

abbrev pub read_prev : Heap → ℕ → Option (Option ℕ)
read_prev h a = assert (h.live a) >> some (h.prev a)

abbrev pub read_data : Heap → ℕ → Option ℕ
read_data h a = assert (h.live a) >> some (h.data_of a)

abbrev pub write_next : Heap → ℕ → Option ℕ → Option Heap
write_next h a v = assert (h.live a) >> some (record h { next = set h.next a v })

abbrev pub write_prev : Heap → ℕ → Option ℕ → Option Heap
write_prev h a v = assert (h.live a) >> some (record h { prev = set h.prev a v })

abbrev pub free : Heap → ℕ → Option Heap
free h a = assert (h.live a) >> some (record h { live = set h.live a false })

-- A new entry at the address `a` that the allocator gives, its members written.
abbrev pub allocate : Heap → ℕ → (next prev : Option ℕ) → ℕ → Heap
allocate h a next prev value = record {
  live = set h.live a true;
  next = set h.next a next;
  prev = set h.prev a prev;
  data_of = set h.data_of a value;
}

abbrev pub or_else : Option ℕ → Option ℕ → Option ℕ
or_else none d = d
or_else (some a) d = some a

-- The write through a pointer, if it is not NULL.
abbrev pub link_prev : Heap → Option ℕ → Option ℕ → Option Heap
link_prev h none v = some h
link_prev h (some a) v = write_prev h a v

abbrev pub link_next : Heap → Option ℕ → Option ℕ → Option Heap
link_next h none v = some h
link_next h (some a) v = write_next h a v

unfoldable pub create : DynList
create = record {
  heap = record { live = λ _. false; next = λ _. none; prev = λ _. none; data_of = λ _. 0 };
  head = none;
  tail = none;
  cur = none;
  count = 0;
}

unfoldable pub inserthead : DynList → (value entry : ℕ) → Option DynList
inserthead l value entry = do
  h ← link_prev (allocate l.heap entry l.head none value) l.head (some entry)
  some (record l {
    heap = h;
    tail = or_else l.tail (some entry);
    head = some entry;
    count = l.count + 1;
  })

-- `qc_list_inserttail`, and `qc_list_inserttail2`, which also gives the entry.
unfoldable pub inserttail : DynList → (value entry : ℕ) → Option DynList
inserttail l value entry = do
  h ← link_next (allocate l.heap entry none l.tail value) l.tail (some entry)
  some (record l {
    heap = h;
    head = elim l.tail [ none ↦ some entry | some t ↦ l.head ];
    tail = some entry;
    count = l.count + 1;
  })

abbrev pub same_pointer : Option ℕ → Option ℕ → Bool
same_pointer none none = true
same_pointer (some a) (some b) = a == b
same_pointer _ _ = false

-- The data, or NULL for an empty list.
unfoldable pub pophead : DynList → Option (Option ℕ × DynList)
pophead l = elim l.head [
  | none ↦ some (none, l)
  | some pop_entry ↦ (do
    after ← read_next l.heap pop_entry
    h ← link_prev l.heap after none
    value ← read_data h pop_entry
    h' ← free h pop_entry
    some (
      some value,
      record l {
        heap = h';
        cur = if same_pointer l.cur l.head then after else l.cur;
        head = after;
        count = l.count - 1;
        tail = if l.count - 1 == 0 then none else l.tail;
      },
    ))
]

unfoldable pub poptail : DynList → Option (Option ℕ × DynList)
poptail l = elim l.head [
  | none ↦ some (none, l)
  | some first ↦ (do
    pop_entry ← l.tail
    before ← read_prev l.heap pop_entry
    h ←
        if same_pointer l.tail l.head
        then some l.heap
        else (do p ← before; write_next l.heap p none)
    value ← read_data h pop_entry
    h' ← free h pop_entry
    some (
      some value,
      record l {
        heap = h';
        cur = if same_pointer l.cur l.tail then none else l.cur;
        head = if same_pointer l.tail l.head then none else l.head;
        tail = before;
        count = l.count - 1;
      },
    ))
]

unfoldable pub enumbegin : DynList → DynList
enumbegin l = record l { cur = l.head }

-- The entry, or NULL at the end.
unfoldable pub enumentry : DynList → Option (Option ℕ × DynList)
enumentry l = elim l.cur [
  | none ↦ some (none, l)
  | some cur ↦ (do after ← read_next l.heap cur; some (some cur, record l { cur = after }))
]

unfoldable pub removeentry : DynList → ℕ → Option DynList
removeentry l entry = do
  before ← read_prev l.heap entry
  after ← read_next l.heap entry
  h ← elim before [ none ↦ link_prev l.heap after none | some p ↦ write_next l.heap p after ]
  h' ← elim after [ none ↦ link_next h before none | some n ↦ write_prev h n before ]
  h'' ← free h' entry
  some (record l {
    heap = h'';
    head = elim before [ none ↦ after | some p ↦ l.head ];
    tail = elim after [ none ↦ before | some n ↦ l.tail ];
    cur = if same_pointer l.cur (some entry) then after else l.cur;
    count = l.count - 1;
  })
