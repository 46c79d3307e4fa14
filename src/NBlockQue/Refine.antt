-- ===== src/NBlockQue/Refine.antt =====
-- The index queue against the bounded queue of `Fifo`.
use mathlib.Core.List.{append-nil, append_assoc, map-append}
use queue_c.Base.{
  ℕ, suc, ◌+◌, ◌≡◌, ◌<◌, refl, ap, ap₂, eqb_ℤ, ltb_ℤ, Bool, subst, ◌∙◌, true, false, All-right,
  List, [], ◌∷◌, ◌++◌, none, some, arith, ℤ, pos, if◌then◌else◌, ◌==◌, NotIn, Distinct,
  Distinct-insert, NotIn-before, length, length-append, length-map, count_from, map,
}
use queue_c.StaticList
use queue_c.StaticList.{StaticList, invalid}
use queue_c.StaticList.Rep.{Rep}
use queue_c.StaticList.Remove.{get_head-Rep, get-empty}
use queue_c.StaticList.Insert.{add_tail-Rep}
use queue_c.StaticList.Init.{init-Rep, clear-Rep, length-count_from}
use queue_c.Fifo
use queue_c.Fifo.{Op, Reply, stored, full, got, empty}
use queue_c.NBlockQue.{NBlockQue, Memory, fulled, create, put, get, write_slot, step, run}

-- The slots `free` and `used` are all the slots, each once, on their two lists.
pub record IsQue (room : ℕ) (q : NBlockQue) (free used : List ℕ) : Type 0 where
  pub free_rep : Rep q.lst_free free
  pub used_rep : Rep q.lst_used used
  pub free_size : q.lst_free.size ≡ room
  pub used_size : q.lst_used.size ≡ room
  pub apart : Distinct (free ++ used)
  pub total : length free + length used ≡ room

-- The pointers that are queued, oldest first.
abbrev pub contents : NBlockQue → List ℕ → List ℕ
contents q used = map q.buff used

pub map-write_slot :
    (b : ℕ → ℕ) (i ptr : ℕ) (used : List ℕ)
    → NotIn i used
    → map (write_slot b (pos i) ptr) used ≡ map b used
map-write_slot b i ptr [] out = refl
map-write_slot b i ptr (x ∷ used) out = ground (arith, map-write_slot b i ptr used out.1)

pub Distinct-rotate :
    (xs ys : List ℕ) (x : ℕ) → Distinct ((x ∷ xs) ++ ys) → Distinct (xs ++ (ys ++ (x ∷ [])))
Distinct-rotate xs ys x d =
    subst Distinct (append_assoc xs ys (x ∷ []))
      (Distinct-insert (xs ++ ys) [] x (rw append-nil d.1) (rw append-nil d.0))

-- `put` on a queue with a free slot stores the pointer last, and returns the slot's number.
pub put-IsQue :
    (room : ℕ) (q : NBlockQue) (i ptr : ℕ) (free used : List ℕ)
    → IsQue room q (i ∷ free) used
    → (q' : NBlockQue) × (put q ptr ≡ some (pos i, q'))
      × IsQue room q' free (used ++ (i ∷ []))
      × (contents q' (used ++ (i ∷ [])) ≡ contents q used ++ (ptr ∷ []))
unfolding put
put-IsQue room q i ptr free used o =
    let (f, taken, free_rep, _, fsize) = get_head-Rep q.lst_free i free o.free_rep in
    let out : NotIn i used = All-right _ free used o.apart.0 in
    let lt : i < q.lst_used.size = omega (arith, o.free_rep.inside.0, o.free_size, o.used_size) in
    let (u, added, used_rep, usize) = add_tail-Rep q.lst_used i lt used o.used_rep out in
    (
      record q { lst_free = f; lst_used = u; buff = write_slot q.buff (pos i) ptr },
      rw (taken, added) refl,
      record {
        free_rep = free_rep;
        used_rep = used_rep;
        free_size = fsize ∙ o.free_size;
        used_size = usize ∙ o.used_size;
        apart = Distinct-rotate free used i o.apart;
        total = omega (arith, o.total, length-append used (i ∷ []));
      },
      map-append _ used (i ∷ []) ∙ ap₂ ◌++◌ (map-write_slot q.buff i ptr used out) (ground arith),
    )

-- `put` on a queue with no free slot returns QC_FULLED and leaves the queue.
pub put-full :
    (room : ℕ) (q : NBlockQue) (ptr : ℕ) (used : List ℕ)
    → IsQue room q [] used
    → put q ptr ≡ some (fulled, q)
unfolding put
put-full room q ptr used o = rw (get-empty q.lst_free o.free_rep).0

pub not_zero : (n : ℕ) → eqb_ℤ (pos (suc n)) (pos 0) ≡ false
not_zero n = ground arith

-- `get` on a queue with a used slot gives the oldest pointer and frees its slot.
pub get-IsQue :
    (room : ℕ) (q : NBlockQue) (i : ℕ) (free used : List ℕ)
    → IsQue room q free (i ∷ used)
    → (q' : NBlockQue) × (get q ≡ some (pos i, some (q.buff i), q'))
      × IsQue room q' (free ++ (i ∷ [])) used
      × (contents q' used ≡ contents q used)
unfolding get StaticList.count
get-IsQue room q i free used o =
    let (u, taken, used_rep, _, usize) = get_head-Rep q.lst_used i used o.used_rep in
    let out : NotIn i free = NotIn-before free used i o.apart in
    let lt : i < q.lst_free.size = omega (arith, o.used_rep.inside.0, o.free_size, o.used_size) in
    let (f, added, free_rep, fsize) = add_tail-Rep q.lst_free i lt free o.free_rep out in
    (
      record q { lst_free = f; lst_used = u },
      rw (ap (λ (n : ℤ). eqb_ℤ n (pos 0)) o.used_rep.num ∙ not_zero (length used), taken, added)
          refl,
      record {
        free_rep = free_rep;
        used_rep = used_rep;
        free_size = fsize ∙ o.free_size;
        used_size = usize ∙ o.used_size;
        apart = rw append_assoc o.apart;
        total = omega (arith, o.total, length-append free (i ∷ []));
      },
      refl,
    )

-- `get` on an empty queue returns QC_INVALID_INT, writes no pointer, and leaves the queue.
pub get-empty_que :
    (room : ℕ) (q : NBlockQue) (free : List ℕ)
    → IsQue room q free []
    → get q ≡ some (invalid, none, q)
unfolding get StaticList.count
get-empty_que room q free o = rw (ap (λ (n : ℤ). eqb_ℤ n (pos 0)) o.used_rep.num)

-- Every allocation succeeds.
abbrev pub plenty : Memory
plenty = record { queue = true; used = true; free = true; slots = true; mutex = true }

pub positive : (n : ℕ) → ltb_ℤ (pos 0) (pos (suc n)) ≡ true
positive n = ground arith

no_failure : (b : Bool) → (if b then false else false) ≡ false
no_failure true = refl
no_failure false = refl

-- With a positive limit and memory for every part, `create` gives an empty queue with all its slots
-- free in order, whether it has a lock or not.
pub create-IsQue :
    (n : ℕ) (with_rwlock : Bool)
    → (q : NBlockQue) × (create (pos (suc n)) with_rwlock plenty ≡ some (some q))
      × IsQue (suc n) q (count_from 0 (suc n)) []
unfolding create
create-IsQue n with_rwlock =
    let (l, made, rep, size) = init-Rep StaticList.zeroed n in
    let (u, cleared, none_used, same) = clear-Rep (count_from 0 (suc n)) l rep in
    (
      record { lst_free = l; lst_used = u; buff = λ _. 0; limit = pos (suc n) },
      rw (made, cleared, positive n, no_failure with_rwlock),
      record {
        free_rep = rep;
        used_rep = none_used;
        free_size = size;
        used_size = same ∙ size;
        apart = rw append-nil rep.distinct;
        total = omega (arith, length-count_from 1 n);
      },
    )

-- One call answers as the bounded queue does, and leaves a queue of the same pointers.
abbrev Steps : ℕ → NBlockQue → List ℕ → Op → Type 0
Steps room q used o =
    (q' : NBlockQue) × (free' used' : List ℕ) × (step q o
      ≡ some ((Fifo.step room (contents q used) o).0, q'))
    × IsQue room q' free' used'
    × (contents q' used' ≡ (Fifo.step room (contents q used) o).1)

test_full :
    (room : ℕ) (q : NBlockQue) (free used : List ℕ)
    → IsQue room q free used
    → (length (contents q used) == room) ≡ (length free == 0)
test_full room q free used o = ground (arith, length-map q.buff used)

step-Steps :
    (room : ℕ) (q : NBlockQue) (o : Op) (free used : List ℕ)
    → IsQue room q free used
    → Steps room q used o
unfolding step
step-Steps room q (Op.put x) [] used o =
    let is_full : (length (contents q used) == room) ≡ true = test_full room q [] used o in
    (q, [], used, rw (put-full room q x used o, is_full), o, rw is_full)
step-Steps room q (Op.put x) (i ∷ free) used o =
    let (q', done, is, holds) = put-IsQue room q i x free used o in
    let has_room : (length (contents q used) == room) ≡ false =
      test_full room q (i ∷ free) used o ∙ not_zero (length free) in
    (q', free, used ++ (i ∷ []), rw (done, has_room), is, holds ∙ rw has_room)
step-Steps room q Op.get free [] o = (q, free, [], rw (get-empty_que room q free o), o, refl)
step-Steps room q Op.get free (i ∷ used) o =
    let (q', done, is, holds) = get-IsQue room q i free used o in
    (q', free ++ (i ∷ []), used, rw done, is, holds)

-- On an index queue whose free and used slots are all its slots, every sequence of `put` and `get`
-- calls runs to its end and answers as a bounded first-in first-out queue of the queued pointers
-- does.
pub run-Fifo :
    (room : ℕ) (q : NBlockQue) (free used : List ℕ) (ops : List Op)
    → IsQue room q free used
    → run q ops ≡ some (Fifo.run room (contents q used) ops)
unfolding run Fifo.run
run-Fifo room q free used [] o = refl
run-Fifo room q free used (op ∷ ops) o =
    let (q', free', used', done, is, holds) = step-Steps room q op free used o in
    rw (done, run-Fifo room q' free' used' ops is, holds)
