-- ===== src/BlockQue/Slots.antt =====
-- `qc_blockque_put` and what is left of `qc_blockque_get` once a pointer is there, on the slots.
use mathlib.Core.List.{append_assoc, map-append}
use queue_c.Base.{
  ℕ, ◌≡◌, ◌<◌, ◌<◌, refl, ap₂, true, false, All-right, List, [], ◌∷◌, ◌++◌, some, arith, pos, NotIn,
  NotIn-before, length-append, ◌∙◌,
}
use queue_c.StaticList.Remove.{get_head-Rep, get-empty}
use queue_c.StaticList.Insert.{add_tail-Rep}
use queue_c.NBlockQue.{NBlockQue, write_slot, fulled}
use queue_c.NBlockQue.Refine.{IsQue, contents, map-write_slot, Distinct-rotate}
use queue_c.BlockQue.{BlockQue, put, take}

-- The slots and lists of a block queue are those of an index queue.
abbrev pub slots : BlockQue → NBlockQue
slots q = record {
  lst_free = q.lst_free;
  lst_used = q.lst_used;
  buff = q.ptr_array;
  limit = q.limit;
}

-- `put` on a queue with a free slot stores the pointer last, returns 0 and signals.
pub put-slots :
    (room : ℕ) (q : BlockQue) (i ptr : ℕ) (free used : List ℕ)
    → IsQue room (slots q) (i ∷ free) used
    → (q' : BlockQue) × (put q ptr ≡ some (pos 0, true, q'))
      × IsQue room (slots q') free (used ++ (i ∷ []))
      × (contents (slots q') (used ++ (i ∷ [])) ≡ contents (slots q) used ++ (ptr ∷ []))
unfolding put
put-slots room q i ptr free used o =
    let (f, taken, free_rep, _, fsize) = get_head-Rep q.lst_free i free o.free_rep in
    let out : NotIn i used = All-right _ free used o.apart.0 in
    let lt : i < q.lst_used.size = omega (arith, o.free_rep.inside.0, o.free_size, o.used_size) in
    let (u, added, used_rep, usize) = add_tail-Rep q.lst_used i lt used o.used_rep out in
    (
      record q { lst_free = f; lst_used = u; ptr_array = write_slot q.ptr_array (pos i) ptr },
      rw (taken, added) refl,
      record {
        free_rep = free_rep;
        used_rep = used_rep;
        free_size = fsize ∙ o.free_size;
        used_size = usize ∙ o.used_size;
        apart = Distinct-rotate free used i o.apart;
        total = omega (arith, o.total, length-append used (i ∷ []));
      },
      map-append _ used (i ∷ [])
          ∙ ap₂ ◌++◌ (map-write_slot q.ptr_array i ptr used out) (ground arith),
    )

pub put-no_slot :
    (room : ℕ) (q : BlockQue) (ptr : ℕ) (used : List ℕ)
    → IsQue room (slots q) [] used
    → put q ptr ≡ some (fulled, false, q)
unfolding put
put-no_slot room q ptr used o = rw (get-empty q.lst_free o.free_rep).0

-- Taking from a queue with a used slot gives the oldest pointer and frees its slot.
pub take-slots :
    (room : ℕ) (q : BlockQue) (i : ℕ) (free used : List ℕ)
    → IsQue room (slots q) free (i ∷ used)
    → (q' : BlockQue) × (take q ≡ some (some (q.ptr_array i), q'))
      × IsQue room (slots q') (free ++ (i ∷ [])) used
      × (contents (slots q') used ≡ contents (slots q) used)
unfolding take
take-slots room q i free used o =
    let (u, taken, used_rep, _, usize) = get_head-Rep q.lst_used i used o.used_rep in
    let out : NotIn i free = NotIn-before free used i o.apart in
    let lt : i < q.lst_free.size = omega (arith, o.used_rep.inside.0, o.free_size, o.used_size) in
    let (f, added, free_rep, fsize) = add_tail-Rep q.lst_free i lt free o.free_rep out in
    (
      record q { lst_free = f; lst_used = u },
      rw (taken, added) refl,
      record {
        free_rep = free_rep;
        used_rep = used_rep;
        free_size = fsize ∙ o.free_size;
        used_size = usize ∙ o.used_size;
        apart = rw append_assoc o.apart;
        total = omega (arith, o.total, length-append free (i ∷ []));
      },
      refl,
    )
