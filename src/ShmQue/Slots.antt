-- ===== src/ShmQue/Slots.antt =====
-- Each slot of a shared queue is free, used, or with one client; and each operation keeps it so.
use queue_c.Base.{
  ℕ, zero, suc, ◌+◌, ◌-◌, ◌≡◌, ◌≤◌, ◌<◌, refl, ap, ◌∙◌, none, some, List, [], ◌∷◌, ◌++◌, arith,
  if◌then◌else◌, ltb, ◌==◌, ℤ, pos, eqb_ℤ, length, length-append, NotIn, lt→ltb, count_from,
}
use queue_c.StaticList
use queue_c.StaticList.Rep.{Rep}
use queue_c.StaticList.Remove.{get_head-Rep}
use queue_c.StaticList.Insert.{add_tail-Rep}
use queue_c.NBlockQue.Refine.{not_zero}
use queue_c.ShmQue.{
  ShmQue, Layout, set_length, buff_offset, push_begin, push_end, pull_admit, pull_take, pull_end,
}

-- How often `k` stands on a list.
abbrev pub occurs : ℕ → List ℕ → ℕ
occurs k [] = 0
occurs k (x ∷ xs) = (if k == x then 1 else 0) + occurs k xs

pub occurs-append : (k : ℕ) (xs ys : List ℕ) → occurs k (xs ++ ys) ≡ occurs k xs + occurs k ys
occurs-append k [] ys = omega arith
occurs-append k (x ∷ xs) ys = omega (arith, occurs-append k xs ys)

NotIn-of_occurs : (k : ℕ) (xs : List ℕ) → occurs k xs ≡ 0 → NotIn k xs
NotIn-of_occurs k [] h = tt
NotIn-of_occurs k (x ∷ xs) h = (λ e. ground arith, NotIn-of_occurs k xs (omega arith))

pub occurs_self : (k : ℕ) (xs : List ℕ) → occurs k (k ∷ xs) ≡ 1 + occurs k xs
occurs_self k xs = ground arith

occurs-count_from :
    (n start k : ℕ)
    → occurs k (count_from start n)
      ≡ (if ltb k start then 0 else if ltb k (start + n) then 1 else 0)
occurs-count_from zero start k = ground arith
occurs-count_from (suc n) start k = ground (arith, occurs-count_from n (suc start) k)

pub occurs-all : (n k : ℕ) → occurs k (count_from 0 n) ≡ (if ltb k n then 1 else 0)
occurs-all n k = ground (arith, occurs-count_from n 0 k)

-- `pushing` and `pulling` are the slots that clients are writing and reading, and `admitted` counts
-- the pullers that have waited and not yet taken their slot.
pub record IsShm (q : ShmQue) (free used pushing pulling : List ℕ) (admitted : ℕ) : Type 0 where
  pub free_rep : Rep q.lst_free free
  pub used_rep : Rep q.lst_used used
  pub free_size : q.lst_free.size ≡ q.que_size
  pub used_size : q.lst_used.size ≡ q.que_size
  pub once :
      (k : ℕ)
      → occurs k free + occurs k used + occurs k pushing + occurs k pulling
        ≡ (if ltb k q.que_size then 1 else 0)
  pub waiting : q.sem_que + admitted ≡ length used

pub once-lt : (k size n : ℕ) → 0 < n → n ≡ (if ltb k size then 1 else 0) → k < size
once-lt k size n h e = ground arith

pub once-le : (k size n : ℕ) → n ≡ (if ltb k size then 1 else 0) → n ≤ 1
once-le k size n e = ground arith

-- The slots of `q'` lie where those of `q` do.
abbrev pub SameData : ShmQue → ShmQue → Type 0
SameData q q' = (q'.data_offset ≡ q.data_offset) × (q'.msg_size ≡ q.msg_size)

module _ (l : Layout) (q : ShmQue) where
  -- Beginning a push of a queue with a free slot gives the first of them to the client.
  pub push_begin-IsShm :
      (i : ℕ) (free used pushing pulling : List ℕ) (admitted : ℕ)
      → IsShm q (i ∷ free) used pushing pulling admitted
      → (q' : ShmQue) × (push_begin l q
          ≡ some (some (record { idx = i; buff = buff_offset l q i; bufflen = q.msg_size }), q'))
        × IsShm q' free used (i ∷ pushing) pulling admitted
        × SameData q q'
  unfolding push_begin StaticList.count
  push_begin-IsShm i free used pushing pulling admitted v =
      let (f, taken, free_rep, _, fsize) = get_head-Rep q.lst_free i free v.free_rep in
      (
        record q { lst_free = f; lengths = set_length q.lengths i q.msg_size },
        rw (ap (λ (n : ℤ). eqb_ℤ n (pos 0)) v.free_rep.num ∙ not_zero (length free), taken) refl,
        record {
          free_rep = free_rep;
          used_rep = v.used_rep;
          free_size = fsize ∙ v.free_size;
          used_size = v.used_size;
          once = λ k. omega (arith, v.once k);
          waiting = v.waiting;
        },
        (refl, refl),
      )

  pub push_begin-no_slot :
      (used pushing pulling : List ℕ) (admitted : ℕ)
      → IsShm q [] used pushing pulling admitted
      → push_begin l q ≡ some (none, q)
  unfolding push_begin StaticList.count
  push_begin-no_slot used pushing pulling admitted v =
      rw (ap (λ (n : ℤ). eqb_ℤ n (pos 0)) v.free_rep.num)

  -- Ending a push of a slot that a client is writing succeeds, puts the slot last among the used
  -- ones, stores the length of its message, and keeps every slot in one place and the semaphore the
  -- number of messages to pull.
  pub push_end-IsShm :
      (i bufflen : ℕ) (free used us vs pulling : List ℕ) (admitted : ℕ)
      → IsShm q free used (us ++ (i ∷ vs)) pulling admitted
      → (q' : ShmQue) × (push_end q i bufflen ≡ some q')
        × IsShm q' free (used ++ (i ∷ [])) (us ++ vs) pulling admitted
        × (q'.lengths i ≡ bufflen)
        × SameData q q'
  unfolding push_end
  push_end-IsShm i bufflen free used us vs pulling admitted v =
      let held : occurs i (us ++ (i ∷ vs)) ≡ occurs i us + (1 + occurs i vs) =
        occurs-append i us (i ∷ vs) ∙ ap (λ n. occurs i us + n) (occurs_self i vs) in
      let below : i < q.que_size = once-lt i q.que_size _ (omega arith) (v.once i) in
      let alone : occurs i used ≡ 0 = omega (arith, once-le i q.que_size _ (v.once i)) in
      let (u, added, used_rep, usize) =
        add_tail-Rep q.lst_used i (omega (arith, v.used_size)) used v.used_rep
          (NotIn-of_occurs i used alone) in
      (
        record q {
          lst_used = u;
          lengths = set_length q.lengths i bufflen;
          sem_que = q.sem_que + 1;
        },
        rw added refl,
        record {
          free_rep = v.free_rep;
          used_rep = used_rep;
          free_size = v.free_size;
          used_size = usize ∙ v.used_size;
          once = λ k. omega (
            arith,
            v.once k,
            occurs-append k used (i ∷ []),
            occurs-append k us (i ∷ vs),
            occurs-append k us vs,
          );
          waiting = omega (arith, v.waiting, length-append used (i ∷ []));
        },
        ground arith,
        (refl, refl),
      )

  -- Passing the semaphore counts it down.
  pub pull_admit-IsShm :
      (free used pushing pulling : List ℕ) (admitted : ℕ)
      → IsShm q free used pushing pulling admitted
      → 0 < q.sem_que
      → (q' : ShmQue) × (pull_admit q ≡ some q')
        × IsShm q' free used pushing pulling (suc admitted)
        × SameData q q'
  unfolding pull_admit
  pull_admit-IsShm free used pushing pulling admitted v h = (
    record q { sem_que = q.sem_que - 1 },
    rw (lt→ltb 0 q.sem_que h),
    record {
      free_rep = v.free_rep;
      used_rep = v.used_rep;
      free_size = v.free_size;
      used_size = v.used_size;
      once = v.once;
      waiting = omega (arith, v.waiting);
    },
    (refl, refl),
  )

  -- A puller that has passed the semaphore gets the oldest used slot.
  pub pull_take-IsShm :
      (free used pushing pulling : List ℕ) (admitted : ℕ)
      → IsShm q free used pushing pulling (suc admitted)
      → (i : ℕ) × (used' : List ℕ) × (q' : ShmQue) × (used ≡ i ∷ used')
        × (pull_take l q
            ≡ some (some (record { idx = i; buff = buff_offset l q i; bufflen = q.lengths i }), q'))
        × IsShm q' free used' pushing (i ∷ pulling) admitted
        × SameData q q'
  unfolding pull_take
  pull_take-IsShm free [] pushing pulling admitted v = absurd (omega (arith, v.waiting))
  pull_take-IsShm free (i ∷ used) pushing pulling admitted v =
      let (u, taken, used_rep, _, usize) = get_head-Rep q.lst_used i used v.used_rep in
      (
        i,
        used,
        record q { lst_used = u },
        refl,
        rw taken refl,
        record {
          free_rep = v.free_rep;
          used_rep = used_rep;
          free_size = v.free_size;
          used_size = usize ∙ v.used_size;
          once = λ k. omega (arith, v.once k);
          waiting = omega (arith, v.waiting);
        },
        (refl, refl),
      )

  -- Ending a pull puts the slot last among the free ones.
  pub pull_end-IsShm :
      (i : ℕ) (free used pushing us vs : List ℕ) (admitted : ℕ)
      → IsShm q free used pushing (us ++ (i ∷ vs)) admitted
      → (q' : ShmQue) × (pull_end q i ≡ some q')
        × IsShm q' (free ++ (i ∷ [])) used pushing (us ++ vs) admitted
        × SameData q q'
  unfolding pull_end
  pull_end-IsShm i free used pushing us vs admitted v =
      let held : occurs i (us ++ (i ∷ vs)) ≡ occurs i us + (1 + occurs i vs) =
        occurs-append i us (i ∷ vs) ∙ ap (λ n. occurs i us + n) (occurs_self i vs) in
      let below : i < q.que_size = once-lt i q.que_size _ (omega arith) (v.once i) in
      let alone : occurs i free ≡ 0 = omega (arith, once-le i q.que_size _ (v.once i)) in
      let (f, added, free_rep, fsize) =
        add_tail-Rep q.lst_free i (omega (arith, v.free_size)) free v.free_rep
          (NotIn-of_occurs i free alone) in
      (
        record q { lst_free = f },
        rw added refl,
        record {
          free_rep = free_rep;
          used_rep = v.used_rep;
          free_size = fsize ∙ v.free_size;
          used_size = v.used_size;
          once = λ k. omega (
            arith,
            v.once k,
            occurs-append k free (i ∷ []),
            occurs-append k us (i ∷ vs),
            occurs-append k us vs,
          );
          waiting = v.waiting;
        },
        (refl, refl),
      )
