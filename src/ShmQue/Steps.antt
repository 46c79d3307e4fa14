-- ===== src/ShmQue/Steps.antt =====
-- Any number of processes that push and pull, in any order of their steps.
use queue_c.Base.{
  agree, true, count_from, ℕ, suc, ◌+◌, ◌*◌, ◌≡◌, ◌≤◌, ◌<◌, refl, ap, subst, ◌∙◌, Option, none,
  some, List, [], ◌∷◌, ◌++◌, arith, ap₂, sym, inl, inr, All, All-imp, All-append, All-left,
  All-right,
}
use queue_c.UnitPool.Units.{Disjoint, units-Disjoint, unit-le}
use queue_c.StaticList
use queue_c.StaticList.Init.{init-Rep, clear-Rep}
use queue_c.ShmQue.{
  data_end, laid_out, init, margin, ShmQue, Layout, Slot, slot_size, push_begin, push_end,
  pull_admit, pull_take, pull_end,
}
use queue_c.ShmQue.Slots.{
  occurs-all, IsShm, SameData, occurs, occurs-append, occurs_self, once-lt, once-le,
  push_begin-IsShm, push_begin-no_slot, push_end-IsShm, pull_admit-IsShm, pull_take-IsShm,
  pull_end-IsShm,
}

-- The queue, the slots that processes are writing and reading, and the number of processes that
-- have passed `sem_que` and not yet `sem_lst`.
pub record System : Type 0 where
  pub que : ShmQue
  pub pushing : List Slot
  pub pulling : List Slot
  pub admitted : ℕ

abbrev pub after_push : System → Option Slot × ShmQue → System
after_push s (none, q) = record s { que = q }
after_push s (some slot, q) = record s { que = q; pushing = slot ∷ s.pushing }

abbrev pub after_take : System → ℕ → Option Slot × ShmQue → System
after_take s admitted (none, q) = record s { que = q; admitted = admitted }
after_take s admitted (some slot, q) = record s {
  que = q;
  pulling = slot ∷ s.pulling;
  admitted = admitted;
}

-- A process ends a push or a pull only for a slot that it has.
pub data Step (l : Layout) : System → System → Type 0 where
  begins_push :
      {s : System} (r : Option Slot × ShmQue)
      → push_begin l s.que ≡ some r
      → Step l s (after_push s r)
  ends_push :
      {s : System} (us vs : List Slot) (a : Slot) (bufflen : ℕ) (q : ShmQue)
      → s.pushing ≡ us ++ (a ∷ vs)
      → push_end s.que a.idx bufflen ≡ some q
      → Step l s (record s { que = q; pushing = us ++ vs })
  admits :
      {s : System} (q : ShmQue)
      → pull_admit s.que ≡ some q
      → Step l s (record s { que = q; admitted = suc s.admitted })
  takes :
      {s : System} (admitted : ℕ) (r : Option Slot × ShmQue)
      → s.admitted ≡ suc admitted
      → pull_take l s.que ≡ some r
      → Step l s (after_take s admitted r)
  ends_pull :
      {s : System} (us vs : List Slot) (a : Slot) (q : ShmQue)
      → s.pulling ≡ us ++ (a ∷ vs)
      → pull_end s.que a.idx ≡ some q
      → Step l s (record s { que = q; pulling = us ++ vs })

pub data Reaches (l : Layout) (s : System) : System → Type 0 where
  start : Reaches l s s
  next : {t u : System} → Reaches l s t → Step l t u → Reaches l s u

abbrev idxs : List Slot → List ℕ
idxs [] = []
idxs (a ∷ held) = a.idx ∷ idxs held

idxs-append : (us vs : List Slot) → idxs (us ++ vs) ≡ idxs us ++ idxs vs
idxs-append [] vs = refl
idxs-append (a ∷ us) vs = ap (λ l. a.idx ∷ l) (idxs-append us vs)

-- The message of a slot that has been handed out begins behind the lengths and messages of the
-- slots before it and its own length.
abbrev place : Layout → (data_offset msg_size idx : ℕ) → ℕ
place l data_offset msg_size idx = data_offset + idx * (l.off_size + msg_size) + l.off_size

abbrev pub IsPlaced : Layout → ShmQue → Slot → Type 0
IsPlaced l q a = a.buff ≡ place l q.data_offset q.msg_size a.idx

-- The slots handed out are those that no list has, each in its place.
pub record IsSystem (l : Layout) (s : System) : Type 0 where
  pub free : List ℕ
  pub used : List ℕ
  pub slots : IsShm s.que free used (idxs s.pushing) (idxs s.pulling) s.admitted
  pub written : All (IsPlaced l s.que) s.pushing
  pub read : All (IsPlaced l s.que) s.pulling

All-IsPlaced :
    (l : Layout) (q q' : ShmQue) (held : List Slot)
    → SameData q q'
    → All (IsPlaced l q) held
    → All (IsPlaced l q') held
All-IsPlaced l q q' held (start_same, size) =
    All-imp _ _ held (λ a e. e ∙ ap₂ (λ d m. place l d m a.idx) (sym start_same) (sym size))

begin-IsSystem :
    (l : Layout) (s : System) (r : Option Slot × ShmQue) (v : IsSystem l s) (free : List ℕ)
    → v.free ≡ free
    → push_begin l s.que ≡ some r
    → IsSystem l (after_push s r)
begin-IsSystem l s r v [] none_free e =
    subst (λ (p : Option Slot × ShmQue). IsSystem l (after_push s p))
      (agree _ _ _
        (push_begin-no_slot l s.que v.used (idxs s.pushing) (idxs s.pulling) s.admitted (
          subst (λ f. IsShm s.que f v.used (idxs s.pushing) (idxs s.pulling) s.admitted) none_free
            v.slots))
        e)
      v
begin-IsSystem l s r v (i ∷ free) some_free e =
    let (q', done, w, same) =
      push_begin-IsShm l s.que i free v.used (idxs s.pushing) (idxs s.pulling) s.admitted (
        subst (λ f. IsShm s.que f v.used (idxs s.pushing) (idxs s.pulling) s.admitted) some_free
          v.slots) in
    subst (λ (p : Option Slot × ShmQue). IsSystem l (after_push s p)) (agree _ _ _ done e)
      (record {
        free = free;
        used = v.used;
        slots = w;
        written = (
          ap₂ (λ d m. place l d m i) (sym same.0) (sym same.1),
          All-IsPlaced l s.que q' s.pushing same v.written,
        );
        read = All-IsPlaced l s.que q' s.pulling same v.read;
      })

pull_admit-positive : (q q' : ShmQue) → pull_admit q ≡ some q' → 0 < q.sem_que
unfolding pull_admit
pull_admit-positive q q' e = ground arith

-- A slot taken off the slots that are handed out.
idxs-split :
    (held us vs : List Slot) (a : Slot)
    → held ≡ us ++ (a ∷ vs)
    → idxs held ≡ idxs us ++ (a.idx ∷ idxs vs)
idxs-split held us vs a e = ap idxs e ∙ idxs-append us (a ∷ vs)

All-without :
    (P : Slot → Type 0) (held us vs : List Slot) (a : Slot)
    → held ≡ us ++ (a ∷ vs)
    → All P held
    → All P (us ++ vs)
All-without P held us vs a e h =
    let h' : All P (us ++ (a ∷ vs)) = subst (All P) e h in
    All-append P us vs (All-left P us (a ∷ vs) h') (All-right P us (a ∷ vs) h').1

Step-IsSystem : (l : Layout) (s t : System) → IsSystem l s → Step l s t → IsSystem l t
Step-IsSystem l s t v (begins_push r e) = begin-IsSystem l s r v v.free refl e
Step-IsSystem l s t v (ends_push us vs a bufflen q held e) =
    let (q', done, w, _, same) =
      push_end-IsShm l s.que a.idx bufflen v.free v.used (idxs us) (idxs vs) (idxs s.pulling)
        s.admitted
        (subst (λ p. IsShm s.que v.free v.used p (idxs s.pulling) s.admitted)
          (idxs-split s.pushing us vs a held) v.slots) in
    subst (λ (x : ShmQue). IsSystem l (record s { que = x; pushing = us ++ vs }))
      (agree _ q' q done e)
      (record {
        free = v.free;
        used = v.used ++ (a.idx ∷ []);
        slots =
            subst (λ p. IsShm q' v.free (v.used ++ (a.idx ∷ [])) p (idxs s.pulling) s.admitted)
              (sym (idxs-append us vs)) w;
        written =
            All-IsPlaced l s.que q' (us ++ vs) same
              (All-without (IsPlaced l s.que) s.pushing us vs a held v.written);
        read = All-IsPlaced l s.que q' s.pulling same v.read;
      })
Step-IsSystem l s t v (admits q e) =
    let (q', done, w, same) =
      pull_admit-IsShm l s.que v.free v.used (idxs s.pushing) (idxs s.pulling) s.admitted v.slots
        (pull_admit-positive s.que q e) in
    subst (λ (x : ShmQue). IsSystem l (record s { que = x; admitted = suc s.admitted }))
      (agree _ q' q done e)
      (record {
        free = v.free;
        used = v.used;
        slots = w;
        written = All-IsPlaced l s.que q' s.pushing same v.written;
        read = All-IsPlaced l s.que q' s.pulling same v.read;
      })
Step-IsSystem l s t v (takes admitted r some_one e) =
    let (i, used, q', _, done, w, same) =
      pull_take-IsShm l s.que v.free v.used (idxs s.pushing) (idxs s.pulling) admitted
        (subst (IsShm s.que v.free v.used (idxs s.pushing) (idxs s.pulling)) some_one v.slots) in
    subst (λ (p : Option Slot × ShmQue). IsSystem l (after_take s admitted p)) (agree _ _ _ done e)
      (record {
        free = v.free;
        used = used;
        slots = w;
        written = All-IsPlaced l s.que q' s.pushing same v.written;
        read = (
          ap₂ (λ d m. place l d m i) (sym same.0) (sym same.1),
          All-IsPlaced l s.que q' s.pulling same v.read,
        );
      })
Step-IsSystem l s t v (ends_pull us vs a q held e) =
    let (q', done, w, same) =
      pull_end-IsShm l s.que a.idx v.free v.used (idxs s.pushing) (idxs us) (idxs vs) s.admitted (
        subst (λ p. IsShm s.que v.free v.used (idxs s.pushing) p s.admitted)
          (idxs-split s.pulling us vs a held) v.slots) in
    subst (λ (x : ShmQue). IsSystem l (record s { que = x; pulling = us ++ vs }))
      (agree _ q' q done e)
      (record {
        free = v.free ++ (a.idx ∷ []);
        used = v.used;
        slots =
            subst (λ p. IsShm q' (v.free ++ (a.idx ∷ [])) v.used (idxs s.pushing) p s.admitted)
              (sym (idxs-append us vs)) w;
        written = All-IsPlaced l s.que q' s.pushing same v.written;
        read =
            All-IsPlaced l s.que q' (us ++ vs) same
              (All-without (IsPlaced l s.que) s.pulling us vs a held v.read);
      })

Reaches-IsSystem : (l : Layout) (s t : System) → IsSystem l s → Reaches l s t → IsSystem l t
Reaches-IsSystem l s t v start = v
Reaches-IsSystem l s t v (next {t = u} r e) = Step-IsSystem l u t (Reaches-IsSystem l s u v r) e

-- In every system that any steps lead to from a well-formed one, a puller that has passed the
-- counting semaphore takes a slot: the list of used slots is not empty.
pub admitted-takes :
    (l : Layout) (s t : System) (admitted : ℕ)
    → IsSystem l s
    → Reaches l s t
    → t.admitted ≡ suc admitted
    → (slot : Slot) × (q : ShmQue) × (pull_take l t.que ≡ some (some slot, q))
admitted-takes l s t admitted v r e =
    let w = Reaches-IsSystem l s t v r in
    let (i, used, q', _, done, _, _) =
      pull_take-IsShm l t.que w.free w.used (idxs t.pushing) (idxs t.pulling) admitted
        (subst (IsShm t.que w.free w.used (idxs t.pushing) (idxs t.pulling)) e w.slots) in
    (_, q', done)

-- A slot's length and message lie in the data region of the queue.
abbrev pub IsInside : Layout → ShmQue → Slot → Type 0
IsInside l q a =
    (q.data_offset + l.off_size ≤ a.buff)
    × (a.buff + q.msg_size ≤ q.data_offset + q.que_size * slot_size l q)

placed-IsInside :
    (l : Layout) (q : ShmQue) (a : Slot) → IsPlaced l q a → a.idx < q.que_size → IsInside l q a
placed-IsInside l q a e h =
    (omega arith, omega (arith, unit-le q.data_offset (slot_size l q) a.idx q.que_size h))

shifted :
    (l : Layout) (q : ShmQue) (a b : Slot)
    → IsPlaced l q a
    → IsPlaced l q b
    → Disjoint
        (slot_size l q)
        (q.data_offset + a.idx * slot_size l q)
        (q.data_offset + b.idx * slot_size l q)
    → Disjoint (slot_size l q) a.buff b.buff
shifted l q a b e f (inl h) = inl (omega arith)
shifted l q a b e f (inr h) = inr (omega arith)

-- In every system that any steps of pushers and pullers lead to from a well-formed one, a slot
-- handed out to be written and one handed out to be read share no byte, where a slot is the room
-- for the message's length and the message, and the messages of both lie in the data region of the
-- queue, each behind the room for its length.
pub written-read-Disjoint :
    (l : Layout) (s t : System) (us vs ws zs : List Slot) (a b : Slot)
    → IsSystem l s
    → Reaches l s t
    → t.pushing ≡ us ++ (a ∷ vs)
    → t.pulling ≡ ws ++ (b ∷ zs)
    → Disjoint (slot_size l t.que) a.buff b.buff × IsInside l t.que a × IsInside l t.que b
written-read-Disjoint l s t us vs ws zs a b v r p q =
    let w = Reaches-IsSystem l s t v r in
    let size = slot_size l t.que in
    let held_a : occurs a.idx (idxs t.pushing)
        ≡ occurs a.idx (idxs us) + (1 + occurs a.idx (idxs vs)) =
      ap (occurs a.idx) (idxs-split t.pushing us vs a p)
      ∙ occurs-append a.idx (idxs us) (a.idx ∷ idxs vs)
      ∙ ap (λ n. occurs a.idx (idxs us) + n) (occurs_self a.idx (idxs vs)) in
    let held_b : occurs b.idx (idxs t.pulling)
        ≡ occurs b.idx (idxs ws) + (1 + occurs b.idx (idxs zs)) =
      ap (occurs b.idx) (idxs-split t.pulling ws zs b q)
      ∙ occurs-append b.idx (idxs ws) (b.idx ∷ idxs zs)
      ∙ ap (λ n. occurs b.idx (idxs ws) + n) (occurs_self b.idx (idxs zs)) in
    let low_a : a.idx < t.que.que_size =
      once-lt a.idx t.que.que_size _ (omega arith) (w.slots.once a.idx) in
    let low_b : b.idx < t.que.que_size =
      once-lt b.idx t.que.que_size _ (omega arith) (w.slots.once b.idx) in
    let placed_a : IsPlaced l t.que a =
      (All-right _ us (a ∷ vs) (subst (All (IsPlaced l t.que)) p w.written)).0 in
    let placed_b : IsPlaced l t.que b =
      (All-right _ ws (b ∷ zs) (subst (All (IsPlaced l t.que)) q w.read)).0 in
    let apart : Disjoint size (t.que.data_offset + a.idx * size)
        (t.que.data_offset + b.idx * size) =
      units-Disjoint t.que.data_offset size a.idx b.idx (λ e. omega (
        arith,
        once-le a.idx t.que.que_size _ (w.slots.once a.idx),
        ap (λ k. occurs k (idxs t.pulling)) e,
      )) in
    (
      shifted l t.que a b placed_a placed_b apart,
      placed-IsInside l t.que a placed_a low_a,
      placed-IsInside l t.que b placed_b low_b,
    )

-- Initialising a shared queue with a positive size and its semaphores gives a well-formed system
-- with all slots free, whose data region lies behind the two lists and before the end, with the
-- safe margin on either side.
pub init-IsSystem :
    (l : Layout) (n offset msg_size que_num sn : ℕ)
    → (end : ℕ) × (q : ShmQue) × (init l offset (suc n) msg_size que_num sn true true
        ≡ some (end, some q))
      × IsSystem l (record { que = q; pushing = []; pulling = []; admitted = 0 })
      × (offset + l.header + suc n * l.cell + suc n * l.cell + margin ≤ q.data_offset)
      × (q.data_offset + suc n * slot_size l q + margin ≤ end)
unfolding init
init-IsSystem l n offset msg_size que_num sn =
    let (f, made, rep, size) = init-Rep StaticList.zeroed n in
    let (u, cleared, none_used, same) = clear-Rep (count_from 0 (suc n)) f rep in
    (
      data_end l offset (suc n) msg_size,
      laid_out l offset (suc n) msg_size que_num sn u f,
      rw (made, cleared) refl,
      record {
        free = count_from 0 (suc n);
        used = [];
        slots = record {
          free_rep = rep;
          used_rep = none_used;
          free_size = size;
          used_size = same ∙ size;
          once = λ k. omega (arith, occurs-all (suc n) k);
          waiting = refl;
        };
        written = tt;
        read = tt;
      },
      omega arith,
      omega arith,
    )
