-- ===== src/BlockQue/Wake.antt =====
-- The woken thread of a block queue finds a pointer, and no pointer is left to a thread asleep.
use mathlib.Core.List.{append-nil}
use queue_c.Base.{
  subst, sym, Option, ℕ, suc, ◌≡◌, ◌<◌, ◌<◌, refl, ap, eqb_ℤ, true, false, List, [], ◌∷◌, ◌++◌,
  some, arith, ℤ, pos, length, length-append, ◌∙◌, count_from,
}
use queue_c.StaticList
use queue_c.StaticList.Init.{init-Rep, clear-Rep, length-count_from}
use queue_c.NBlockQue.{fulled}
use queue_c.NBlockQue.Refine.{IsQue, not_zero, positive}
use queue_c.BlockQue.{
  BlockQue, Resources, create, Getter, absent, asleep, woken, System, Event, calls_put, calls_get,
  resumes, Answer, result, pointer, waits, blocked, signal, step, finish, Reaches, start, next,
}
use queue_c.BlockQue.Slots.{slots, put-slots, put-no_slot, take-slots}

-- What the thread that holds the mutex may count on: asleep, no pointer is there; woken, one is.
abbrev pub Waits : Getter → List ℕ → Type 0
Waits absent used = Unit
Waits asleep used = used ≡ []
Waits woken used = 0 < length used

pub record IsSystem (room : ℕ) (s : System) : Type 0 where
  pub free : List ℕ
  pub used : List ℕ
  pub que : IsQue room (slots s.que) free used
  pub waiting : Waits s.getter used

Waits-signal : (g : Getter) (used : List ℕ) → 0 < length used → Waits (signal g) used
Waits-signal absent used h = tt
Waits-signal asleep used h = h
Waits-signal woken used h = h

-- What happens next happens, and leaves such a system.
abbrev pub Goes : ℕ → System → Event → Type 0
Goes room s e = (a : Answer) × (t : System) × (step s e ≡ some (a, t)) × IsSystem room t

Goes-put :
    (room : ℕ) (s : System) (x : ℕ) (free used : List ℕ)
    → IsQue room (slots s.que) free used
    → Waits s.getter used
    → Goes room s (calls_put x)
unfolding step
Goes-put room s x [] used o w = (
  result fulled,
  s,
  rw (put-no_slot room s.que x used o),
  record { free = []; used = used; que = o; waiting = w },
)
Goes-put room s x (i ∷ free) used o w =
    let (q, done, is, _) = put-slots room s.que i x free used o in
    (
      result (pos 0),
      record { que = q; getter = signal s.getter },
      rw done,
      record {
        free = free;
        used = used ++ (i ∷ []);
        que = is;
        waiting = Waits-signal s.getter _ (omega (arith, length-append used (i ∷ [])));
      },
    )

-- A pointer is there.
finish-IsSystem :
    (room : ℕ) (q : BlockQue) (i : ℕ) (free used : List ℕ)
    → IsQue room (slots q) free (i ∷ used)
    → (t : System) × (finish q ≡ some (pointer (some (q.ptr_array i)), t)) × IsSystem room t
finish-IsSystem room q i free used o =
    let (q', done, is, _) = take-slots room q i free used o in
    (
      record { que = q'; getter = absent },
      rw done,
      record { free = free ++ (i ∷ []); used = used; que = is; waiting = tt },
    )

Goes-next :
    (room : ℕ) (q : BlockQue) (g : Getter) (e : Event) (free used : List ℕ)
    → IsQue room (slots q) free used
    → Waits g used
    → Goes room (record { que = q; getter = g }) e
unfolding step StaticList.count
Goes-next room q g (calls_put x) free used o w = Goes-put room _ x free used o w
Goes-next room q absent calls_get free [] o w = (
  waits,
  record { que = q; getter = asleep },
  rw (ap (λ (n : ℤ). eqb_ℤ n (pos 0)) o.used_rep.num),
  record { free = free; used = []; que = o; waiting = refl },
)
Goes-next room q absent calls_get free (i ∷ used) o w =
    let (t, done, v) = finish-IsSystem room q i free used o in
    let some_left : eqb_ℤ q.lst_used.num (pos 0) ≡ false =
      ap (λ (n : ℤ). eqb_ℤ n (pos 0)) o.used_rep.num ∙ not_zero (length used) in
    (pointer (some (q.ptr_array i)), t, rw some_left done, v)
Goes-next room q asleep calls_get free used o w =
    (blocked, _, refl, record { free = free; used = used; que = o; waiting = w })
Goes-next room q woken calls_get free used o w =
    (blocked, _, refl, record { free = free; used = used; que = o; waiting = w })
Goes-next room q absent resumes free used o w =
    (blocked, _, refl, record { free = free; used = used; que = o; waiting = w })
Goes-next room q asleep resumes free used o w =
    (blocked, _, refl, record { free = free; used = used; que = o; waiting = w })
Goes-next room q woken resumes free [] o w = absurd (omega (arith, w))
Goes-next room q woken resumes free (i ∷ used) o w =
    let (t, done, v) = finish-IsSystem room q i free used o in (_, t, done, v)

pub step-IsSystem : (room : ℕ) (s : System) (e : Event) → IsSystem room s → Goes room s e
step-IsSystem room s e v = Goes-next room s.que s.getter e v.free v.used v.que v.waiting

-- Every resource is given.
abbrev pub ample : Resources
ample = record {
  queue = true;
  used = true;
  free = true;
  slots = true;
  cond_lock = true;
  cond = true;
  threads_mutex = true;
}

-- With a positive limit and every resource, `create` gives a well-formed system with no pointer
-- queued and no thread waiting.
pub create-IsSystem :
    (n : ℕ)
    → (q : BlockQue) × (create (pos (suc n)) ample ≡ some (some q))
      × IsSystem (suc n) (record { que = q; getter = absent })
unfolding create
create-IsSystem n =
    let (l, made, rep, size) = init-Rep StaticList.zeroed n in
    let (u, cleared, none_used, same) = clear-Rep (count_from 0 (suc n)) l rep in
    (
      record { ptr_array = λ _. 0; limit = pos (suc n); lst_free = l; lst_used = u },
      rw (made, cleared, positive n),
      record {
        free = count_from 0 (suc n);
        used = [];
        que = record {
          free_rep = rep;
          used_rep = none_used;
          free_size = size;
          used_size = same ∙ size;
          apart = rw append-nil rep.distinct;
          total = omega (arith, length-count_from 1 n);
        };
        waiting = tt;
      },
    )

same_system :
    (o : Option (Answer × System)) (a b : Answer) (t u : System)
    → o ≡ some (a, t)
    → o ≡ some (b, u)
    → t ≡ u
same_system o a b t u d e = cc

Reaches-IsSystem : (room : ℕ) (s t : System) → IsSystem room s → Reaches s t → IsSystem room t
Reaches-IsSystem room s t v start = v
Reaches-IsSystem room s t v (next {t = t'} e a r runs) =
    let (a', u, went, w) = step-IsSystem room t' e (Reaches-IsSystem room s t' v r) in
    subst (IsSystem room) (same_system (step t' e) a' a u t went runs) w

woken-finds :
    (room : ℕ) (q : BlockQue) (free used : List ℕ)
    → IsQue room (slots q) free used
    → 0 < length used
    → (x : ℕ) × (t : System) × (finish q ≡ some (pointer (some x), t))
woken-finds room q free [] o w = absurd (omega (arith, w))
woken-finds room q free (i ∷ used) o w =
    let (t, done, _) = finish-IsSystem room q i free used o in (q.ptr_array i, t, done)

resume-finds :
    (room : ℕ) (q : BlockQue) (v : IsSystem room (record { que = q; getter = woken }))
    → (x : ℕ) × (t : System) × (step (record { que = q; getter = woken }) resumes
        ≡ some (pointer (some x), t))
unfolding step
resume-finds room q v = woken-finds room q v.free v.used v.que v.waiting

-- In every system that events lead to from a well-formed one, the thread that has been woken gets a
-- pointer when it goes on, and no NULL.
pub resume-pointer :
    (room : ℕ) (s t : System)
    → IsSystem room s
    → Reaches s t
    → t.getter ≡ woken
    → (x : ℕ) × (u : System) × (step t resumes ≡ some (pointer (some x), u))
resume-pointer room s t v r e =
    let there : IsSystem room (record { que = t.que; getter = woken }) =
      subst (λ (g : Getter). IsSystem room (record { que = t.que; getter = g })) e
        (Reaches-IsSystem room s t v r) in
    subst
      (λ (g : Getter).
        (x : ℕ) × (u : System) × (step (record { que = t.que; getter = g }) resumes
          ≡ some (pointer (some x), u)))
      (sym e) (resume-finds room t.que there)

-- In every system that events lead to from a well-formed one, the queue is empty while a thread
-- sleeps: no pointer is put without waking it.
pub asleep-empty :
    (room : ℕ) (s t : System)
    → IsSystem room s
    → Reaches s t
    → t.getter ≡ asleep
    → StaticList.count t.que.lst_used ≡ pos 0
unfolding StaticList.count
asleep-empty room s t v r e =
    let w = Reaches-IsSystem room s t v r in
    w.que.used_rep.num
    ∙ ap (λ (l : List ℕ). pos (length l)) (subst (λ g. Waits g w.used) e w.waiting)
