-- ===== src/Queue/Put.antt =====
-- `qc_queue_msgput`.
use queue_c.Base.{
  ℕ, suc, ◌+◌, ◌≡◌, ◌≢◌, ◌<◌, refl, ◌∙◌, inl, inr, Option, none, some, List, [], ◌∷◌, ◌++◌, arith,
  Bool-cases, ℤ, pos, eqb_true, eqb_false, length-append,
}
use native.Mathlib.Decide.{ℕ_discrete}
use queue_c.Getters.{GettersList, getter_destroy}
use queue_c.Getters.Inv.{IsGetters}
use queue_c.Getters.Pop.{
  popped, released, released_in_time, first_waits, pop-eq-popped, popped_held, destroy-eq-released,
  released-IsGetters, signalled-IsGetters,
}
use queue_c.Message.{Message}
use queue_c.MsgChain.{puttemp}
use queue_c.MsgChain.Inv.{pushed, pushmsg-eq-pushed, pushed-IsChain}
use queue_c.Putters.Inv.{IsPutters-imp}
use queue_c.Putters.Join.{joined, joined_message, joined_others, push-IsPutters}
use queue_c.Queue.{Queue, Outcome, returns, waits, pop_getter, msgput}
use queue_c.Queue.Weights.{weight-append, pushed-weight, held}
use queue_c.Queue.Inv.{IsQueue, stored, IsChain-temp, IsGetters-none}

-- No getter in time waits, and none is left on the list; or one does, and is released.
abbrev pub Found : Type 0 → List ℕ → Option ℕ → GettersList → Type 0
Found E s none l = (l.waiting ≡ []) × IsGetters E l s
Found E s (some g) l =
    E × ((l' : GettersList) × (getter_destroy l g ≡ some l') × IsGetters E l' (s ++ (g ∷ [])))

pub pop_getter-Found :
    (E : Type 0) (s ws : List ℕ) (l : GettersList)
    → l.waiting ≡ ws
    → IsGetters E l s
    → (r : Option ℕ) × (l' : GettersList) × (pop_getter ws l ≡ some (r, l')) × Found E s r l'
unfolding pop_getter
pop_getter-Found E s [] l e v = (none, l, refl, (e, v))
pop_getter-Found E s (g ∷ rest) l e v = elim (Bool-cases (l.at g).is_timedout) [
  | inl late ↦
      let (r, l', q, f) =
        pop_getter-Found E s rest (released l g rest) refl (released-IsGetters E l s v g rest e) in
      (
        r,
        l',
        rw
            (
              pop-eq-popped E l s v g rest e,
              popped_held E l s v g rest e,
              released_in_time l g rest ∙ late,
              destroy-eq-released E l s v g rest e,
            )
            q,
        f,
      )
  | inr in_time ↦ (
    some g,
    popped l g rest,
    rw (
      pop-eq-popped E l s v g rest e,
      popped_held E l s v g rest e,
      released_in_time l g rest ∙ in_time,
    ),
    (
      (first_waits E l s v g rest e).live in_time,
      (
        released l g rest,
        destroy-eq-released E l s v g rest e,
        signalled-IsGetters E l s v g rest e in_time,
      ),
    ),
  )
]

-- What `msgput` has done: the message is stored and 0 returned, or the thread waits as the putter
-- `p`, which has the message, with no room and no message stored.
abbrev pub Taken : Queue → Message → ℕ → Outcome ℤ → Queue → Type 0
Taken q m p (returns r) q' =
    (r ≡ pos 0)
    × (stored q' ≡ stored q + 1)
    × (q'.signalled_putters ≡ q.signalled_putters)
    × (q'.putters ≡ q.putters)
    × ((f : Message → ℕ) → held f q' ≡ held f q + f m)
Taken q m p (waits a) q' =
    (a ≡ p)
    × (q.chain.msg_count ≡ q.limit)
    × (stored q' ≡ stored q)
    × (q'.signalled_putters ≡ q.signalled_putters)
    × (q'.chain ≡ q.chain)
    × ((q'.putters.at p).message ≡ m)
    × ((x : ℕ) → x ≢ p → (q'.putters.at x).message ≡ (q.putters.at x).message)

module _ (q : Queue) (m : Message) (p sn : ℕ) (v : IsQueue q) (e : m.priority ≡ pos (suc sn))
    (lt : sn < q.chain.bucket_count) (free : (q.putters.at p).ref_count ≡ 0) where
  -- A getter in time is there.
  put_getter :
      (g : ℕ) (l l' : GettersList)
      → pop_getter q.getters.waiting q.getters ≡ some (some g, l)
      → getter_destroy l g ≡ some l'
      → IsGetters (q.chain.msg_count ≡ 0) l' (q.signalled_getters ++ (g ∷ []))
      → (r : Outcome ℤ) × (q' : Queue) × (msgput q m p ≡ some (r, q'))
        × IsQueue q'
        × Taken q m p r q'
  unfolding msgput puttemp
  put_getter g l l' run destroyed w = (
    returns (pos 0),
    record q {
      getters = l';
      chain = record q.chain { temp = q.chain.temp ++ (m ∷ []) };
      signalled_getters = q.signalled_getters ++ (g ∷ []);
    },
    rw (run, destroyed),
    record {
      chain = IsChain-temp q.chain _ v.chain;
      limit = v.limit;
      levels = v.levels;
      getters = w;
      putters = v.putters;
      set_aside = omega (
        arith,
        v.set_aside,
        length-append q.signalled_getters (g ∷ []),
        length-append q.chain.temp (m ∷ []),
      );
    },
    (
      refl,
      omega (arith, length-append q.chain.temp (m ∷ [])),
      refl,
      refl,
      λ f. omega (arith, weight-append f q.chain.temp (m ∷ [])),
    ),
  )

  -- No getter is left, and there is no room.
  put_waits :
      (l : GettersList)
      → pop_getter q.getters.waiting q.getters ≡ some (none, l)
      → IsGetters (q.chain.msg_count ≡ 0) l q.signalled_getters
      → q.chain.msg_count ≡ q.limit
      → (r : Outcome ℤ) × (q' : Queue) × (msgput q m p ≡ some (r, q'))
        × IsQueue q'
        × Taken q m p r q'
  unfolding msgput
  put_waits l run w full =
      let (pushed, u) =
        push-IsPutters (q.chain.msg_count ≡ q.limit) q.putters q.signalled_putters v.putters p m sn
          free e (omega (arith, v.levels)) full in
      (
        waits p,
        record q { getters = l; putters = joined q.putters p m sn },
        rw (run, eqb_true q.chain.msg_count q.limit full, pushed),
        record {
          chain = v.chain;
          limit = v.limit;
          levels = v.levels;
          getters = w;
          putters = u;
          set_aside = v.set_aside;
        },
        (
          refl,
          full,
          refl,
          refl,
          refl,
          joined_message q.putters p m sn,
          joined_others q.putters p m sn,
        ),
      )

  -- No getter is left, and there is room.
  put_stores :
      (l : GettersList)
      → pop_getter q.getters.waiting q.getters ≡ some (none, l)
      → l.waiting ≡ []
      → IsGetters (q.chain.msg_count ≡ 0) l q.signalled_getters
      → q.chain.msg_count ≢ q.limit
      → (r : Outcome ℤ) × (q' : Queue) × (msgput q m p ≡ some (r, q'))
        × IsQueue q'
        × Taken q m p r q'
  unfolding msgput
  put_stores l run nobody w room =
      let below : q.chain.msg_count < q.chain.count_limit =
        omega (arith, v.chain.limited, v.limit) in
      (
        returns (pos 0),
        record q { getters = l; chain = pushed q.chain m sn },
        rw (
          run,
          eqb_false q.chain.msg_count q.limit room,
          pushmsg-eq-pushed q.chain m sn v.chain e lt below,
        ),
        record {
          chain = pushed-IsChain q.chain m sn v.chain e lt below;
          limit = v.limit;
          levels = v.levels;
          getters = IsGetters-none _ _ l q.signalled_getters nobody w;
          putters =
              IsPutters-imp _ _ q.putters q.signalled_putters (λ f. absurd (room f)) v.putters;
          set_aside = v.set_aside;
        },
        (refl, omega arith, refl, refl, λ f. omega (arith, pushed-weight f q.chain m sn lt)),
      )

  pop_getter-Taken :
      (r : Option ℕ) (l : GettersList)
      → pop_getter q.getters.waiting q.getters ≡ some (r, l)
      → Found (q.chain.msg_count ≡ 0) q.signalled_getters r l
      → (o : Outcome ℤ) × (q' : Queue) × (msgput q m p ≡ some (o, q'))
        × IsQueue q'
        × Taken q m p o q'
  pop_getter-Taken none l run (nobody, w) = elim (ℕ_discrete q.chain.msg_count q.limit) [
    | yes full ↦ put_waits l run w full
    | no room ↦ put_stores l run nobody w room
  ]
  pop_getter-Taken (some g) l run (empty, (l', destroyed, w)) = put_getter g l l' run destroyed w

  -- On a queue that satisfies its invariant, `msgput` of a message whose priority is one of the
  -- queue's, with an address for a putter that is not in use, does not stop the program and keeps
  -- the invariant. It returns 0 with that message stored beside those before, and the putters as
  -- they were; or its thread waits as the putter of that address, which has the message, where
  -- there was no room, no message is stored or removed, and the other putters keep their messages.
  pub msgput-returns :
      (r : Outcome ℤ) × (q' : Queue) × (msgput q m p ≡ some (r, q')) × IsQueue q' × Taken q m p r q'
  msgput-returns =
      let (r, l, run, found) =
        pop_getter-Found (q.chain.msg_count ≡ 0) q.signalled_getters q.getters.waiting q.getters
          refl v.getters in
      pop_getter-Taken r l run found
