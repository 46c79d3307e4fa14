-- ===== src/Queue/Waits.antt =====
-- The end of a wait in `qc_queue_msgput` and `qc_queue_msgget`.
use queue_c.Base.{
  ℕ, ◌+◌, ◌≡◌, ◌<◌, ◌⊎◌, refl, ap, ◌∙◌, inl, inr, true, false, none, some, ◌∷◌, arith, lt→ltb,
  length, IsIn, pos, failed, List-cases,
}
use queue_c.Getters.{erase}
use queue_c.Getters.Held.{length-erase, length-erase_le}
use queue_c.Getters.Inv.{woken-IsGetters, expire-IsGetters, leaves-IsGetters}
use queue_c.Message.{Message}
use queue_c.MsgChain.{gettemp}
use queue_c.Putters.Inv.{SameMessages, woken-IsPutters, expire-IsPutters}
use queue_c.Putters.Join.{leaves-IsPutters}
use queue_c.Queue.{
  Queue, getter_woken, getter_expires, getter_leaves, putter_woken, putter_expires, putter_leaves,
}
use queue_c.Queue.Weights.{weight, held}
use queue_c.Queue.Inv.{IsQueue, stored, IsChain-temp}

module _ (q : Queue) (v : IsQueue q) where
  -- On a queue that satisfies its invariant, a getter that has been signalled finds a message set
  -- aside when it goes on, so the assertion holds; it returns the message that was set aside first,
  -- the other messages stored and the putters stay, and the invariant is kept.
  pub getter_woken-returns :
      (g : ℕ)
      → IsIn g q.signalled_getters
      → (m : Message) × (q' : Queue) × (getter_woken q g ≡ some (some m, q'))
        × IsQueue q'
        × (stored q' + 1 ≡ stored q)
        × (q.chain.temp ≡ m ∷ q'.chain.temp)
        × (q'.signalled_putters ≡ q.signalled_putters)
        × (q'.putters ≡ q.putters)
        × ((f : Message → ℕ) → held f q' + f m ≡ held f q)
  unfolding getter_woken gettemp
  getter_woken-returns g i = elim (List-cases q.chain.temp) [
    | inl e ↦ absurd (omega (arith, v.set_aside, ap length e, length-erase g q.signalled_getters i))
    | inr (m, ms, e) ↦
        let (l, d, w) =
          woken-IsGetters (q.chain.msg_count ≡ 0) q.getters q.signalled_getters v.getters g i in
        (
          m,
          record q {
            chain = record q.chain { temp = ms };
            getters = l;
            signalled_getters = erase g q.signalled_getters;
          },
          rw (e, d),
          record {
            chain = IsChain-temp q.chain ms v.chain;
            limit = v.limit;
            levels = v.levels;
            getters = w;
            putters = v.putters;
            set_aside =
                omega (arith, v.set_aside, ap length e, length-erase g q.signalled_getters i);
          },
          omega (arith, ap length e),
          e,
          refl,
          refl,
          λ f. omega (arith, ap (weight f) e),
        )
  ]

  -- The wait of a getter times out, whether it has been signalled or not.
  pub getter_expires-returns :
      (g : ℕ)
      → IsIn g q.getters.waiting ⊎ IsIn g q.signalled_getters
      → (q' : Queue) × (getter_expires q g ≡ some q')
        × IsQueue q'
        × (stored q' ≡ stored q)
        × (q'.signalled_putters ≡ q.signalled_putters)
        × (q'.chain ≡ q.chain)
        × (q'.putters ≡ q.putters)
  unfolding getter_expires
  getter_expires-returns g i =
      let (l, d, w) =
        expire-IsGetters (q.chain.msg_count ≡ 0) q.getters q.signalled_getters v.getters g i in
      (
        record q { getters = l; signalled_getters = erase g q.signalled_getters },
        rw d,
        record {
          chain = v.chain;
          limit = v.limit;
          levels = v.levels;
          getters = w;
          putters = v.putters;
          set_aside = omega (arith, v.set_aside, length-erase_le g q.signalled_getters);
        },
        refl,
        refl,
        refl,
        refl,
      )

  pub getter_leaves-returns :
      (g : ℕ)
      → 0 < (q.getters.at g).ref_count
      → (q.getters.at g).is_timedout ≡ true
      → (q' : Queue) × (getter_leaves q g ≡ some (none, q'))
        × IsQueue q'
        × (stored q' ≡ stored q)
        × (q'.signalled_putters ≡ q.signalled_putters)
        × (q'.chain ≡ q.chain)
        × (q'.putters ≡ q.putters)
        × (q'.signalled_getters ≡ q.signalled_getters)
  unfolding getter_leaves
  getter_leaves-returns g held late =
      let (r, l, l', d, e, w) =
        leaves-IsGetters (q.chain.msg_count ≡ 0) q.getters q.signalled_getters v.getters g held
          late in
      (
        record q { getters = l' },
        rw (lt→ltb 0 (q.getters.at g).ref_count held, late, d, e),
        record {
          chain = v.chain;
          limit = v.limit;
          levels = v.levels;
          getters = w;
          putters = v.putters;
          set_aside = v.set_aside;
        },
        refl,
        refl,
        refl,
        refl,
        refl,
      )

  -- A putter that has been signalled returns 0.
  pub putter_woken-returns :
      (p : ℕ)
      → IsIn p q.signalled_putters
      → (q' : Queue) × (putter_woken q p ≡ some (pos 0, q'))
        × IsQueue q'
        × (stored q' ≡ stored q)
        × (q'.signalled_putters ≡ erase p q.signalled_putters)
        × (q'.chain ≡ q.chain)
        × SameMessages q.putters q'.putters
  unfolding putter_woken
  putter_woken-returns p i =
      let (c, d, w, b, messages) =
        woken-IsPutters (q.chain.msg_count ≡ q.limit) q.putters q.signalled_putters v.putters p i in
      (
        record q { putters = c; signalled_putters = erase p q.signalled_putters },
        rw d,
        record {
          chain = v.chain;
          limit = v.limit;
          levels = b ∙ v.levels;
          getters = v.getters;
          putters = w;
          set_aside = v.set_aside;
        },
        refl,
        refl,
        refl,
        messages,
      )

  pub putter_expires-returns :
      (p sn : ℕ)
      → IsIn p (q.putters.buckets sn).putters ⊎ IsIn p q.signalled_putters
      → (q' : Queue) × (putter_expires q p ≡ some q')
        × IsQueue q'
        × (stored q' ≡ stored q)
        × (q'.signalled_putters ≡ erase p q.signalled_putters)
        × (q'.chain ≡ q.chain)
        × SameMessages q.putters q'.putters
  unfolding putter_expires
  putter_expires-returns p sn i =
      let (c, d, w, b, messages) =
        expire-IsPutters (q.chain.msg_count ≡ q.limit) q.putters q.signalled_putters v.putters p sn
          i in
      (
        record q { putters = c; signalled_putters = erase p q.signalled_putters },
        rw d,
        record {
          chain = v.chain;
          limit = v.limit;
          levels = b ∙ v.levels;
          getters = v.getters;
          putters = w;
          set_aside = v.set_aside;
        },
        refl,
        refl,
        refl,
        messages,
      )

  pub putter_leaves-returns :
      (p sn : ℕ)
      → 0 < (q.putters.at p).ref_count
      → (q.putters.at p).is_timedout ≡ true
      → IsIn p (q.putters.buckets sn).putters ⊎ ((q.putters.at p).entry ≡ false)
      → (q' : Queue) × (putter_leaves q p ≡ some (failed, q'))
        × IsQueue q'
        × (stored q' ≡ stored q)
        × (q'.signalled_putters ≡ q.signalled_putters)
        × (q'.chain ≡ q.chain)
        × SameMessages q.putters q'.putters
  unfolding putter_leaves
  putter_leaves-returns p sn held late i =
      let (r, c, c', d, e, w, b, messages) =
        leaves-IsPutters (q.chain.msg_count ≡ q.limit) q.putters q.signalled_putters v.putters p sn
          held late i in
      (
        record q { putters = c' },
        rw (lt→ltb 0 (q.putters.at p).ref_count held, late, d, e),
        record {
          chain = v.chain;
          limit = v.limit;
          levels = b ∙ v.levels;
          getters = v.getters;
          putters = w;
          set_aside = v.set_aside;
        },
        refl,
        refl,
        refl,
        messages,
      )
