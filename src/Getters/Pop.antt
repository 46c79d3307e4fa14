-- ===== src/Getters/Pop.antt =====
-- The pop of a getter, and its release by the thread that popped it.
use queue_c.Base.{
  ℕ, ◌+◌, ◌-◌, ◌≡◌, ap, sym, subst, ◌∙◌, true, false, some, List, [], ◌∷◌, ◌++◌, arith, ltb, lt→ltb,
  All, All-append, All-imp, NotIn, Distinct,
}
use queue_c.DynList.{set}
use queue_c.Getters.{Getter, GettersList, getter_destroy, pop}
use queue_c.Getters.Held.{set_self, All-set, Distinct-snoc}
use queue_c.Getters.Inv.{IsWaiting, IsPending, IsGetters}

-- The object of a getter that has been popped, which the thread that popped it holds too.
abbrev shared : Getter → Getter
shared o = record o { entry = false; ref_count = o.ref_count + 1 }

abbrev pub popped : GettersList → ℕ → List ℕ → GettersList
popped l g rest = record { waiting = rest; at = set l.at g (shared (l.at g)) }

abbrev pub released : GettersList → ℕ → List ℕ → GettersList
released l g rest = record {
  waiting = rest;
  at =
      set (set l.at g (shared (l.at g))) g
        (record (shared (l.at g)) { ref_count = (l.at g).ref_count + 1 - 1 });
}

pub released_in_time :
    (l : GettersList) (g : ℕ) (rest : List ℕ)
    → ((popped l g rest).at g).is_timedout ≡ (l.at g).is_timedout
released_in_time l g rest = ap (λ (o : Getter). o.is_timedout) (set_self l.at g (shared (l.at g)))

module _ (E : Type 0) (l : GettersList) (s : List ℕ) (v : IsGetters E l s) (g : ℕ) (rest : List ℕ)
    (first : l.waiting ≡ g ∷ rest) where
  pub first_waits : IsWaiting E (l.at g)
  first_waits = (subst (All (λ x. IsWaiting E (l.at x))) first v.waiting).0

  pub pop-eq-popped : pop l ≡ some (some g, popped l g rest)
  unfolding pop
  pop-eq-popped = rw (first, lt→ltb 0 (l.at g).ref_count (omega (arith, first_waits.sole)))

  pub popped_held : ltb 0 ((popped l g rest).at g).ref_count ≡ true
  popped_held =
      ap (λ (o : Getter). ltb 0 o.ref_count) (set_self l.at g (shared (l.at g)))
      ∙ lt→ltb 0 ((l.at g).ref_count + 1) (omega arith)

  pub destroy-eq-released : getter_destroy (popped l g rest) g ≡ some (released l g rest)
  unfolding getter_destroy
  destroy-eq-released =
      rw (set_self l.at g (shared (l.at g)), lt→ltb 0 ((l.at g).ref_count + 1) (omega arith))

  not_signalled : NotIn g s
  not_signalled = All-imp _ _ s (λ x n q. (subst (NotIn x) first n).0 (sym q)) v.apart

  -- One that has timed out is forgotten.
  pub released-IsGetters : IsGetters E (released l g rest) s
  released-IsGetters =
      let (not_again, distinct_rest) = subst Distinct first v.distinct in
      record {
        distinct = distinct_rest;
        waiting =
            All-set (λ _ x. IsWaiting E x) _ g _ rest not_again
              (All-set (λ _ x. IsWaiting E x) l.at g _ rest not_again
                (subst (All (λ x. IsWaiting E (l.at x))) first v.waiting).1);
        once = v.once;
        pending =
            All-set (λ _ x. IsPending x) _ g _ s not_signalled
              (All-set (λ _ x. IsPending x) l.at g _ s not_signalled v.pending);
        apart = All-imp _ _ s (λ x n. (subst (NotIn x) first n).1) v.apart;
      }

  -- One in time is signalled.
  pub signalled-IsGetters :
      (l.at g).is_timedout ≡ false → IsGetters E (released l g rest) (s ++ (g ∷ []))
  signalled-IsGetters in_time = record {
    distinct = released-IsGetters.distinct;
    waiting = released-IsGetters.waiting;
    once = Distinct-snoc s g v.once not_signalled;
    pending = All-append _ s (g ∷ []) released-IsGetters.pending (
      subst IsPending (sym (set_self (set l.at g (shared (l.at g))) g _))
          (record { sole = omega (arith, first_waits.sole); in_time = in_time }),
      tt,
    );
    apart =
        All-append _ s (g ∷ []) released-IsGetters.apart ((subst Distinct first v.distinct).0, tt);
  }
