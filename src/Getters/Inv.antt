-- ===== src/Getters/Inv.antt =====
-- The invariant of the getters, and every operation on them.
use queue_c.Base.{
  ℕ, ◌-◌, ◌≡◌, ◌≢◌, ◌<◌, refl, sym, subst, inl, inr, true, false, some, List, [], ◌∷◌, ◌++◌, arith,
  lt→ltb, Bool-cases, All, All-append, All-at, All-imp, All-both, NotIn, Distinct, IsIn, ℤ, pos,
  failed, ◌⊎◌,
}
use queue_c.DynList.{set}
use queue_c.Getters.{
  Getter, GettersList, getter_create, getter_destroy, push, erase, remove, expire,
}
use queue_c.Getters.Held.{
  set_self, All-set, All-set_any, All-erase, Distinct-erase, NotIn-erase, NotIn-differs,
  Distinct-snoc,
}

-- A getter on the list: its thread alone holds it, and if it has not timed out, `E` holds.
pub record IsWaiting (E : Type 0) (o : Getter) : Type 0 where
  pub sole : o.ref_count ≡ 1
  pub listed : o.entry ≡ true
  pub live : o.is_timedout ≡ false → E

-- A getter that has been signalled.
pub record IsPending (o : Getter) : Type 0 where
  pub sole : o.ref_count ≡ 1
  pub in_time : o.is_timedout ≡ false

pub record IsGetters (E : Type 0) (l : GettersList) (signalled : List ℕ) : Type 0 where
  pub distinct : Distinct l.waiting
  pub waiting : All (λ g. IsWaiting E (l.at g)) l.waiting
  pub once : Distinct signalled
  pub pending : All (λ g. IsPending (l.at g)) signalled
  pub apart : All (λ g. NotIn g l.waiting) signalled

-- Where no getter in time waits, nothing is asked.
pub IsGetters-imp :
    (E F : Type 0) (l : GettersList) (s : List ℕ) → (E → F) → IsGetters E l s → IsGetters F l s
IsGetters-imp E F l s f v = record {
  distinct = v.distinct;
  waiting =
      All-imp _ _ l.waiting
        (λ g w. record { sole = w.sole; listed = w.listed; live = λ e. f (w.live e) }) v.waiting;
  once = v.once;
  pending = v.pending;
  apart = v.apart;
}

module _ (E : Type 0) (l : GettersList) (s : List ℕ) (v : IsGetters E l s) where
  not_waiting : (g : ℕ) → (l.at g).ref_count ≢ 1 → NotIn g l.waiting
  not_waiting g n = NotIn-differs (λ o. IsWaiting E o) l.at g l.waiting v.waiting (λ w. n w.sole)

  not_pending : (g : ℕ) → ¬ IsPending (l.at g) → NotIn g s
  not_pending g n = NotIn-differs IsPending l.at g s v.pending n

  -- The object of a getter that is neither listed nor signalled may change.
  IsGetters-set :
      (g : ℕ) (o : Getter)
      → NotIn g l.waiting
      → NotIn g s
      → IsGetters E (record l { at = set l.at g o }) s
  IsGetters-set g o n m = record {
    distinct = v.distinct;
    waiting = All-set (λ _ x. IsWaiting E x) l.at g o l.waiting n v.waiting;
    once = v.once;
    pending = All-set (λ _ x. IsPending x) l.at g o s m v.pending;
    apart = v.apart;
  }

  -- A new getter joins the list.
  pub push-IsGetters :
      (g : ℕ)
      → (l.at g).ref_count ≡ 0
      → E
      → (l' : GettersList) × (push (getter_create l g) g ≡ some l') × IsGetters E l' s
  unfolding push getter_create
  push-IsGetters g e h =
      let n : NotIn g l.waiting = not_waiting g (λ q. omega arith) in
      let m : NotIn g s = not_pending g (λ q. omega (arith, q.sole)) in
      let o : Getter = record { is_timedout = false; entry = false; ref_count = 1 } in
      (
        record {
          waiting = l.waiting ++ (g ∷ []);
          at = set (set l.at g o) g (record o { entry = true });
        },
        rw (set_self l.at g o),
        record {
          distinct = Distinct-snoc l.waiting g v.distinct n;
          waiting =
              All-append _ l.waiting (g ∷ [])
                (All-set (λ _ x. IsWaiting E x) _ g _ l.waiting n
                  (All-set (λ _ x. IsWaiting E x) l.at g o l.waiting n v.waiting))
                (
                  subst (IsWaiting E) (sym (set_self (set l.at g o) g _))
                      (record { sole = refl; listed = refl; live = λ _. h }),
                  tt,
                );
          once = v.once;
          pending =
              All-set (λ _ x. IsPending x) _ g _ s m
                (All-set (λ _ x. IsPending x) l.at g o s m v.pending);
          apart =
              All-imp _ _ s (λ x p. All-append _ l.waiting (g ∷ []) p.0 (λ q. p.1 (sym q), tt))
                (All-both _ _ s v.apart m);
        },
      )

  -- A getter that has been signalled is released.
  pub woken-IsGetters :
      (g : ℕ)
      → IsIn g s
      → (l' : GettersList) × (getter_destroy l g ≡ some l') × IsGetters E l' (erase g s)
  unfolding getter_destroy
  woken-IsGetters g i =
      let p : IsPending (l.at g) = All-at (λ x. IsPending (l.at x)) s g v.pending i in
      (
        record l { at = set l.at g (record (l.at g) { ref_count = (l.at g).ref_count - 1 }) },
        rw (lt→ltb 0 (l.at g).ref_count (omega (arith, p.sole))),
        record {
          distinct = v.distinct;
          waiting =
              All-set (λ _ x. IsWaiting E x) l.at g _ l.waiting
                (All-at (λ x. NotIn x l.waiting) s g v.apart i) v.waiting;
          once = Distinct-erase g s v.once;
          pending =
              All-set (λ _ x. IsPending x) l.at g _ (erase g s) (NotIn-erase g s v.once)
                (All-erase _ g s v.pending);
          apart = All-erase _ g s v.apart;
        },
      )

  still_held : (g : ℕ) → IsIn g l.waiting ⊎ IsIn g s → (l.at g).ref_count ≡ 1
  still_held g (inl i) = (All-at (λ x. IsWaiting E (l.at x)) l.waiting g v.waiting i).sole
  still_held g (inr i) = (All-at (λ x. IsPending (l.at x)) s g v.pending i).sole

  -- A getter that waits, signalled or not, times out.
  pub expire-IsGetters :
      (g : ℕ)
      → IsIn g l.waiting ⊎ IsIn g s
      → (l' : GettersList) × (expire l g ≡ some l') × IsGetters E l' (erase g s)
  unfolding expire
  expire-IsGetters g i = (
    record l { at = set l.at g (record (l.at g) { is_timedout = true }) },
    rw (lt→ltb 0 (l.at g).ref_count (omega (arith, still_held g i))),
    record {
      distinct = v.distinct;
      waiting =
          All-set_any (λ _ x. IsWaiting E x) l.at g _ l.waiting
            (λ w. record { sole = w.sole; listed = w.listed; live = λ e. cc }) v.waiting;
      once = Distinct-erase g s v.once;
      pending =
          All-set (λ _ x. IsPending x) l.at g _ (erase g s) (NotIn-erase g s v.once)
            (All-erase _ g s v.pending);
      apart = All-erase _ g s v.apart;
    },
  )

  -- The getter `g` taken off the list.
  erased-IsGetters : (g : ℕ) → IsGetters E (record l { waiting = erase g l.waiting }) s
  erased-IsGetters g = record {
    distinct = Distinct-erase g l.waiting v.distinct;
    waiting = All-erase _ g l.waiting v.waiting;
    once = v.once;
    pending = v.pending;
    apart = All-imp _ _ s (λ x n. All-erase _ g l.waiting n) v.apart;
  }

-- A destroyed object that is neither listed nor signalled is of no concern.
dropped-IsGetters :
    (E : Type 0) (l : GettersList) (s : List ℕ) (g : ℕ)
    → IsGetters E l s
    → 0 < (l.at g).ref_count
    → NotIn g l.waiting
    → NotIn g s
    → (l' : GettersList) × (getter_destroy l g ≡ some l') × IsGetters E l' s
unfolding getter_destroy
dropped-IsGetters E l s g v h n m = (
  record l { at = set l.at g (record (l.at g) { ref_count = (l.at g).ref_count - 1 }) },
  rw (lt→ltb 0 (l.at g).ref_count h),
  IsGetters-set E l s v g _ n m,
)

-- The thread of a getter that has timed out leaves.
pub leaves-IsGetters :
    (E : Type 0) (l : GettersList) (s : List ℕ)
    → IsGetters E l s
    → (g : ℕ) → 0 < (l.at g).ref_count
    → (l.at g).is_timedout ≡ true
    → (r : ℤ) × (l' l'' : GettersList) × (remove l g ≡ some (r, l'))
      × (getter_destroy l' g ≡ some l'')
      × IsGetters E l'' s
unfolding remove
leaves-IsGetters E l s v g held late =
    let m : NotIn g s = not_pending E l s v g (λ p. cc (p.in_time, late)) in
    elim (Bool-cases (l.at g).entry) [
      | inl listed ↦
          let l' : GettersList = record l { waiting = erase g l.waiting } in
          let (l'', e, w) =
            dropped-IsGetters E l' s g (erased-IsGetters E l s v g) held
              (NotIn-erase g l.waiting v.distinct) m in
          (pos 0, l', l'', rw (lt→ltb 0 (l.at g).ref_count held, listed), e, w)
      | inr gone ↦
          let n : NotIn g l.waiting =
            NotIn-differs (λ o. IsWaiting E o) l.at g l.waiting v.waiting
              (λ w. cc (w.listed, gone)) in
          let (l'', e, w) = dropped-IsGetters E l s g v held n m in
          (failed, l, l'', rw (lt→ltb 0 (l.at g).ref_count held, gone), e, w)
    ]
