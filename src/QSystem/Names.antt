-- ===== src/QSystem/Names.antt =====
-- The queues that names find.
use queue_c.Base.{
  ℕ, zero, suc, ◌≡◌, ◌≢◌, ◌↔◌, refl, sym, subst, false, Bool, not, Option, none, some, List, arith,
  if◌then◌else◌, ℤ, pos, negsuc, failed, eqb_ℤ,
}
use queue_c.HashKey.{hashstring, strcompare}
use queue_c.HashKey.Strings.{hashstring-IsHashing}
use queue_c.HashTable.{HashTable, Entry, insert, delete, find, same, drop_entry}
use queue_c.HashTable.Lookup.{IsHashing, index_of_lem, insert-find, delete-find}
use queue_c.QSystem.{QManager, addqueue, delqueue, getqueue}

-- The table is the one that `qc_qmng_create` makes, whatever it holds.
pub record IsManager (m : QManager) : Type 0 where
  pub hash : m.queue_table.hash ≡ hashstring
  pub compare : m.queue_table.compare ≡ strcompare
  pub bucket_count : m.queue_table.bucket_count ≡ 1000

manager-IsHashing : (m : QManager) → IsManager m → IsHashing m.queue_table
manager-IsHashing m v =
    hashstring-IsHashing m.queue_table v.hash v.compare (omega (arith, v.bucket_count))

-- Whether two names are the same but for the case of their letters.
abbrev pub same_name : List ℕ → List ℕ → Bool
same_name a b = eqb_ℤ (strcompare a b) (pos 0)

abbrev status : ℤ → ℤ
status r = if not (eqb_ℤ r (pos 0)) then failed else pos 0

status-zero : (r : ℤ) → (status r ≡ pos 0) ↔ (r ≡ pos 0)
status-zero (pos zero) = (λ e. refl, λ e. refl)
status-zero (pos (suc n)) = (λ e. absurd (ground arith), λ e. absurd (ground arith))
status-zero (negsuc n) = (λ e. cc, λ e. cc)

status-failed : (r : ℤ) → (status r ≡ failed) ↔ (r ≢ pos 0)
status-failed (pos zero) = (λ e. cc, λ n. absurd (n refl))
status-failed (pos (suc n)) = (λ e q. ground arith, λ n. ground arith)
status-failed (negsuc n) = (λ e q. cc, λ n. refl)

abbrev Kept : {A : Type 0} → Option (A × HashTable (List ℕ) ℕ) → Type 0
Kept none = Unit
Kept (some (r, t)) = IsManager (record { queue_table = t })

abbrev KeptDelete : Option (ℤ × List (Entry (List ℕ) ℕ) × HashTable (List ℕ) ℕ) → Type 0
KeptDelete none = Unit
KeptDelete (some (r, gone, t)) = IsManager (record { queue_table = t })

module _ (m : QManager) (v : IsManager m) where
  -- The table after an insertion or a deletion is the same but for its entries.
  insert-Kept : (a : List ℕ) (d : ℕ) → Kept (insert m.queue_table a d)
  unfolding insert
  insert-Kept a d =
      rw (index_of_lem m.queue_table (manager-IsHashing m v) a)
        (record { hash = v.hash; compare = v.compare; bucket_count = v.bucket_count })

  drop-IsManager :
      (i : ℕ) (o : Option (Entry (List ℕ) ℕ × List (Entry (List ℕ) ℕ)))
      → IsManager (record { queue_table = (drop_entry m.queue_table i o).2 })
  drop-IsManager i none = v
  drop-IsManager i (some (e, rest)) = record {
    hash = v.hash;
    compare = v.compare;
    bucket_count = v.bucket_count;
  }

  delete-Kept : (a : List ℕ) → KeptDelete (delete m.queue_table a)
  unfolding delete
  delete-Kept a = rw (index_of_lem m.queue_table (manager-IsHashing m v) a) (drop-IsManager _ _)

  -- After a queue is added under a name, the name and those equal to it but for the case of their
  -- letters get it, and every other name gets what it got before; 0 is returned.
  pub addqueue-getqueue :
      (a : List ℕ) (queue : ℕ)
      → (m' : QManager) × (addqueue m a queue ≡ some (pos 0, m'))
        × IsManager m'
        × ((b : List ℕ)
            → getqueue m' b ≡ (if same_name a b then some (some queue) else getqueue m b))
  unfolding addqueue getqueue
  addqueue-getqueue a queue =
      let (t, e, f) = insert-find m.queue_table (manager-IsHashing m v) a queue in
      (
        record { queue_table = t },
        rw e,
        subst Kept e (insert-Kept a queue),
        λ b.
            subst
              (λ (c : List ℕ → List ℕ → ℤ).
                find t b ≡ (if same c a b then some (some queue) else find m.queue_table b))
              v.compare (f b),
      )

  -- `delqueue` of a name leaves what every name that differs in more than the case of letters gets.
  -- It returns 0 if and only if the name had no queue, and -1 if and only if it had one.
  pub delqueue-getqueue :
      (a b : List ℕ)
      → same_name a b ≡ false
      → (r : ℤ) × (m' : QManager) × (delqueue m a ≡ some (r, m'))
        × IsManager m'
        × (getqueue m' b ≡ getqueue m b)
        × ((r ≡ pos 0) ↔ (getqueue m a ≡ some none))
        × ((r ≡ failed) ↔ (getqueue m a ≢ some none))
  unfolding delqueue getqueue
  delqueue-getqueue a b apart =
      let other : same m.queue_table.compare a b ≡ false =
        subst (λ (c : List ℕ → List ℕ → ℤ). same c a b ≡ false) (sym v.compare) apart in
      let (r, gone, t, e, f, none_there) =
        delete-find m.queue_table (manager-IsHashing m v) a b other in
      (
        status r,
        record { queue_table = t },
        rw e,
        subst KeptDelete e (delete-Kept a),
        f,
        (λ z. none_there.0 ((status-zero r).0 z), λ z. (status-zero r).1 (none_there.1 z)),
        (
          λ z g. (status-failed r).0 z (none_there.1 g),
          λ n. (status-failed r).1 (λ z. n (none_there.0 z)),
        ),
      )
