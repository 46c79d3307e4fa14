-- ===== src/QSystem.antt =====
-- src/qc_qsys/qc_qmanager.c and qc_qsystem.c: the queues of a server, in a table by name.
pub mod Names
pub mod Messages
mod Tests
use queue_c.Base.{
  ℕ, zero, suc, Bool, true, false, not, Option, none, some, List, [], ◌∷◌, if◌then◌else◌, ◌==◌,
  ◌>>=◌, ◌>>◌, assert, ℤ, pos, failed, eqb_ℤ,
}
use queue_c.DynList.{set}
use queue_c.HashKey.{hashstring, strcompare}
use queue_c.HashTable.{HashTable, Entry}
use queue_c.HashTable
use queue_c.Message.{Message}
use queue_c.Queue.{Queue, Outcome, returns, waits, msgput, msgget}

-- The table holds addresses of queues. Its keys are names by value; the code keeps the pointer of
-- the caller, whose string is taken to stay as it is.
pub record QManager : Type 0 where
  pub queue_table : HashTable (List ℕ) ℕ

-- Memory and the lock are always given.
unfoldable pub create : Option QManager
create = do
  t ← HashTable.create 1000 true true hashstring strcompare false
  some (record { queue_table = t })

unfoldable pub addqueue : QManager → List ℕ → ℕ → Option (ℤ × QManager)
addqueue m qname queue = do
  (ret, t) ← HashTable.insert m.queue_table qname queue
  some (if not (eqb_ℤ ret (pos 0)) then failed else pos 0, record { queue_table = t })

unfoldable pub delqueue : QManager → List ℕ → Option (ℤ × QManager)
delqueue m qname = do
  (ret, gone, t) ← HashTable.delete m.queue_table qname
  some (if not (eqb_ℤ ret (pos 0)) then failed else pos 0, record { queue_table = t })

-- `none` inside is NULL.
unfoldable pub getqueue : QManager → List ℕ → Option (Option ℕ)
getqueue m qname = HashTable.find m.queue_table qname

-- The queues that `enumnext` gives, `rounds` of them at most: those that are destroyed.
unfoldable pub destroy_loop : (rounds : ℕ) → HashTable (List ℕ) ℕ → List ℕ
destroy_loop zero t = []
destroy_loop (suc rounds) t =
    let (queue, t') = HashTable.enumnext t in
    let later = destroy_loop rounds t' in elim queue [ none ↦ [] | some q ↦ q ∷ later ]

unfoldable pub destroy : (rounds : ℕ) → QManager → List ℕ
destroy rounds m = destroy_loop rounds (HashTable.enumbegin m.queue_table)

-- The system, with the queues at their addresses.
pub record QSystem : Type 0 where
  pub manager : QManager
  pub queues : ℕ → Queue

unfoldable pub qsys_addqueue : QSystem → List ℕ → ℕ → Option (ℤ × QSystem)
qsys_addqueue s qname queue = do
  (ret, m) ← addqueue s.manager qname queue
  some (if not (eqb_ℤ ret (pos 0)) then failed else pos 0, record s { manager = m })

unfoldable pub qsys_delqueue : QSystem → List ℕ → Option (ℤ × QSystem)
qsys_delqueue s qname = do
  (ret, m) ← delqueue s.manager qname
  some (if not (eqb_ℤ ret (pos 0)) then failed else pos 0, record s { manager = m })

unfoldable pub qsys_queue_get : QSystem → List ℕ → Option (Option ℕ)
qsys_queue_get s qname = getqueue s.manager qname

-- QC_ERR_QUEUE_NOTEXIST.
abbrev pub queue_notexist : ℤ
queue_notexist = pos 40

unfoldable pub qsys_putmsg : QSystem → List ℕ → Message → (p : ℕ) → Option (Outcome ℤ × QSystem)
qsys_putmsg s qname message p = do
  queue ← getqueue s.manager qname
  elim queue [
    | none ↦ some (returns queue_notexist, s)
    | some a ↦ (do
      (ret, q) ← msgput (s.queues a) message p
      some (ret, record s { queues = set s.queues a q }))
  ]

unfoldable pub qsys_getmsg :
    QSystem → List ℕ → (g : ℕ) → Option (Outcome (Option Message) × QSystem)
qsys_getmsg s qname g = do
  queue ← getqueue s.manager qname
  elim queue [
    | none ↦ some (returns none, s)
    | some a ↦ (do
      (ret, q) ← msgget (s.queues a) g
      some (ret, record s { queues = set s.queues a q }))
  ]
