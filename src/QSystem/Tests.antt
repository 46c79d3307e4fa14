-- ===== src/QSystem/Tests.antt =====
-- Runs of the system on concrete inputs.
use queue_c.Base.{
  ℕ, ◌≡◌, ◌≢◌, ◌↔◌, refl, false, none, some, List, [], ◌∷◌, arith, if◌then◌else◌, ℤ, pos, failed,
}
use queue_c.HashKey.{hashstring, strcompare, string_loop, absorb, tolower}
use queue_c.HashTable.{find, find_in}
use queue_c.Message.{Message}
use queue_c.Putters
use queue_c.Putters.{Putter}
use queue_c.Queue.{Outcome, returns, msgput}
use queue_c.Queue.Inv.{IsQueue}
use queue_c.Queue.Put.{Taken}
use queue_c.Queue.Steps.{created, created-IsTraced}
use queue_c.QSystem.{
  QManager, addqueue, delqueue, getqueue, QSystem, qsys_addqueue, qsys_putmsg, qsys_getmsg,
  queue_notexist,
}
use queue_c.QSystem.Names.{IsManager, same_name, addqueue-getqueue, delqueue-getqueue}
use queue_c.QSystem.Messages.{addqueue-putmsg, messages-missing}

-- A system with no queue.
abbrev no_queues : QManager
no_queues = record {
  queue_table = record {
    buckets = λ _. [];
    bucket_count = 1000;
    entry_count = 0;
    cur_bucket_no = 0;
    cur_entry = [];
    hash = hashstring;
    compare = strcompare;
    destroys = false;
  };
}

no_queues-IsManager : IsManager no_queues
no_queues-IsManager = record { hash = refl; compare = refl; bucket_count = refl }

-- "a", "A" and "b".
abbrev name_a : List ℕ
name_a = 97 ∷ []

abbrev name_b : List ℕ
name_b = 98 ∷ []

added_gets :
    (m : QManager) × (addqueue no_queues name_a 5 ≡ some (pos 0, m))
    × IsManager m
    × ((b : List ℕ)
        → getqueue m b ≡ (if same_name name_a b then some (some 5) else getqueue no_queues b))
added_gets = addqueue-getqueue no_queues no_queues-IsManager name_a 5

apart : same_name name_a name_b ≡ false
unfolding strcompare tolower
apart = refl

delqueue-getqueue_example :
    (r : ℤ) × (m : QManager) × (delqueue no_queues name_a ≡ some (r, m))
    × IsManager m
    × (getqueue m name_b ≡ getqueue no_queues name_b)
    × ((r ≡ pos 0) ↔ (getqueue no_queues name_a ≡ some none))
    × ((r ≡ failed) ↔ (getqueue no_queues name_a ≢ some none))
delqueue-getqueue_example = delqueue-getqueue no_queues no_queues-IsManager name_a name_b apart

abbrev note : Message
note = record {
  priority = pos 1;
  persist_id = pos 0;
  buff_len = pos 4;
  buff_flag = 0;
  buff = some 9;
}

abbrev nobody : ℕ → Putter
nobody _ = record {
  message = note;
  priority = pos 0;
  is_timedout = false;
  entry = false;
  ref_count = 0;
}

abbrev system : QSystem
system = record { manager = no_queues; queues = λ _. (created 0 0 nobody).queue }

addqueue-putmsg_example :
    (s1 s2 : QSystem) × (r : Outcome ℤ) × (qsys_addqueue system name_a 5 ≡ some (pos 0, s1))
    × (qsys_putmsg s1 name_a note 3 ≡ some (r, s2))
    × (msgput (created 0 0 nobody).queue note 3 ≡ some (r, s2.queues 5))
    × IsQueue (s2.queues 5)
    × Taken (created 0 0 nobody).queue note 3 r (s2.queues 5)
    × ((b : ℕ) → b ≢ 5 → s2.queues b ≡ (created 0 0 nobody).queue)
unfolding Putters.create
addqueue-putmsg_example =
    addqueue-putmsg system name_a 5 note 3 0 no_queues-IsManager (created-IsTraced 0 0 nobody).queue
      refl (omega arith) refl

no_queue_a : getqueue no_queues name_a ≡ some none
unfolding getqueue find find_in hashstring string_loop absorb tolower
no_queue_a = refl

missing_queue :
    (qsys_putmsg system name_a note 3 ≡ some (returns queue_notexist, system))
    × (qsys_getmsg system name_a 4 ≡ some (returns none, system))
missing_queue = messages-missing system name_a note 3 4 no_queue_a
