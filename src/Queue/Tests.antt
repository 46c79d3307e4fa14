-- ===== src/Queue/Tests.antt =====
-- Runs of the queue on concrete inputs.
use queue_c.Base.{
  ℕ, ◌+◌, ◌≡◌, ◌≢◌, ◌≤◌, List, refl, inl, true, false, none, some, [], ◌∷◌, arith, length, ℤ, pos,
  failed,
}
use queue_c.DynList.{set}
use queue_c.Getters.{Getter, getter_create}
use queue_c.Getters
use queue_c.Message.{Message}
use queue_c.MsgChain.{fresh, pushmsg, puttemp, popmsg, locate, pass, take_from}
use queue_c.MsgChain.Inv.{pushed}
use queue_c.Putters.{Putter}
use queue_c.Putters
use queue_c.Putters.Release.{released}
use queue_c.Queue.{
  pop_putter, Queue, Outcome, returns, waits, msgput, msgget, pop_getter, getter_woken,
  getter_expires, getter_leaves, putter_expires, putter_leaves,
}
use queue_c.Queue.Weights.{weight, held}
use queue_c.Queue.Inv.{IsQueue, stored}
use queue_c.Queue.Put.{Taken, msgput-returns}
use queue_c.Putters.Join.{joined}
use queue_c.Queue.Get.{Gives, msgget-Gives, msgget-returns}
use queue_c.Queue.Waits.{getter_woken-returns}
use queue_c.Queue.Late.{getter_late, putter_late}
use queue_c.Queue.Traces.{Reaches, start, next, puts, gets, IsTraced}
use queue_c.Queue.Steps.{created, created-IsTraced, run-IsTraced}

abbrev message : ℕ → Message
message n = record {
  priority = pos 1;
  persist_id = pos 0;
  buff_len = pos 4;
  buff_flag = 0;
  buff = some n;
}

abbrev nobody : ℕ → Putter
nobody _ = record {
  message = message 0;
  priority = pos 0;
  is_timedout = false;
  entry = false;
  ref_count = 0;
}

abbrev no_asks : ℕ → Message
no_asks _ = message 0

abbrev one_ask : ℕ → Message
one_ask = set no_asks 3 (message 8)

-- A queue for one message.
abbrev empty : Queue
empty = (created 0 0 nobody).queue

empty-IsQueue : IsQueue empty
empty-IsQueue = (created-IsTraced 0 0 nobody).queue

msgput-returns_example :
    (r : Outcome ℤ) × (q : Queue) × (msgput empty (message 9) 3 ≡ some (r, q))
    × IsQueue q
    × Taken empty (message 9) 3 r q
unfolding Putters.create
msgput-returns_example = msgput-returns empty (message 9) 3 0 empty-IsQueue refl (omega arith) refl

-- The queue after a get, which waits as the getter 5.
abbrev getter_waits : Queue
getter_waits = record empty {
  getters = record {
    waiting = 5 ∷ [];
    at =
        set
          (set (λ _. record { is_timedout = false; entry = false; ref_count = 0 }) 5
            (record { is_timedout = false; entry = false; ref_count = 1 }))
          5 (record { is_timedout = false; entry = true; ref_count = 1 });
  };
}

get_waits : msgget empty 5 ≡ some (waits 5, getter_waits)
unfolding msgget Getters.create getter_create Getters.push
get_waits = refl

-- And after a put, which signals it.
abbrev getter_signalled : Queue
getter_signalled = record empty {
  chain = record (fresh 1 1) { temp = message 9 ∷ [] };
  getters = record {
    waiting = [];
    at =
        set
          (set getter_waits.getters.at 5
            (record { is_timedout = false; entry = false; ref_count = 2 }))
          5 (record { is_timedout = false; entry = false; ref_count = 1 });
  };
  signalled_getters = 5 ∷ [];
}

put_signals : msgput getter_waits (message 9) 3 ≡ some (returns (pos 0), getter_signalled)
unfolding msgput pop_getter Getters.pop Getters.getter_destroy puttemp
put_signals = refl

signalled-run :
    Reaches
      (created 0 0 nobody)
      (record { queue = getter_signalled; put = message 9 ∷ []; got = []; asked = no_asks })
unfolding Getters.create Putters.create
signalled-run =
    next (next start (gets 5 (waits 5) getter_waits refl get_waits))
      (puts (message 9) 3 0 (returns (pos 0)) getter_signalled refl (omega arith) refl put_signals)

run-IsTraced_example :
    IsTraced (record { queue = getter_signalled; put = message 9 ∷ []; got = []; asked = no_asks })
run-IsTraced_example =
    run-IsTraced 0 0 nobody
      (record { queue = getter_signalled; put = message 9 ∷ []; got = []; asked = no_asks })
      signalled-run

signalled-IsQueue : IsQueue getter_signalled
signalled-IsQueue =
    (run-IsTraced 0 0 nobody
      (record { queue = getter_signalled; put = message 9 ∷ []; got = []; asked = no_asks })
      signalled-run).queue

getter_woken-returns_example :
    (m : Message) × (q : Queue) × (getter_woken getter_signalled 5 ≡ some (some m, q))
    × IsQueue q
    × (stored q + 1 ≡ 1)
    × (message 9 ∷ [] ≡ m ∷ q.chain.temp)
    × (q.signalled_putters ≡ [])
    × (q.putters ≡ getter_signalled.putters)
    × ((f : Message → ℕ) → held f q + f m ≡ held f getter_signalled)
getter_woken-returns_example = getter_woken-returns getter_signalled signalled-IsQueue 5 (inl refl)

getter_late_example :
    (m : Message) × (ms : List Message) × (q1 q2 : Queue) × (message 9 ∷ [] ≡ m ∷ ms)
    × (getter_expires getter_signalled 5 ≡ some q1)
    × (getter_leaves q1 5 ≡ some (none, q2))
    × IsQueue q2
    × (q2.chain ≡ getter_signalled.chain)
    × (length q2.signalled_getters + 1 ≤ length q2.chain.temp)
getter_late_example = getter_late getter_signalled 5 signalled-IsQueue (inl refl)

-- The queue with a message in it.
abbrev full : Queue
full = record empty { chain = pushed (fresh 1 1) (message 9) 0 }

put_first : msgput empty (message 9) 3 ≡ some (returns (pos 0), full)
unfolding msgput pop_getter pushmsg Getters.create
put_first = refl

full-run :
    Reaches
      (created 0 0 nobody)
      (record { queue = full; put = message 9 ∷ []; got = []; asked = no_asks })
unfolding Putters.create
full-run =
    next start (puts (message 9) 3 0 (returns (pos 0)) full refl (omega arith) refl put_first)

-- And with the thread of a second put waiting as the putter 3.
abbrev putter_waits : Queue
putter_waits = record full { putters = joined full.putters 3 (message 8) 0 }

put_waits : msgput full (message 8) 3 ≡ some (waits 3, putter_waits)
unfolding msgput pop_getter Getters.create Putters.create Putters.push Putters.putter_create
put_waits = refl

waiting-run :
    Reaches
      (created 0 0 nobody)
      (record { queue = putter_waits; put = message 9 ∷ []; got = []; asked = one_ask })
unfolding Putters.create
waiting-run =
    next full-run (puts (message 8) 3 0 (waits 3) putter_waits refl (omega arith) refl put_waits)

waiting-IsQueue : IsQueue putter_waits
waiting-IsQueue =
    (run-IsTraced 0 0 nobody
      (record { queue = putter_waits; put = message 9 ∷ []; got = []; asked = one_ask })
      waiting-run).queue

msgget-Gives_example : Gives putter_waits 5 (msgget putter_waits 5)
unfolding Getters.create
msgget-Gives_example = msgget-Gives putter_waits 5 waiting-IsQueue refl

-- And after a get, which returns the first message and stores the second.
abbrev putter_signalled : Queue
putter_signalled = record putter_waits {
  chain = pushed (take_from (pushed (fresh 1 1) (message 9) 0) 0 1).1 (message 8) 0;
  putters =
      released
        (record putter_waits.putters {
          buckets = set putter_waits.putters.buckets 0 (record { putters = []; pop_counter = 1 });
          putter_count = 0;
          at =
              set putter_waits.putters.at 3
                (record (putter_waits.putters.at 3) { entry = false; ref_count = 2 });
        })
        3;
  signalled_putters = 3 ∷ [];
}

get_signals : msgget putter_waits 5 ≡ some (returns (some (message 9)), putter_signalled)
unfolding msgget popmsg locate pass pushmsg pop_putter Putters.pop Putters.locate Putters.pass
    Putters.putter_destroy Putters.create
get_signals = refl

signalled_putter-run : Reaches (created 0 0 nobody) (record {
  queue = putter_signalled;
  put = message 9 ∷ [];
  got = message 9 ∷ [];
  asked = one_ask;
})
unfolding Getters.create
signalled_putter-run =
    next waiting-run (gets 5 (returns (some (message 9))) putter_signalled refl get_signals)

putter_late_example :
    (q1 q2 : Queue) × (putter_expires putter_signalled 3 ≡ some q1)
    × (putter_leaves q1 3 ≡ some (failed, q2))
    × IsQueue q2
    × (q2.chain ≡ putter_signalled.chain)
    × ((f : Message → ℕ)
        → weight f (message 9 ∷ []) + f (message 8) ≤ held f q2 + weight f (message 9 ∷ []))
putter_late_example =
    putter_late 0 0 nobody
      (record {
        queue = putter_signalled;
        put = message 9 ∷ [];
        got = message 9 ∷ [];
        asked = one_ask;
      })
      3 signalled_putter-run (inl refl)

msgget-returns_example : msgget putter_waits 5 ≢ none
unfolding Getters.create
msgget-returns_example = msgget-returns putter_waits 5 waiting-IsQueue refl refl
