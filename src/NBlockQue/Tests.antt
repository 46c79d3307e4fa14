-- ===== src/NBlockQue/Tests.antt =====
-- Runs of the index queue, and its theorems at concrete queues.
use queue_c.Base.{◌≡◌, refl, some, List, [], ◌∷◌, arith, pos}
use queue_c.StaticList.{detached}
use queue_c.Fifo
use queue_c.Fifo.{Op, Reply, stored, full, got, empty}
use queue_c.NBlockQue.{NBlockQue, run}
use queue_c.NBlockQue.Refine.{IsQue, run-Fifo}

-- Two slots: slot 0 holds 70, slot 1 is free.
abbrev one_queued : NBlockQue
one_queued = record {
  lst_free = record {
    head = pos 1;
    tail = pos 1;
    limit = pos 2;
    num = pos 1;
    cells = λ _. detached;
    size = 2;
  };
  lst_used = record {
    head = pos 0;
    tail = pos 0;
    limit = pos 2;
    num = pos 1;
    cells = λ _. detached;
    size = 2;
  };
  buff = λ _. 70;
  limit = pos 2;
}

one_queued-IsQue : IsQue 2 one_queued (1 ∷ []) (0 ∷ [])
one_queued-IsQue = record {
  free_rep = record {
    links = (refl, refl, tt);
    head = refl;
    tail = refl;
    num = refl;
    limit = refl;
    inside = omega arith;
    distinct = omega arith;
  };
  used_rep = record {
    links = (refl, refl, tt);
    head = refl;
    tail = refl;
    num = refl;
    limit = refl;
    inside = omega arith;
    distinct = omega arith;
  };
  free_size = refl;
  used_size = refl;
  apart = omega arith;
  total = refl;
}

abbrev calls : List Op
calls = Op.put 5 ∷ Op.put 6 ∷ Op.get ∷ Op.get ∷ Op.get ∷ []

run-Fifo_example : run one_queued calls ≡ some (stored ∷ full ∷ got 70 ∷ got 5 ∷ empty ∷ [])
unfolding Fifo.run
run-Fifo_example = run-Fifo 2 one_queued (1 ∷ []) (0 ∷ []) calls one_queued-IsQue
