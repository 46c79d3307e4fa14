-- ===== src/ShmQue/Tests.antt =====
-- The theorems of the shared queue at a concrete queue.
use queue_c.Base.{refl, none, some, [], ◌∷◌, arith, pos}
use queue_c.StaticList.{detached, update, invalid, get_head, load, store}
use queue_c.UnitPool.Units.{Disjoint}
use queue_c.ShmQue.{ShmQue, Layout, Slot, pull_admit, pull_take}
use queue_c.ShmQue.Slots.{IsShm}
use queue_c.ShmQue.Steps.{
  System, IsSystem, Reaches, start, next, admits, takes, IsInside, written-read-Disjoint,
}

abbrev layout : Layout
layout = record { header = 100; cell = 8; off_size = 8 }

-- Three slots of 16 bytes. Slot 0 has a message of 5 bytes, slot 2 is being written, slot 1 is free.
abbrev one_message : ShmQue
one_message = record {
  que_sn = 0;
  que_size = 3;
  msg_size = 16;
  lst_used = record {
    head = pos 0;
    tail = pos 0;
    limit = pos 3;
    num = pos 1;
    cells = λ _. detached;
    size = 3;
  };
  lst_free = record {
    head = pos 1;
    tail = pos 1;
    limit = pos 3;
    num = pos 1;
    cells = λ _. detached;
    size = 3;
  };
  data_offset = 700;
  next_offset = none;
  lengths = λ _. 5;
  sem_que = 1;
}

one_message-IsShm : IsShm one_message (1 ∷ []) (0 ∷ []) (2 ∷ []) [] 0
one_message-IsShm = record {
  free_rep = record {
    links = (refl, refl, tt);
    head = refl;
    tail = refl;
    num = refl;
    limit = refl;
    inside = omega arith;
    distinct = omega arith;
  };
  used_rep = record {
    links = (refl, refl, tt);
    head = refl;
    tail = refl;
    num = refl;
    limit = refl;
    inside = omega arith;
    distinct = omega arith;
  };
  free_size = refl;
  used_size = refl;
  once = λ k. ground arith;
  waiting = refl;
}

-- Slots 2 and 0 as they are handed out.
abbrev slot_2 : Slot
slot_2 = record { idx = 2; buff = 756; bufflen = 16 }

abbrev slot_0 : Slot
slot_0 = record { idx = 0; buff = 708; bufflen = 5 }

abbrev writing : System
writing = record { que = one_message; pushing = slot_2 ∷ []; pulling = []; admitted = 0 }

writing-IsSystem : IsSystem layout writing
writing-IsSystem = record {
  free = 1 ∷ [];
  used = 0 ∷ [];
  slots = one_message-IsShm;
  written = (refl, tt);
  read = tt;
}

abbrev waited : System
waited = record {
  que = record one_message { sem_que = 0 };
  pushing = slot_2 ∷ [];
  pulling = [];
  admitted = 1;
}

writing-waited : Reaches layout writing waited
unfolding pull_admit
writing-waited = next start (admits (record one_message { sem_que = 0 }) refl)

-- Slot 0 is being read, too.
abbrev taken_que : ShmQue
taken_que = record one_message {
  sem_que = 0;
  lst_used = record {
    head = invalid;
    tail = invalid;
    limit = pos 3;
    num = pos 0;
    cells = update (λ _. detached) 0 detached;
    size = 3;
  };
}

abbrev reading : System
reading = record { que = taken_que; pushing = slot_2 ∷ []; pulling = slot_0 ∷ []; admitted = 0 }

writing-reading : Reaches layout writing reading
unfolding pull_take get_head load store
writing-reading = next writing-waited (takes 0 (some slot_0, taken_que) refl refl)

written-read-Disjoint_example :
    Disjoint 24 756 708 × IsInside layout taken_que slot_2 × IsInside layout taken_que slot_0
written-read-Disjoint_example =
    written-read-Disjoint layout writing reading [] [] [] [] slot_2 slot_0 writing-IsSystem
      writing-reading refl refl
