-- ===== src/BlockQue/Tests.antt =====
-- Runs of the block queue, and its theorems at a concrete queue.
use queue_c.Base.{ℕ, ◌≡◌, refl, some, [], ◌∷◌, arith, pos}
use queue_c.StaticList
use queue_c.StaticList.{
  detached, update, invalid, get_head, add_tail, load, store, set_next, set_previous, add_first,
}
use queue_c.NBlockQue.{write_slot}
use queue_c.BlockQue.{
  BlockQue, put, absent, woken, asleep, System, calls_put, calls_get, resumes, result, pointer,
  waits, step, Reaches, start, next,
}
use queue_c.BlockQue.Wake.{IsSystem, resume-pointer, asleep-empty}

-- Two free slots.
abbrev empty_que : BlockQue
empty_que = record {
  ptr_array = λ _. 0;
  limit = pos 2;
  lst_free = record {
    head = pos 0;
    tail = pos 1;
    limit = pos 2;
    num = pos 2;
    cells =
        update (update (λ _. detached) 0 (record { previous = invalid; next = pos 1 })) 1
          (record { previous = pos 0; next = invalid });
    size = 2;
  };
  lst_used = record {
    head = invalid;
    tail = invalid;
    limit = pos 2;
    num = pos 0;
    cells = λ _. detached;
    size = 2;
  };
}

abbrev idle : System
idle = record { que = empty_que; getter = absent }

idle-IsSystem : IsSystem 2 idle
idle-IsSystem = record {
  free = 0 ∷ 1 ∷ [];
  used = [];
  que = record {
    free_rep = record {
      links = (refl, refl, (refl, refl, tt));
      head = refl;
      tail = refl;
      num = refl;
      limit = refl;
      inside = omega arith;
      distinct = omega arith;
    };
    used_rep = record {
      links = tt;
      head = refl;
      tail = refl;
      num = refl;
      limit = refl;
      inside = tt;
      distinct = tt;
    };
    free_size = refl;
    used_size = refl;
    apart = omega arith;
    total = refl;
  };
  waiting = tt;
}

-- A thread that waits, and is woken by the pointer 70.
abbrev sleeping : System
sleeping = record { que = empty_que; getter = asleep }

idle-sleeps : Reaches idle sleeping
unfolding step StaticList.count
idle-sleeps = next calls_get waits start refl

abbrev roused : System
roused = record {
  que = record {
    ptr_array = write_slot empty_que.ptr_array (pos 0) 70;
    limit = pos 2;
    lst_free = record empty_que.lst_free {
      head = pos 1;
      num = pos 1;
      cells =
          update (update empty_que.lst_free.cells 1 (record { previous = invalid; next = invalid }))
            0 detached;
    };
    lst_used = record empty_que.lst_used {
      head = pos 0;
      tail = pos 0;
      num = pos 1;
      cells = update (λ _. detached) 0 detached;
    };
  };
  getter = woken;
}

idle-wakes : Reaches idle roused
unfolding step put get_head add_tail load store set_previous set_next add_first
idle-wakes = next (calls_put 70) (result (pos 0)) idle-sleeps refl

resume-pointer_example : (x : ℕ) × (u : System) × (step roused resumes ≡ some (pointer (some x), u))
resume-pointer_example = resume-pointer 2 idle roused idle-IsSystem idle-wakes refl

asleep-empty_example : StaticList.count sleeping.que.lst_used ≡ pos 0
asleep-empty_example = asleep-empty 2 idle sleeping idle-IsSystem idle-sleeps refl
