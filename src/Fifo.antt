-- ===== src/Fifo.antt =====
-- The bounded queue that the index queues of src/qc_rt/qc_utils.c promise: at most `room` entries,
-- oldest first.
use queue_c.Base.{ℕ, List, [], ◌∷◌, ◌++◌, if◌then◌else◌, ◌==◌, length}

pub data Op : Type 0 where
  put : ℕ → Op
  get : Op

-- What a client sees of a call.
pub data Reply : Type 0 where
  stored : Reply
  full : Reply
  got : ℕ → Reply
  empty : Reply

abbrev pub step : ℕ → List ℕ → Op → Reply × List ℕ
step room q (put x) = if length q == room then (full, q) else (stored, q ++ (x ∷ []))
step room [] get = (empty, [])
step room (x ∷ q) get = (got x, q)

unfoldable pub run : ℕ → List ℕ → List Op → List Reply
run room q [] = []
run room q (o ∷ ops) = let (r, q') = step room q o in r ∷ run room q' ops
