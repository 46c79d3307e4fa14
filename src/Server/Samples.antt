-- ===== src/Server/Samples.antt =====
-- A system that keeps the messages put, and what is sent to its server.
use queue_c.Base.{ℕ, false, Option, none, some, List, [], ◌∷◌, ℤ, pos}
use queue_c.Message.{Message}
use queue_c.Server.{Service, Work}
use queue_c.Socket.{Socket}
use queue_c.Thread.{timeout}

abbrev get_first : List Message → Option (Option Message × ℤ × List Message)
get_first [] = some (none, timeout, [])
get_first (m ∷ ms) = some (some m, pos 0, ms)

abbrev pub keeper : Service (List Message)
keeper = record {
  putmsg = λ ms qname m wait_msec err. some (pos 0, err, m ∷ ms);
  getmsg = λ ms qname wait_msec err. get_first ms;
}

abbrev pub message : Message
message = record {
  priority = pos 3;
  persist_id = pos 0;
  buff_len = pos 2;
  buff_flag = 0;
  buff = some 7;
}

-- A connection on which bytes arrive.
abbrev pub connection : List ℕ → (capacity : ℕ) → Socket
connection bytes capacity = record {
  incoming = bytes ∷ [];
  is_broken = false;
  capacity = capacity;
  sent = [];
}

abbrev pub work : List Message → Socket → Work (List Message)
work system socket = record {
  system = system;
  memory = λ a. 5 ∷ 6 ∷ [];
  next = 0;
  socket = socket;
  err = pos 0;
}

-- A buffer of 32 bytes.
abbrev pub buffer : List ℕ
buffer = 113 ∷ 0 ∷ 0 ∷ 0 ∷ 0 ∷ 0 ∷ 0 ∷ 0 ∷ 0 ∷ 0 ∷ 0 ∷ 0 ∷ 0 ∷ 0 ∷ 0 ∷ 0 ∷ rest
  where
    rest : List ℕ
    rest = 0 ∷ 0 ∷ 0 ∷ 0 ∷ 0 ∷ 0 ∷ 0 ∷ 0 ∷ 0 ∷ 0 ∷ 0 ∷ 0 ∷ 0 ∷ 0 ∷ 0 ∷ 0 ∷ []
