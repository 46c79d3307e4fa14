-- ===== src/Socket/Tests.antt =====
-- Connections on concrete bytes.
use queue_c.Base.{ℕ, ◌≡◌, refl, false, some, List, [], ◌∷◌, arith, pos}
use queue_c.Socket.{Socket, stream, tcp_recvall, tcp_send}
use queue_c.Socket.Receive.{tcp_recvall-gets}

-- Four bytes in two segments.
abbrev two_segments : Socket
two_segments = record {
  incoming = (1 ∷ 2 ∷ []) ∷ (3 ∷ 4 ∷ []) ∷ [];
  is_broken = false;
  capacity = 2;
  sent = [];
}

tcp_recvall-gets_example :
    (later : List (List ℕ)) × (tcp_recvall 3 two_segments
      ≡ some (pos 3, 1 ∷ 2 ∷ 3 ∷ [], record two_segments { incoming = later }))
    × (stream later ≡ 4 ∷ [])
tcp_recvall-gets_example =
    tcp_recvall-gets two_segments 3 (1 ∷ 2 ∷ 3 ∷ []) (4 ∷ []) refl (omega arith) refl

sends_two : (tcp_send (7 ∷ 8 ∷ 9 ∷ []) two_segments).0 ≡ pos 2
unfolding tcp_send
sends_two = refl
