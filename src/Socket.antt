-- ===== src/Socket.antt =====
-- src/qc_rt/qc_socket.c: what is sent and received over a connection. The other parts of the file
-- only call the system.
pub mod Receive
pub mod Left
mod Tests
use queue_c.Base.{
  ℕ, zero, suc, ◌+◌, ◌-◌, Bool, true, false, Option, none, some, List, [], ◌∷◌, ◌++◌, if◌then◌else◌,
  ltb, leb, ◌==◌, ℤ, pos, pos_part, failed, is_negative, eqb_ℤ, length,
}

-- A connection: the segments that arrive before its end, and whether it ends by an error and not by
-- the peer's closing it; the number of bytes that it still takes before it breaks, and those sent.
pub record Socket : Type 0 where
  pub incoming : List (List ℕ)
  pub is_broken : Bool
  pub capacity : ℕ
  pub sent : List ℕ

abbrev pub take : ℕ → List ℕ → List ℕ
take zero xs = []
take (suc n) [] = []
take (suc n) (x ∷ xs) = x ∷ take n xs

abbrev pub drop : ℕ → List ℕ → List ℕ
drop zero xs = xs
drop (suc n) [] = []
drop (suc n) (x ∷ xs) = drop n xs

-- The bytes that arrive.
abbrev pub stream : List (List ℕ) → List ℕ
stream [] = []
stream (xs ∷ s) = xs ++ stream s

-- `len` bytes at most of the segment that arrives first, and what arrives later.
abbrev pub recv_from : (len : ℕ) → List (List ℕ) → Option (List ℕ × List (List ℕ))
recv_from len [] = none
recv_from len ([] ∷ s) = recv_from len s
recv_from len ((x ∷ xs) ∷ s) = some (take len (x ∷ xs), drop len (x ∷ xs) ∷ s)

-- `recv` of the system: the number of bytes, 0 at the end of the connection and -1 for an error,
-- and the bytes.
unfoldable pub recv : (len : ℕ) → Socket → ℤ × List ℕ × Socket
recv len s = if len == 0 then (pos 0, [], s) else elim (recv_from len s.incoming) [
  | none ↦ (if s.is_broken then failed else pos 0, [], s)
  | some (bytes, later) ↦ (pos (length bytes), bytes, record s { incoming = later })
]

-- `rcved` has the bytes received so far.
unfoldable pub recvall_loop :
    (rounds len : ℕ) (rcved : List ℕ) → Socket → Option (ℤ × List ℕ × Socket)
recvall_loop zero len rcved s = none
recvall_loop (suc rounds) len rcved s =
    let (bytes, buff, s') = recv (len - length rcved) s in
    let continue = recvall_loop rounds len (rcved ++ buff) s' in
    if is_negative bytes
    then some (failed, rcved, s')
    else if eqb_ℤ bytes (pos 0)
    then some (pos 0, rcved, s')
    else if ltb (length rcved + pos_part bytes) len
    then continue
    else some (pos len, rcved ++ buff, s')

-- A round receives a byte at least, or is the last.
unfoldable pub tcp_recvall : (len : ℕ) → Socket → Option (ℤ × List ℕ × Socket)
tcp_recvall len s = recvall_loop (suc len) len [] s

-- The number of bytes sent, which may be fewer, or -1.
unfoldable pub tcp_send : List ℕ → Socket → ℤ × Socket
tcp_send sendbuf s =
    if leb (length sendbuf) s.capacity
    then (
      pos (length sendbuf),
      record s { capacity = s.capacity - length sendbuf; sent = s.sent ++ sendbuf },
    )
    else if s.capacity == 0
    then (failed, s)
    else (pos s.capacity, record s { capacity = 0; sent = s.sent ++ take s.capacity sendbuf })
