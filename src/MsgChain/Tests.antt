-- ===== src/MsgChain/Tests.antt =====
-- Runs of the message chain, and its theorems at concrete chains.
use queue_c.Base.{
  sum, ℕ, zero, suc, ◌≡◌, ◌≢◌, ◌↔◌, refl, Option, none, some, [], ◌∷◌, ◌>>=◌, pos, arith,
}
use queue_c.Message.{Message}
use queue_c.MsgChain.{
  MsgChain, fresh, update, take_from, create, pushmsg, popmsg, forcepush, pass, second_pass, locate,
}
use native.Mathlib.Decide.{ℕ_discrete}
use queue_c.MsgChain.Inv.{IsChain, update_other, fresh-IsChain, pushed, pushed-IsChain}
use queue_c.MsgChain.Pop.{Pops, popmsg-Pops}
use queue_c.MsgChain.Turns.{IsStuck}
use queue_c.MsgChain.Stuck.{popmsg-none_iff, popmsg-returns}
use queue_c.MsgChain.Force.{Evicts, forcepush-Evicts}

abbrev message : ℕ → Message
message p = record {
  priority = pos p;
  persist_id = pos 0;
  buff_len = pos 0;
  buff_flag = 0;
  buff = none;
}

push_many : ℕ → ℕ → MsgChain → Option MsgChain
push_many zero p c = some c
push_many (suc n) p c = do (_, d) ← pushmsg c (message p); push_many n p d

pop_many : ℕ → MsgChain → Option MsgChain
pop_many zero c = some c
pop_many (suc n) c = do (_, d) ← popmsg c; pop_many n d

-- Ten messages of priority 3 and ten of priority 2, on a chain of three priorities.
crowded : Option MsgChain
crowded = do c ← create (pos 100) (pos 3); d ← push_many 10 3 c; push_many 10 2 d

counts : Option MsgChain → Option (ℕ × ℕ × ℕ)
counts o = do c ← o; some (c.msg_count, (c.buckets 1).pop_counter, (c.buckets 2).pop_counter)

-- After eleven pops nine messages are left, and both buckets have had their turns.
eleven_pops : counts (crowded >>= pop_many 11) ≡ some (9, 2, 3)
unfolding counts crowded create push_many pushmsg pop_many popmsg pass second_pass locate
eleven_pops = refl

-- The twelfth pop stops the program.
twelve_pops : counts (crowded >>= pop_many 12) ≡ none
unfolding counts crowded create push_many pushmsg pop_many popmsg pass second_pass locate
twelve_pops = refl

-- One message, of priority 1, and room for another.
abbrev one_message : MsgChain
one_message = pushed (fresh 2 3) (message 1) 0

one_message-IsChain : IsChain one_message
one_message-IsChain =
    pushed-IsChain (fresh 2 3) (message 1) 0 (fresh-IsChain 2 2) refl (omega arith) (omega arith)

-- Full: a message of priority 1 and one of priority 3.
abbrev two_messages : MsgChain
two_messages = pushed one_message (message 3) 2

two_messages-IsChain : IsChain two_messages
two_messages-IsChain =
    pushed-IsChain one_message (message 3) 2 one_message-IsChain refl (omega arith) (omega arith)

-- Both messages are in buckets that have had their turns.
abbrev no_turn : MsgChain
no_turn = record (fresh 4 3) {
  msg_count = 2;
  buckets =
      update (update (fresh 4 3).buckets 1 (record { msgs = message 2 ∷ []; pop_counter = 2 })) 2
        (record { msgs = message 3 ∷ []; pop_counter = 3 });
  cursor = 2;
}

forcepush-Evicts_example : Evicts two_messages (message 2) 1 (forcepush two_messages (message 2))
forcepush-Evicts_example =
    forcepush-Evicts two_messages (message 2) 1 two_messages-IsChain refl (omega arith)
      (omega arith) (omega arith)

-- The message of priority 3 goes first.
abbrev popped_one : MsgChain
popped_one = (take_from two_messages 2 1).1

two_messages-popped : popmsg two_messages ≡ some (some (message 3), popped_one)
unfolding popmsg pass locate
two_messages-popped = refl

popmsg-Pops_example :
    Pops (record two_messages { cursor = 2 }) popped_one (some (message 3)) × IsChain popped_one
popmsg-Pops_example =
    popmsg-Pops two_messages popped_one (some (message 3)) two_messages-IsChain two_messages-popped

popmsg-returns_example : popmsg two_messages ≢ none
popmsg-returns_example = popmsg-returns two_messages two_messages-IsChain (omega arith)

no_turn-IsChain : IsChain no_turn
unfolding sum
no_turn-IsChain = record {
  cursor_in = omega arith;
  counted = refl;
  limited = omega arith;
  above = λ k h. ground arith;
  turns = λ k. ground arith;
  placed = λ k. elim (ℕ_discrete k 1) [
    | yes e ↦ rw e (refl, tt)
    | no ne ↦ elim (ℕ_discrete k 2) [
      | yes e ↦ rw e (refl, tt)
      | no ne' ↦
          rw
            (
              update_other (update (fresh 4 3).buckets 1 _) 2 _ k ne',
              update_other (fresh 4 3).buckets 1 _ k ne,
            )
            tt
    ]
  ];
}

popmsg-none_iff_example : (popmsg no_turn ≡ none) ↔ ((n : ℕ) → IsStuck no_turn n)
popmsg-none_iff_example = popmsg-none_iff no_turn no_turn-IsChain (omega arith)

no_turn-stops : popmsg no_turn ≡ none
unfolding popmsg locate pass second_pass
no_turn-stops = refl
