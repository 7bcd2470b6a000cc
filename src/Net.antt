-- ===== src/Net.antt =====
-- gateway/tcp_transport.c: reading and writing all of a buffer. `recv` and `send` of the system are
-- parameters over a state `Net` of the network; what is asked of them stands in Net/Connection.antt.
-- The loops run on fuel: a signal may interrupt a call any number of times. The branches for Windows are
-- left out.
pub mod Connection
pub mod Reads
pub mod Writes
use carplay_poc.Base.{
  Bool, true, false, ℕ, zero, suc, ◌+◌, ◌-◌, List, [], ◌∷◌, ◌++◌, ◌==◌, ltb, if◌then◌else◌, length,
  drop,
}

-- What `recv` answers: the bytes, none of them at the end of the stream, or an error.
pub data Received : Type 0 where
  received : List ℕ → Received
  interrupted broken : Received

-- What `send` answers: how many bytes it took, or an error.
pub data Sent : Type 0 where
  sent : ℕ → Sent
  interrupted broken : Sent

-- What a read into a buffer comes to: 1 with the bytes, 0, -1, or no fuel left.
pub data Read : Type 0 where
  got : List ℕ → Read
  closed failed unfinished : Read

-- What a write comes to: 0, -1, or no fuel left.
pub data Written : Type 0 where
  done failed unfinished : Written

-- more bytes in the buffer, before those of the rest of the loop
abbrev pub got_more {ℓ} : {S : Type ℓ} → List ℕ → Read × S → Read × S
got_more bs (Read.got rest, s) = (Read.got (bs ++ rest), s)
got_more bs (Read.closed, s) = (Read.closed, s)
got_more bs (Read.failed, s) = (Read.failed, s)
got_more bs (Read.unfinished, s) = (Read.unfinished, s)

module _ {Net : Type 0} (recv : Net → ℕ → Received × Net) where
  -- `tcp_transport_read_exact`
  unfoldable pub read_exact : ℕ → ℕ → Net → Read × Net
  read_exact fuel zero net = (Read.got [], net)
  read_exact zero (suc len) net = (Read.unfinished, net)
  read_exact (suc fuel) (suc len) net =
      let (n, net') = recv net (suc len) in
      elim n [
        | received [] ↦ (Read.closed, net')
        | received (b ∷ bs) ↦ got_more (b ∷ bs) (read_exact fuel (len - length bs) net')
        | interrupted ↦ read_exact fuel (suc len) net'
        | broken ↦ (Read.failed, net')
      ]

module _ {Net : Type 0} (send : Net → List ℕ → Sent × Net) where
  -- `tcp_transport_write_all`
  unfoldable pub write_all : ℕ → List ℕ → Net → Written × Net
  write_all fuel [] net = (Written.done, net)
  write_all zero (b ∷ bs) net = (Written.unfinished, net)
  write_all (suc fuel) (b ∷ bs) net =
      let (n, net') = send net (b ∷ bs) in
      elim n [
        | sent k ↦ write_all fuel (drop k (b ∷ bs)) net'
        | interrupted ↦ write_all fuel (b ∷ bs) net'
        | broken ↦ (Written.failed, net')
      ]

-- `tcp_transport_peek_status`: 1, 0, 2 or -1, by what `recv` of one byte answers with `MSG_PEEK` and
-- `MSG_DONTWAIT`; `would_block` is whether an error is `EAGAIN` or `EWOULDBLOCK`
pub data PeekStatus : Type 0 where
  readable at_end quiet lost : PeekStatus

unfoldable pub peek_status : Bool → Received → PeekStatus
peek_status would_block (Received.received []) = at_end
peek_status would_block (Received.received (b ∷ bs)) = readable
peek_status would_block Received.interrupted = quiet
peek_status true Received.broken = quiet
peek_status false Received.broken = lost
