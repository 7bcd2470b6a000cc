-- ===== src/Net/Connection.antt =====
-- What gateway/tcp_transport.c relies on in `recv` and `send`, on a connection that does not break: a
-- call moves a part of the bytes, in order, or is interrupted and has moved none. `patience` bounds how
-- often the calls on a connection may still be interrupted, or take nothing.
use carplay_poc.Base.{ℕ, ◌≤◌, ◌<◌, ◌≡◌, ◌⊎◌, List, [], ◌++◌, length, take}
use carplay_poc.Net.{Received, Sent}

pub record IsReceiving {Net : Type 0} (recv : Net → ℕ → Received × Net) : Type 0 where
  -- the bytes that are still to come before the end of the stream
  pub incoming : Net → List ℕ
  pub patience : Net → ℕ
  pub receives :
      (net : Net) (len : ℕ)
      → 0 < len
      → let (n, net') = recv net len in
        ((bs : List ℕ) × (n ≡ Received.received bs)
          × (length bs ≤ len)
          × ((bs ≡ []) → incoming net ≡ [])
          × (incoming net ≡ bs ++ incoming net')
          × (patience net' ≤ patience net))
        ⊎ ((n ≡ Received.interrupted)
            × (incoming net' ≡ incoming net)
            × (patience net' < patience net))

pub record IsSending {Net : Type 0} (send : Net → List ℕ → Sent × Net) : Type 0 where
  -- the bytes that the connection has taken so far
  pub outgoing : Net → List ℕ
  pub patience : Net → ℕ
  pub sends :
      (net : Net) (bs : List ℕ)
      → 0 < length bs
      → let (n, net') = send net bs in
        ((k : ℕ) × (n ≡ Sent.sent k)
          × (k ≤ length bs)
          × (outgoing net' ≡ outgoing net ++ take k bs)
          × (patience net' ≤ patience net)
          × ((k ≡ 0) → patience net' < patience net))
        ⊎ ((n ≡ Sent.interrupted) × (outgoing net' ≡ outgoing net) × (patience net' < patience net))
