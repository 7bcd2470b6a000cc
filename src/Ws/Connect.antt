-- ===== src/Ws/Connect.antt =====
-- gateway/ws_upstream_client.c: `ws_upstream_connect`. `tcp_connect` is `tcp_transport_connect`: whether there is a
-- socket, and the network then.
use carplay_poc.Base.{
  ℕ, zero, suc, ◌+◌, ◌-◌, Bool, not, Option, none, some, List, [], ◌∷◌, ◌++◌, ◌==◌, ltb, leb,
  if◌then◌else◌, length, Status, ok, failed,
}
use carplay_poc.Handshake.{incomplete, refused, accepted, read_answer, upgrade_request}
use carplay_poc.Net.{Received, Sent}
use carplay_poc.Ws.{Client, write_ok, ws_close}

-- What waiting for the answer comes to.
pub data Reached : Type 0 where
  opened : List ℕ → Reached
  turned_down unfinished : Reached

abbrev pub response_size : ℕ
response_size = 4096

abbrev pub request_size : ℕ
request_size = 512

-- `memset (client, 0, sizeof (*client))`, and the descriptor set
abbrev pub cleared : {Net : Type 0} → Net → Client Net
cleared net = record { net = net; prebuffer = none; prebuffer_len = 0; prebuffer_off = 0 }

module _ {Net : Type 0} (recv : Net → ℕ → Received × Net) where
  -- the loop over `recv`, with the bytes in `response`
  unfoldable pub await_answer : ℕ → List ℕ → Net → Reached × Net
  await_answer zero response net = (unfinished, net)
  await_answer (suc fuel) response net =
      let (n, net') = recv net (response_size - length response - 1) in
      let turn = elim n as (λ _. Reached × Net) [
        | Received.received [] ↦ (turned_down, net')
        | Received.received (b ∷ bs) ↦ elim (read_answer (response ++ b ∷ bs)) [
          | incomplete ↦ await_answer fuel (response ++ b ∷ bs) net'
          | refused ↦ (turned_down, net')
          | accepted extra ↦ (opened extra, net')
        ]
        | Received.interrupted ↦ await_answer fuel response net'
        | Received.broken ↦ (turned_down, net')
      ] in
      if ltb (length response + 1) response_size then turn else (turned_down, net)

  module _ (send : Net → List ℕ → Sent × Net) (tcp_connect : List ℕ → ℕ → Net → Bool × Net)
      (shutdown_close : Net → Net) (fuel : ℕ) (allocated : ℕ → Bool) where
    -- the client once the answer is there
    unfoldable pub keep_extra : List ℕ → Net → Status × Client Net
    keep_extra extra net =
        let w = cleared net in
        if length extra == 0
        then (ok, w)
        else if not (allocated (length extra))
        then (failed, ws_close shutdown_close w)
        else (ok, record w { prebuffer = some extra; prebuffer_len = length extra })

    -- `ws_upstream_connect` on a non-null client
    unfoldable pub ws_connect :
        Option (List ℕ) → ℕ → Option (List ℕ) → Client Net → Status × Client Net
    unfolding await_answer keep_extra
    ws_connect none port path w = (failed, w)
    ws_connect (some host) port path w =
        let (has_socket, net) = tcp_connect host port w.net in
        let request =
          upgrade_request (elim path as (λ _. List ℕ) [ none ↦ b'/' ∷ [] | some p ↦ p ]) host
            port in
        let (rc, net₁) = write_ok send fuel request net in
        let (reached, net₂) = await_answer fuel [] net₁ in
        if not has_socket
        then (failed, cleared net)
        else if leb request_size (length request)
        then (failed, ws_close shutdown_close (cleared net))
        else elim rc [
          | failed ↦ (failed, ws_close shutdown_close (cleared net₁))
          | ok ↦ elim reached [
            | opened extra ↦ keep_extra extra net₂
            | turned_down ↦ (failed, ws_close shutdown_close (cleared net₂))
            | unfinished ↦ (failed, cleared net₂)
          ]
        ]
