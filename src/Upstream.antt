-- ===== src/Upstream.antt =====
-- ameba_gateway/example_gateway_ameba.c: the board's connection to the server. `lwip_read` and `lwip_write`
-- belong to lwIP and are parameters; a negative result of theirs is `none`, and 0 an empty list or 0.
-- Every turn of a loop moves a byte at least, so that the length of the buffer is fuel enough.
pub mod Frames
pub mod Same
pub mod Receive
pub mod Send
pub mod Connect
pub mod Poll
pub mod Sockets
pub mod Link
pub mod Polls
pub mod Relayed
use carplay_poc.Base.{
  ℕ, zero, suc, ◌-◌, Bool, true, false, Option, none, some, List, [], ◌∷◌, replicate, length, drop,
  Status, ok, failed,
}
use carplay_poc.Net.{Read, got_more}
use carplay_poc.Ws.{Client, buffered, take_prebuffer}

-- `gateway_upstream_state_t`: the descriptor is a flag and the network's state
pub record Upstream (Net : Type 0) : Type 0 where
  pub is_open : Bool
  pub stream : Client Net
  pub connected : Bool
  pub have_nonce : Bool
  pub session_nonce : List ℕ

-- `gateway_upstream_close` on a non-null state; `lwip_close` is what the network does at it
unfoldable pub upstream_close : {Net : Type 0} → (Net → Net) → Upstream Net → Upstream Net
unfolding replicate
upstream_close lwip_close s =
    let net = elim s.is_open as (λ _. _) [
      | true ↦ lwip_close s.stream.net
      | false ↦ s.stream.net
    ] in
    record {
      is_open = false;
      stream = record { net = net; prebuffer = none; prebuffer_len = 0; prebuffer_off = 0 };
      connected = false;
      have_nonce = false;
      session_nonce = replicate 12 0;
    }

module _ {Net : Type 0} (lwip_write : Net → List ℕ → Option ℕ × Net) where
  -- `gateway_upstream_write_all`
  unfoldable pub upstream_write_all : ℕ → List ℕ → Net → Status × Net
  upstream_write_all fuel [] net = (ok, net)
  upstream_write_all zero (b ∷ bs) net = (failed, net)
  upstream_write_all (suc fuel) (b ∷ bs) net =
      let (rc, net') = lwip_write net (b ∷ bs) in
      elim rc [
        | none ↦ (failed, net')
        | some zero ↦ (failed, net')
        | some (suc k) ↦ upstream_write_all fuel (drop k bs) net'
      ]

module _ {Net : Type 0} (lwip_read : Net → ℕ → Option (List ℕ) × Net) where
  -- `gateway_upstream_read_some`
  unfoldable pub upstream_read_some : ℕ → ℕ → Client Net → Read × Client Net
  upstream_read_some fuel zero c = (Read.got [], c)
  upstream_read_some zero (suc len) c = (Read.unfinished, c)
  upstream_read_some (suc fuel) (suc len) c = elim (buffered c) [
    | some buf ↦
        let (bs, c') = take_prebuffer (suc len) buf c in
        got_more bs (upstream_read_some fuel (suc len - length bs) c')
    | none ↦
        let (rc, net') = lwip_read c.net (suc len) in
        let c' = record c { net = net' } in
        elim rc [
          | none ↦ (Read.failed, c')
          | some [] ↦ (Read.failed, c')
          | some (b ∷ bs) ↦ got_more (b ∷ bs) (upstream_read_some fuel (len - length bs) c')
        ]
  ]
