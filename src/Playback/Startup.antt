-- ===== src/Playback/Startup.antt =====
-- gateway_client/gateway_client.cpp: the start of the stream over USB. What the transfers from the board bring
-- stands in lists; the list of the second loop ends with its deadline. `write` is
-- `gateway_client_transport_write_all` over a state `Port`.
use carplay_poc.Base.{
  ok, Bool, [], zero, ◌&&◌, ◌||◌, ◌∷◌, List, ◌++◌, Option, Status, suc, failed, ℕ, some, false,
  true, not, none, ltb, leb, ◌==◌, if◌then◌else◌, replicate, length, take, drop,
}
use carplay_poc.Streamer.{write_u32le}
use carplay_poc.Media.{has_magic}
use carplay_poc.Playback.{read_u32le}
use carplay_poc.Proto.{init_size, read_init}
use carplay_poc.Config.Packet.{config_bytes}

-- A transfer: nothing within its time, bytes, or an error.
pub data Arrival : Type 0 where
  timed_out broken : Arrival
  brought : List ℕ → Arrival

-- `UsbStartupState`
pub record StartupState : Type 0 where
  pub have_init : Bool
  pub init_buf : List ℕ
  pub leftover : List ℕ

-- `UsbUpstreamOptions`
pub record UpstreamOptions : Type 0 where
  pub enabled : Bool
  pub host : List ℕ
  pub port : ℕ
  pub path : List ℕ

-- the ping of 64 bytes
unfoldable pub ping_packet : ℕ → List ℕ
unfolding write_u32le
ping_packet seq_no =
    (b'P' ∷ b'I' ∷ b'N' ∷ b'G' ∷ [])
    ++ write_u32le seq_no
    ++ write_u32le 16
    ++ (b'g' ∷ b'a' ∷ b't' ∷ b'e' ∷ b'w' ∷ b'a' ∷ b'y' ∷ b'-' ∷ b'u' ∷ b's' ∷ b'b' ∷ b'-' ∷ b'o'
        ∷ b'p' ∷ b'e' ∷ b'n' ∷ [])
    ++ replicate 36 0

-- the first loop: at most `n` stale transfers are thrown away
unfoldable pub flush_stale : ℕ → List Arrival → List Arrival
flush_stale zero arrivals = arrivals
flush_stale (suc n) [] = []
flush_stale (suc n) (timed_out ∷ arrivals) = arrivals
flush_stale (suc n) (broken ∷ arrivals) = arrivals
flush_stale (suc n) (brought [] ∷ arrivals) = arrivals
flush_stale (suc n) (brought (b ∷ bs) ∷ arrivals) = flush_stale n arrivals

-- whether a transfer is the answer to the ping
unfoldable pub is_pong : ℕ → List ℕ → Bool
is_pong seq_no buf =
    leb 64 (length buf) && (has_magic b'P' b'O' b'N' b'G' buf && read_u32le buf 4 == seq_no)

-- whether it begins with the init packet
unfoldable pub is_init : List ℕ → Bool
is_init buf =
    leb init_size (length buf) && elim (read_init (some buf)) [ none ↦ false | some i ↦ true ]

-- the second loop
unfoldable pub await_init : ℕ → Bool → List Arrival → StartupState → Status × StartupState
unfolding is_pong is_init
await_init seq_no got_pong [] s = (failed, s)
await_init seq_no got_pong (timed_out ∷ arrivals) s = await_init seq_no got_pong arrivals s
await_init seq_no got_pong (broken ∷ arrivals) s = (failed, s)
await_init seq_no got_pong (brought [] ∷ arrivals) s = await_init seq_no got_pong arrivals s
await_init seq_no got_pong (brought (b ∷ bs) ∷ arrivals) s =
    let buf = b ∷ bs in
    let rest = await_init seq_no (got_pong || is_pong seq_no buf) arrivals s in
    if got_pong && is_init buf
    then (
      ok,
      record {
        have_init = true;
        init_buf = take init_size buf;
        leftover = if ltb init_size (length buf) then drop init_size buf else s.leftover;
      },
    )
    else rest

module _ {Port : Type 0} (write : Port → List ℕ → Status × Port) where
  -- `send_usb_upstream_config`; `local_ip` is what `detect_local_ipv4` finds
  unfoldable pub send_usb_upstream_config :
      Bool → ℕ → UpstreamOptions → Option (List ℕ) → Port → Status × Port
  unfolding config_bytes
  send_usb_upstream_config over_usb seq_no o local_ip port =
      let found : Option (List ℕ) = if length o.host == 0 then local_ip else some o.host in
      if not over_usb || not o.enabled then (ok, port) else elim found [
        | none ↦ (failed, port)
        | some host ↦ elim (config_bytes seq_no o.port host o.path) [
          | none ↦ (failed, port)
          | some packet ↦ write port packet
        ]
      ]

  -- `prepare_usb_stream_startup`
  unfoldable pub prepare_usb_stream_startup :
      Bool
      → ℕ
      → UpstreamOptions
      → Option (List ℕ)
      → List Arrival
      → StartupState
      → Port
      → Status × StartupState × Port
  unfolding ping_packet flush_stale await_init send_usb_upstream_config
  prepare_usb_stream_startup over_usb seq_no o local_ip arrivals s port =
      let s₀ = record s { have_init = false; leftover = [] } in
      let (rc, port₁) = send_usb_upstream_config over_usb seq_no o local_ip port in
      let (rc₂, port₂) = write port₁ (ping_packet seq_no) in
      let (rc₃, s') = await_init seq_no false (flush_stale 16 arrivals) s₀ in
      if not over_usb then (ok, s₀, port) else elim rc [
        | failed ↦ (failed, s₀, port₁)
        | ok ↦ elim rc₂ [ failed ↦ (failed, s₀, port₂) | ok ↦ (rc₃, s', port₂) ]
      ]
