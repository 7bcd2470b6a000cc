-- ===== src/Upstream/Connect.antt =====
-- ameba_gateway/example_gateway_ameba.c: `gateway_upstream_connect`. `gateway_upstream_last_errno`, which keeps the system's errno for
-- the log, is left out; a result code is its 32-bit pattern.
use carplay_poc.Base.{
  ℕ, zero, suc, ◌+◌, ◌-◌, ◌^◌, Bool, true, false, not, ◌&&◌, Option, none, some, List, [], ◌∷◌,
  ◌++◌, ◌==◌, ltb, leb, if◌then◌else◌, length, replicate, u32, Status, ok, failed,
}
use carplay_poc.Config.{UpstreamConfig}
use carplay_poc.Handshake.{codes, incomplete, refused, accepted, read_answer, upgrade_request}
use carplay_poc.Upstream.{Upstream, upstream_close, upstream_write_all}
use carplay_poc.Upstream.Frames.{upstream_send_text}

-- the `gateway_upstream_*` variables beside the state
pub record Stats : Type 0 where
  pub connect_started : Bool
  pub connected : Bool
  pub last_rc : ℕ
  pub connect_attempts : ℕ
  pub text_frames : ℕ
  pub binary_frames : ℕ
  pub close_frames : ℕ
  pub last_opcode : ℕ
  pub last_payload_len : ℕ
  pub last_attempt_tick : ℕ

pub record Uplink (Net : Type 0) : Type 0 where
  pub conn : Upstream Net
  pub stats : Stats

-- What the program calls of lwIP: `lwip_socket` and `lwip_connect` succeed or not, a negative result of the others
-- is `none`, and `inet_addr` takes a text for an address or not.
pub record Lwip (Net : Type 0) : Type 0 where
  pub inet_addr : List ℕ → Bool
  pub lwip_socket : Net → Bool × Net
  pub lwip_connect : List ℕ → ℕ → Net → Bool × Net
  pub lwip_read : Net → ℕ → Option (List ℕ) × Net
  pub lwip_write : Net → List ℕ → Option ℕ × Net
  pub lwip_close : Net → Net

-- `gateway_upstream_last_rc = -n`
abbrev pub set_rc : ℕ → Stats → Stats
set_rc n s = record s { last_rc = u32 (2 ^ 32 - n) }

-- `gateway_upstream_close`, with the variable it clears
unfoldable pub hang_up : {Net : Type 0} → (Net → Net) → Uplink Net → Uplink Net
hang_up lwip_close u = record {
  conn = upstream_close lwip_close u.conn;
  stats = record u.stats { connected = false };
}

-- What waiting for the answer comes to: the bytes behind the header, or the code it fails with.
pub data Response : Type 0 where
  opened : List ℕ → Response
  gave_up : ℕ → Response

abbrev pub upstream_response_size : ℕ
upstream_response_size = 2048

abbrev pub upstream_request_size : ℕ
upstream_request_size = 512

abbrev pub start_stream_command : List ℕ
start_stream_command = codes "{\"cmd\":\"start_stream\",\"param\":{\"mirror\":1}}"

abbrev pub start_audio_command : List ℕ
start_audio_command = codes "{\"cmd\":\"start_audio_stream\"}"

-- the variables at the start of an attempt
abbrev pub begin_attempt : {Net : Type 0} → ℕ → Uplink Net → Uplink Net
begin_attempt tick u = record {
  conn = record u.conn { have_nonce = false; session_nonce = replicate 12 0 };
  stats = record u.stats {
    connect_started = true;
    last_attempt_tick = tick;
    connect_attempts = u32 (u.stats.connect_attempts + 1);
  };
}

-- the network changed, and the result code set
abbrev pub give_up : {Net : Type 0} → ℕ → Net → Uplink Net → Status × Uplink Net
give_up n net u = (
  failed,
  record {
    conn = record u.conn { stream = record u.conn.stream { net = net } };
    stats = set_rc n u.stats;
  },
)

module _ {Net : Type 0} (lwip : Lwip Net) (fuel : ℕ) (allocated : ℕ → Bool)
    (undefined : List ℕ) where
  open lwip use {inet_addr, lwip_socket, lwip_connect, lwip_read, lwip_write, lwip_close}

  -- the loop over `lwip_read`, with the bytes in `response`; a turn adds a byte, so that 2048 are enough
  unfoldable pub await_response : ℕ → List ℕ → Net → Response × Net
  await_response zero response net = (gave_up 10, net)
  await_response (suc turns) response net =
      let (rc, net') = lwip_read net (upstream_response_size - length response - 1) in
      let turn = elim rc as (λ _. Response × Net) [
        | none ↦ (gave_up 6, net')
        | some [] ↦ (gave_up 6, net')
        | some (b ∷ bs) ↦ elim (read_answer (response ++ b ∷ bs)) [
          | incomplete ↦ await_response turns (response ++ b ∷ bs) net'
          | refused ↦ (gave_up 7, net')
          | accepted extra ↦ (opened extra, net')
        ]
      ] in
      if ltb (length response + 1) upstream_response_size then turn else (gave_up 10, net)

  -- the two commands to the server
  unfoldable pub start_streams : Net → Status × Net
  start_streams net =
      let (rc, net₁) =
        upstream_send_text lwip_write fuel allocated undefined start_stream_command net in
      let (rc₂, net₂) =
        upstream_send_text lwip_write fuel allocated undefined start_audio_command net₁ in
      elim rc [ failed ↦ (failed, net₁) | ok ↦ (rc₂, net₂) ]

  -- the state once the answer is there
  unfoldable pub established : List ℕ → Net → Uplink Net → Uplink Net
  established extra net u =
      let old = record u.conn.stream { net = net } in
      let filled = record old {
        prebuffer = some extra;
        prebuffer_len = length extra;
        prebuffer_off = 0;
      } in
      record {
        conn = record u.conn {
          is_open = true;
          stream = if length extra == 0 then old else filled;
          connected = true;
        };
        stats = record u.stats { connected = true; last_rc = 0 };
      }

  -- whether the commands went out
  unfoldable pub settle : Status → Uplink Net → Status × Uplink Net
  settle ok u = (ok, u)
  settle failed u =
      let hung = hang_up lwip_close u in (failed, record hung { stats = set_rc 9 hung.stats })

  -- from where the answer is there
  unfoldable pub finish_connect : List ℕ → Net → Uplink Net → Status × Uplink Net
  finish_connect extra net u =
      let (rc, net') = start_streams net in
      if not (length extra == 0) && not (allocated (length extra))
      then give_up 8 (lwip_close net) u
      else settle rc (established extra net' u)

  unfoldable pub on_response : Response × Net → Uplink Net → Status × Uplink Net
  on_response (gave_up n, net) u = give_up n (lwip_close net) u
  on_response (opened extra, net) u = finish_connect extra net u

  unfoldable pub on_request : Status × Net → Uplink Net → Status × Uplink Net
  on_request (failed, net) u = give_up 5 (lwip_close net) u
  on_request (ok, net) u = on_response (await_response upstream_response_size [] net) u

  -- from where the socket is connected
  unfoldable pub open_stream : UpstreamConfig → Net → Uplink Net → Status × Uplink Net
  open_stream config net u =
      let request = upgrade_request config.path config.host config.port in
      if leb upstream_request_size (length request)
      then give_up 4 (lwip_close net) u
      else on_request (upstream_write_all lwip_write fuel request net) u

  -- `gateway_upstream_connect`: `tick` is `xTaskGetTickCount ()`, and the snapshot that of `gateway_upstream_config`
  unfoldable pub upstream_connect : ℕ → Bool × UpstreamConfig → Uplink Net → Status × Uplink Net
  upstream_connect tick (valid, config) u =
      let u₀ = begin_attempt tick u in
      let (has_socket, net₁) = lwip_socket u.conn.stream.net in
      let (is_up, net₂) = lwip_connect config.host config.port net₁ in
      if not valid
      then (failed, record u₀ { stats = set_rc 12 u₀.stats })
      else if not has_socket
      then give_up 1 net₁ u₀
      else if not (inet_addr config.host)
      then give_up 2 (lwip_close net₁) u₀
      else if not is_up
      then give_up 3 (lwip_close net₂) u₀
      else open_stream config net₂ u₀
