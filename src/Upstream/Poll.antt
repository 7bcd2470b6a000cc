-- ===== src/Upstream/Poll.antt =====
-- ameba_gateway/example_gateway_ameba.c: `gateway_upstream_poll`, a frame of the server at a time. cJSON, base64 and
-- `chacha20_xor` are parameters.
use carplay_poc.Base.{
  ℕ, ◌+◌, Bool, not, ◌&&◌, ◌||◌, Option, none, some, List, length, ◌==◌, if◌then◌else◌, take, u32,
}
use carplay_poc.Crypto.{is_negative, decrypt_packet}
use carplay_poc.Session.{SessionNonce, parse_crypto_init}
use carplay_poc.Upstream.Frames.{upstream_recv_frame}
use carplay_poc.Upstream.Connect.{Uplink, Lwip, hang_up, set_rc}
use carplay_poc.Usb.Relay.{relay_media}
use carplay_poc.Ws.{Frame}
use carplay_poc.Usb.State.{Usb}

-- What `lwip_select` finds, whether there is memory for the text, for the plaintext and for the packet to the host, and what
-- the USB controller answers to a kick.
pub record PollAnswers : Type 0 where
  pub is_readable : Bool
  pub text_room : Bool
  pub plain_room : Bool
  pub packet_room : Bool
  pub kick_rc : ℕ

module _ (chacha20_xor : List ℕ → List ℕ → ℕ → List ℕ → List ℕ) where
  -- a binary frame
  unfoldable pub on_upstream_binary : PollAnswers → List ℕ → SessionNonce → Usb → Usb
  on_upstream_binary a payload n usb =
      let (plain_len, stored) =
        decrypt_packet chacha20_xor (some (length payload)) (some n.session_nonce) (some payload) in
      if not n.have_nonce
      then usb
      else if not a.plain_room
      then usb
      else if is_negative plain_len || plain_len == 0
      then usb
      else elim stored [
        | none ↦ usb
        | some o ↦
            relay_media chacha20_xor a.packet_room a.kick_rc o.stream_id o.seq_no
              (take plain_len o.plaintext) usb
      ]

  module _ {Json : Type 0} (get_item : Json → List ℕ → Option Json)
      (valuestring : Json → Option (List ℕ)) (parse : List ℕ → Option Json)
      (base64_decode : List ℕ → Option (List ℕ)) {Net : Type 0} (lwip : Lwip Net) where
    -- the frame that has been received
    unfoldable pub on_upstream_frame :
        PollAnswers → ℕ → List ℕ → Uplink Net → Usb → Uplink Net × Usb
    unfolding on_upstream_binary
    on_upstream_frame a opcode payload u usb =
        let n : SessionNonce = record {
          session_nonce = u.conn.session_nonce;
          have_nonce = u.conn.have_nonce;
        } in
        let (rc, n') =
          parse_crypto_init get_item valuestring parse base64_decode a.text_room payload n in
        let s = record u.stats { last_opcode = opcode; last_payload_len = u32 (length payload) } in
        if opcode == 1
        then (
          record {
            conn = record u.conn { session_nonce = n'.session_nonce; have_nonce = n'.have_nonce };
            stats = record s { text_frames = u32 (s.text_frames + 1) };
          },
          usb,
        )
        else if opcode == 2
        then (
          record u { stats = record s { binary_frames = u32 (s.binary_frames + 1) } },
          on_upstream_binary a payload n usb,
        )
        else if opcode == 8
        then (
          hang_up lwip.lwip_close
              (record u { stats = record s { close_frames = u32 (s.close_frames + 1) } }),
          usb,
        )
        else (record u { stats = s }, usb)

    -- what has been received, if anything
    unfoldable pub on_received : PollAnswers → Option Frame → Uplink Net → Usb → Uplink Net × Usb
    on_received a none u usb =
        (hang_up lwip.lwip_close (record u { stats = set_rc 11 u.stats }), usb)
    on_received a (some f) u usb = on_upstream_frame a f.opcode f.payload u usb

    -- `gateway_upstream_poll`
    unfoldable pub upstream_poll :
        ℕ → (ℕ → Bool) → PollAnswers → Uplink Net → Usb → Uplink Net × Usb
    unfolding on_received
    upstream_poll fuel allocated a u usb =
        let (frame, w) = upstream_recv_frame lwip.lwip_read fuel allocated u.conn.stream in
        if not (u.conn.connected && u.conn.is_open)
        then (u, usb)
        else if not a.is_readable
        then (u, usb)
        else on_received a frame (record u { conn = record u.conn { stream = w } }) usb
