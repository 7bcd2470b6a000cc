-- ===== src/Session/Relay.antt =====
-- gateway/gateway.c: the relay loop of a session. What `select`, `tcp_transport_peek_status` and
-- `ws_upstream_recv_frame` give in a turn stands in its argument; `write` is `tcp_transport_write_all` to
-- the client, over a state `Net` of the connection. cJSON, base64 and `chacha20_xor` are parameters.
use carplay_poc.Base.{
  List, true, Bool, [], Status, Option, ok, ◌∷◌, none, failed, some, ℕ, false, not, ◌==◌,
  if◌then◌else◌, length, take, u32,
}
use carplay_poc.Crypto.{is_negative, Opened, decrypt_packet}
use carplay_poc.Media.{video_flags}
use carplay_poc.Session.{SessionNonce, parse_crypto_init}
use carplay_poc.Net.{PeekStatus, quiet, readable, at_end, lost}
use carplay_poc.Proto.{stream_video, MediaInfo, write_media_header}

-- `select` and what is ready: the client with what a peek says, and the server with its next frame, which may
-- be none; whether there is memory for its text and for its plaintext.
pub data Turn : Type 0 where
  interrupted broken : Turn
  ready : Option PeekStatus → Option (Option (ℕ × List ℕ)) → Bool → Bool → Turn

-- whether the loop goes on
pub data After : Type 0 where
  go_on stop : After

-- `status <= 1`: the client has sent something, has gone, or is lost
unfoldable pub client_ends : Option PeekStatus → Bool
client_ends none = false
client_ends (some quiet) = false
client_ends (some readable) = true
client_ends (some at_end) = true
client_ends (some lost) = true

-- `media_info`
abbrev pub session_media_info : Opened → ℕ → List ℕ → MediaInfo
session_media_info o plain_len plain = record {
  stream_id = o.stream_id;
  flags = if o.stream_id == stream_video then video_flags plain else 0;
  seq_no = o.seq_no;
  payload_len = u32 plain_len;
}

module _ {Net : Type 0} (write : Net → List ℕ → Status × Net) where
  -- header and payload to the client
  unfoldable pub write_media : MediaInfo → List ℕ → Net → After × Net
  write_media info plain net = elim (write_media_header (some info)) [
    | none ↦ (stop, net)
    | some header ↦
        let (rc, net₁) = write net header in
        let (rc₂, net₂) = write net₁ plain in
        elim rc [
          | failed ↦ (stop, net₁)
          | ok ↦ elim rc₂ [ failed ↦ (stop, net₂) | ok ↦ (go_on, net₂) ]
        ]
  ]

  module _ (chacha20_xor : List ℕ → List ℕ → ℕ → List ℕ → List ℕ) where
    -- a binary frame
    unfoldable pub on_binary : Bool → List ℕ → SessionNonce → Net → After × Net
    unfolding write_media
    on_binary allocated payload s net =
        let (plain_len, stored) =
          decrypt_packet chacha20_xor (some (length payload)) (some s.session_nonce)
            (some payload) in
        if not s.have_nonce
        then (go_on, net)
        else if not allocated
        then (stop, net)
        else if is_negative plain_len
        then (stop, net)
        else elim stored [
          | none ↦ (stop, net)
          | some o ↦
              let plain = take plain_len o.plaintext in
              write_media (session_media_info o plain_len plain) plain net
        ]

    module _ {Json : Type 0} (get_item : Json → List ℕ → Option Json)
        (valuestring : Json → Option (List ℕ)) (parse : List ℕ → Option Json)
        (base64_decode : List ℕ → Option (List ℕ)) where
      -- a frame of the server
      unfoldable pub on_frame :
          Bool → Bool → ℕ → List ℕ → SessionNonce → Net → After × SessionNonce × Net
      unfolding on_binary
      on_frame text_room plain_room opcode payload s net =
          let (rc, s') =
            parse_crypto_init get_item valuestring parse base64_decode text_room payload s in
          let (after, net') = on_binary plain_room payload s net in
          if opcode == 1
          then elim rc [ ok ↦ (go_on, s', net) | failed ↦ (stop, s', net) ]
          else if opcode == 2
          then (after, s, net')
          else if opcode == 8
          then (stop, s, net)
          else (go_on, s, net)

      -- one turn of the loop
      unfoldable pub session_turn : Turn → SessionNonce → Net → After × SessionNonce × Net
      unfolding client_ends on_frame
      session_turn interrupted s net = (go_on, s, net)
      session_turn broken s net = (stop, s, net)
      session_turn (ready client frame text_room plain_room) s net =
          if client_ends client then (stop, s, net) else elim frame [
            | none ↦ (go_on, s, net)
            | some none ↦ (stop, s, net)
            | some (some (opcode, payload)) ↦ on_frame text_room plain_room opcode payload s net
          ]

      -- the loop over the turns so far
      unfoldable pub session_loop : List Turn → SessionNonce → Net → After × SessionNonce × Net
      unfolding session_turn
      session_loop [] s net = (go_on, s, net)
      session_loop (t ∷ ts) s net =
          let (after, s', net') = session_turn t s net in
          elim after [ stop ↦ (stop, s', net') | go_on ↦ session_loop ts s' net' ]
