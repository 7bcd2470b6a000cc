-- ===== src/Streamer.antt =====
-- wsh264/app/wsh264.cpp: the streaming server's side of a connection. The waits and locks between the
-- threads of the server are left out: a packet is sent in one step, once its turn has come.
-- `ws_sendframe` is a parameter here, over a state `Conn` of the connection.
pub mod Fragments
pub mod Split
pub mod BitRate
pub mod Root
pub mod Range
pub mod Audio
pub mod Chars
pub mod Fifo
pub mod Units
pub mod Cuts
pub mod Commands
pub mod Requests
use carplay_poc.Base.{
  ℕ, ◌+◌, ◌-◌, Bool, true, false, not, ◌||◌, ◌++◌, Option, none, some, List, [], ◌∷◌, ◌==◌, ltb,
  if◌then◌else◌, length, Status, ok, failed, byte_at, u8, u32, ◌>>>◌, bit_and, bit_or,
}
use carplay_poc.Proto.{flag_keyframe, flag_config}
use carplay_poc.Crypto.{encrypt_packet, packet_size, is_negative}

-- `app_t`, without its thread and locks
pub record App (Conn : Type 0) : Type 0 where
  pub conn : Conn
  pub session_nonce : List ℕ
  pub media_seq : ℕ
  pub audio_chunk_index : ℕ
  pub video_frame_id : ℕ
  pub pending_audio_packets : ℕ
  pub crypto_init_sent : Bool

abbrev pub audio_stream : ℕ
audio_stream = 2

abbrev pub video_stream : ℕ
video_stream = 1

-- `WS_FR_OP_TXT` and `WS_FR_OP_BIN`
abbrev pub op_text : ℕ
op_text = 1

abbrev pub op_binary : ℕ
op_binary = 2

-- What the writers store, first byte first.
unfoldable pub write_u16le : ℕ → List ℕ
write_u16le value = u8 value ∷ u8 (value >>> 8) ∷ []

unfoldable pub write_u32le : ℕ → List ℕ
write_u32le value = u8 value ∷ u8 (value >>> 8) ∷ u8 (value >>> 16) ∷ u8 (value >>> 24) ∷ []

unfoldable pub video_payload_flags : List ℕ → ℕ
video_payload_flags payload =
    if length payload == 0
    then 0
    else let nal_type = bit_and (byte_at payload 0) 0x1F in
      let flags = if nal_type == 5 then bit_or 0 flag_keyframe else 0 in
      if nal_type == 7 || nal_type == 8 then bit_or flags flag_config else flags

module _ {Conn : Type 0} where
  unfoldable pub begin_audio_priority : App Conn → App Conn
  begin_audio_priority app = record app {
    pending_audio_packets = u32 (app.pending_audio_packets + 1);
  }

  unfoldable pub end_audio_priority : App Conn → App Conn
  end_audio_priority app =
      if ltb 0 app.pending_audio_packets
      then record app { pending_audio_packets = app.pending_audio_packets - 1 }
      else app

  -- what is given back before `send_encrypted_media` returns
  unfoldable pub end_priority_of : ℕ → App Conn → App Conn
  unfolding end_audio_priority
  end_priority_of stream_id app = if stream_id == audio_stream then end_audio_priority app else app

  -- what is asked for when it is called
  unfoldable pub begin_priority_of : ℕ → App Conn → App Conn
  unfolding begin_audio_priority
  begin_priority_of stream_id app =
      if stream_id == audio_stream then begin_audio_priority app else app

-- the text that announces the nonce, without line ends
unfoldable pub clean_text : List ℕ → List ℕ
clean_text [] = []
clean_text (c ∷ cs) =
    let rest = clean_text cs in if c == b'\n' || c == b'\r' then rest else c ∷ rest

module _ {Conn : Type 0} (ws_sendframe : Conn → List ℕ → ℕ → Status × Conn)
    (base64_encode : List ℕ → Option (List ℕ)) (json_text : List ℕ → List ℕ)
    (chacha20_xor : List ℕ → List ℕ → ℕ → List ℕ → List ℕ) where
  -- `send_crypto_init_locked`; the text around the nonce is `json_text`
  unfoldable pub send_crypto_init : Bool → App Conn → Status × App Conn
  unfolding clean_text
  send_crypto_init allocated app =
      if app.crypto_init_sent then (ok, app) else elim (base64_encode app.session_nonce) [
        | none ↦ (failed, app)
        | some encoded ↦
            if not allocated
            then (failed, app)
            else let (rc, conn) = ws_sendframe app.conn (json_text (clean_text encoded)) op_text in
              elim rc [
                | ok ↦ (ok, record app { conn = conn; crypto_init_sent = true })
                | failed ↦ (failed, record app { conn = conn })
              ]
      ]

  -- the packet with the number that it has been given
  unfoldable pub send_packet : ℕ → ℕ → List ℕ → App Conn → Status × App Conn
  send_packet stream_id seq_no payload app =
      let (size, stored) =
        encrypt_packet chacha20_xor (some (packet_size (length payload))) stream_id seq_no
          (some app.session_nonce) (some payload) in
      elim stored [
        | none ↦ (failed, app)
        | some packet ↦
            if is_negative size
            then (failed, app)
            else let (rc, conn) = ws_sendframe app.conn packet op_binary in
              (rc, record app { conn = conn })
      ]

  -- `send_encrypted_media`, once its turn has come; `allocated` says whether there is memory for the packet
  -- and for the announcement
  unfoldable pub send_encrypted_media : Bool → Bool → ℕ → List ℕ → App Conn → Status × App Conn
  unfolding begin_priority_of end_priority_of send_crypto_init send_packet
  send_encrypted_media allocated allocated_text stream_id payload app₀ =
      let app = begin_priority_of stream_id app₀ in
      if not allocated
      then (failed, end_priority_of stream_id app)
      else let (rc, app₁) = send_crypto_init allocated_text app in
        let app₂ = record app₁ { media_seq = u32 (app₁.media_seq + 1) } in
        elim rc [
          | failed ↦ (failed, end_priority_of stream_id app₂)
          | ok ↦
              let (rc, app₃) = send_packet stream_id app₁.media_seq payload app₂ in
              (rc, end_priority_of stream_id app₃)
        ]
