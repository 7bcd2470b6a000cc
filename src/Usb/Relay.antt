-- ===== src/Usb/Relay.antt =====
-- ameba_gateway/example_gateway_ameba.c: media packets sealed for the host and put into the ring.
-- `chacha20_xor` is a parameter, as in Crypto.antt; `allocated` is whether `malloc` gives memory.
pub mod Packet
pub mod Sound
use carplay_poc.Base.{
  ℕ, Bool, true, false, not, ◌&&◌, Option, none, some, List, [], ◌∷◌, ◌==◌, if◌then◌else◌, length,
  take, u32, Status, ok, failed,
}
use carplay_poc.Proto.{stream_video, MediaInfo, write_media_header}
use carplay_poc.Media.{video_flags}
use carplay_poc.Crypto.{packet_size, is_negative, encrypt_packet}
use carplay_poc.Usb.Ring.{Tx, Source, null, bytes, source_len, enqueue_packet}
use carplay_poc.Usb.State.{Usb}
use carplay_poc.Usb.Stream.{enqueue_init_packet, kick_tx}

-- `g_gateway_usb_crypto_nonce`
abbrev pub usb_crypto_nonce : List ℕ
usb_crypto_nonce =
    b'U' ∷ b'S' ∷ b'B' ∷ b'R' ∷ b'e' ∷ b'l' ∷ b'a' ∷ b'y' ∷ b'V' ∷ b'1' ∷ b'!' ∷ b'!' ∷ []

-- `media_info` as `gateway_usb_enqueue_media_packet` fills it
abbrev pub media_info : ℕ → ℕ → List ℕ → ℕ → MediaInfo
media_info stream_id seq_no payload len = record {
  stream_id = stream_id;
  flags = if stream_id == stream_video then video_flags payload else 0;
  seq_no = seq_no;
  payload_len = u32 len;
}

-- `gateway_usb_enqueue_media_packet` from where the payload is encrypted; `none` where that failed
unfoldable pub enqueue_encrypted : ℕ → ℕ → List ℕ → Tx → Option Source → Status × Tx
enqueue_encrypted stream_id seq_no payload t none = (failed, t)
enqueue_encrypted stream_id seq_no payload t (some encrypted) =
    elim (write_media_header (some (media_info stream_id seq_no payload (source_len encrypted)))) [
      | none ↦ (failed, t)
      | some header ↦ enqueue_packet t (bytes header) encrypted
    ]

module _ (chacha20_xor : List ℕ → List ℕ → ℕ → List ℕ → List ℕ) where
  -- `encrypted_payload` with its length; `none` where the function returns -1 on the way
  unfoldable pub encrypt_payload : Bool → ℕ → ℕ → List ℕ → Option Source
  encrypt_payload allocated stream_id seq_no payload =
      if length payload == 0
      then some (null 0)
      else if not allocated
      then none
      else let (rc, stored) =
          encrypt_packet chacha20_xor (some (packet_size (length payload))) stream_id seq_no
            (some usb_crypto_nonce) (some payload) in
        if is_negative rc
        then none
        else elim stored [ none ↦ none | some packet ↦ some (bytes (take rc packet)) ]

  -- `gateway_usb_enqueue_media_packet`
  unfoldable pub enqueue_media_packet : Bool → ℕ → ℕ → List ℕ → Tx → Status × Tx
  enqueue_media_packet allocated stream_id seq_no payload t =
      enqueue_encrypted stream_id seq_no payload t
        (encrypt_payload allocated stream_id seq_no payload)

  -- the part of `gateway_upstream_poll` that passes a decrypted payload on
  unfoldable pub relay_media : Bool → ℕ → ℕ → ℕ → List ℕ → Usb → Usb
  relay_media allocated kick_rc stream_id seq_no payload s =
      if not (s.started && (s.usb_configured && s.host_ready))
      then s
      else let (rc, s') = enqueue_init_packet s in
        elim rc [
          | failed ↦ s'
          | ok ↦
              let (rc', t) = enqueue_media_packet allocated stream_id seq_no payload s'.tx in
              elim rc' [
                | failed ↦ record s' { tx = t }
                | ok ↦ (kick_tx kick_rc (record s' { tx = t })).1
              ]
        ]
