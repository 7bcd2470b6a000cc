-- ===== src/Playback/Opened.antt =====
-- gateway_client/gateway_client.cpp: the payloads of the USB relay decrypted. `chacha20_xor` is a parameter, as
-- in Crypto.antt.
use carplay_poc.Base.{
  some, false, Bool, ℕ, ◌^◌, List, ◌∷◌, true, ◌||◌, ◌<◌, [], ◌+◌, arith, not, none, ◌≡◌, ◌==◌,
  if◌then◌else◌, length, take, take_all, IsBytes,
}
use carplay_poc.Crypto.{is_negative, decrypt_packet}
use carplay_poc.Proto.{MediaInfo}
use carplay_poc.Usb.Ring.{bytes}
use carplay_poc.Usb.Relay.{media_info, encrypt_payload}
use carplay_poc.Crypto.Cipher.{IsStreamCipher}
use carplay_poc.Crypto.Packet.{decrypt_packet-encrypt_packet}

-- `kUsbCryptoSessionNonce`
abbrev pub session_nonce : List ℕ
session_nonce =
    b'U' ∷ b'S' ∷ b'B' ∷ b'R' ∷ b'e' ∷ b'l' ∷ b'a' ∷ b'y' ∷ b'V' ∷ b'1' ∷ b'!' ∷ b'!' ∷ []

module _ (chacha20_xor : List ℕ → List ℕ → ℕ → List ℕ → List ℕ) where
  -- `decrypt_usb_media_payload`, and the payload it leaves
  unfoldable pub decrypt_usb_media_payload : MediaInfo → List ℕ → Bool × List ℕ
  decrypt_usb_media_payload info payload =
      let (decrypted_len, stored) =
        decrypt_packet chacha20_xor (some (length payload)) (some session_nonce) (some payload) in
      if length payload == 0
      then (true, payload)
      else if is_negative decrypted_len
      then (false, payload)
      else elim stored [
        | none ↦ (false, payload)
        | some o ↦
            if not (o.stream_id == info.stream_id) || not (o.seq_no == info.seq_no)
            then (false, payload)
            else (true, take decrypted_len o.plaintext)
      ]

  -- What the board seals for the host, the client opens: its payload, where that is neither empty nor 2 GiB
  -- long, there is memory, and `chacha20_xor` is a stream cipher.
  pub decrypt_usb_media_payload-encrypt_payload :
      (stream_id seq_no : ℕ) (payload : List ℕ)
      → IsStreamCipher chacha20_xor
      → IsBytes payload
      → stream_id < 2 ^ 8
      → seq_no < 2 ^ 32
      → 0 < length payload
      → 8 + length payload < 2 ^ 31
      → (packet : List ℕ) × (encrypt_payload chacha20_xor true stream_id seq_no payload
          ≡ some (bytes packet))
        × (decrypt_usb_media_payload (media_info stream_id seq_no payload (length packet)) packet
            ≡ (true, payload))
  unfolding encrypt_payload decrypt_usb_media_payload
  decrypt_usb_media_payload-encrypt_payload stream_id seq_no payload c hb hs hq some' small =
      let (p, e, len, opened) =
        decrypt_packet-encrypt_packet chacha20_xor (8 + length payload) (8 + length payload)
          stream_id seq_no session_nonce payload c hb hs hq small (omega arith) (omega arith) in
      let opened' : decrypt_packet chacha20_xor (some (length p)) (some session_nonce) (some p) ≡ (
        length payload,
        some (record { stream_id = stream_id; seq_no = seq_no; plaintext = payload }),
      ) =
        rw len opened in
      (
        p,
        ground (arith, e, len, take_all (8 + length payload) p),
        ground (arith, opened', len, take_all (length payload) payload),
      )
