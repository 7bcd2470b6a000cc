-- ===== src/Usb/Relay/Packet.antt =====
-- ameba_gateway/example_gateway_ameba.c: the packets of the relay as the host opens them.
use carplay_poc.Base.{
  ap, ◌∙◌, ◌==◌, if_both, ℕ, ◌+◌, ◌^◌, ◌<◌, ◌≡◌, arith, true, some, List, ◌++◌, length, drop,
  take_all, drop-append, IsBytes, if◌then◌else◌,
}
use carplay_poc.Proto.{MediaInfoFits, read_media_header}
use carplay_poc.Proto.RoundTrip.{read_media_header-write}
use carplay_poc.Media.{video_flags}
use carplay_poc.Media.Flags.{video_flags-lt}
use carplay_poc.Crypto.{decrypt_packet}
use carplay_poc.Crypto.Cipher.{IsStreamCipher}
use carplay_poc.Crypto.Packet.{decrypt_packet-encrypt_packet}
use carplay_poc.Usb.Queue
use carplay_poc.Usb.Ring.{Tx, tx_ring_size, bytes, enqueue_packet}
use carplay_poc.Usb.Ring.Refine.{contents, IsValid, enqueue_packet_refines}
use carplay_poc.Usb.Relay.{
  usb_crypto_nonce, media_info, encrypt_payload, enqueue_media_packet, enqueue_encrypted,
}

media_info-Fits :
    (stream_id seq_no : ℕ) (payload : List ℕ)
    → IsBytes payload
    → stream_id < 2 ^ 8
    → seq_no < 2 ^ 32
    → MediaInfoFits (media_info stream_id seq_no payload (8 + length payload))
media_info-Fits stream_id seq_no payload hb hs hq = record {
  stream_fits = hs;
  flags_fit =
      if_both (λ n. n < 2 ^ 8) (stream_id == 1) (video_flags payload) 0 (video_flags-lt payload hb)
        (omega arith);
  seq_fits = hq;
  len_fits = omega arith;
}

module _ (xor : List ℕ → List ℕ → ℕ → List ℕ → List ℕ) where
  -- A payload that is not empty is encrypted whole.
  encrypt_payload_lem :
      (stream_id seq_no : ℕ) (payload : List ℕ)
      → IsStreamCipher xor
      → IsBytes payload
      → stream_id < 2 ^ 8
      → seq_no < 2 ^ 32
      → 0 < length payload
      → 8 + length payload < 2 ^ 31
      → (p : List ℕ) × (encrypt_payload xor true stream_id seq_no payload ≡ some (bytes p))
        × (length p ≡ 8 + length payload)
        × (decrypt_packet xor (some (length payload)) (some usb_crypto_nonce) (some p) ≡ (
          length payload,
          some (record { stream_id = stream_id; seq_no = seq_no; plaintext = payload }),
        ))
  unfolding encrypt_payload
  encrypt_payload_lem stream_id seq_no payload c hb hs hq some' small =
      let (p, e, len, opened) =
        decrypt_packet-encrypt_packet xor (8 + length payload) (length payload) stream_id seq_no
          usb_crypto_nonce payload c hb hs hq small (omega arith) (omega arith) in
      (p, ground (arith, e, len, take_all (8 + length payload) p), len, opened)

  -- A payload handed to the relay goes into the ring as one packet, whole or not at all. The host
  -- reads the media header from the packet's first 16 bytes, with the payload's stream, sequence
  -- number and flags, and decrypts the rest, with the nonce of the USB relay, to the payload, its
  -- stream and its sequence number. The payload is neither empty nor 2 GiB long, there is memory, and
  -- `chacha20_xor` is a stream cipher.
  pub enqueue_media_packet_opens :
      (stream_id seq_no : ℕ) (payload : List ℕ) (t : Tx)
      → IsStreamCipher xor
      → IsValid t
      → IsBytes payload
      → stream_id < 2 ^ 8
      → seq_no < 2 ^ 32
      → 0 < length payload
      → 8 + length payload < 2 ^ 31
      → let (rc, t') = enqueue_media_packet xor true stream_id seq_no payload t in
        (packet : List ℕ) × ((rc, contents t') ≡ Queue.push tx_ring_size (contents t) packet)
        × IsValid t'
        × (read_media_header (some packet)
            ≡ some (record {
              stream_id = stream_id;
              flags = if stream_id == 1 then video_flags payload else 0;
              seq_no = seq_no;
              payload_len = 8 + length payload;
            }))
        × (decrypt_packet xor
              (some (length payload))
              (some usb_crypto_nonce)
              (some (drop 16 packet))
            ≡ (
              length payload,
              some (record { stream_id = stream_id; seq_no = seq_no; plaintext = payload }),
            ))
  unfolding enqueue_media_packet enqueue_encrypted
  enqueue_media_packet_opens stream_id seq_no payload t c v hb hs hq some' small =
      let (p, e, len, opened) =
        encrypt_payload_lem stream_id seq_no payload c hb hs hq some' small in
      let info = media_info stream_id seq_no payload (8 + length payload) in
      let whole : some info
          ≡ some (record {
            stream_id = stream_id;
            flags = if stream_id == 1 then video_flags payload else 0;
            seq_no = seq_no;
            payload_len = 8 + length payload;
          }) =
        ap
          (λ n. some (record {
            stream_id = stream_id;
            flags = if stream_id == 1 then video_flags payload else 0;
            seq_no = seq_no;
            payload_len = n;
          }))
          (omega arith) in
      let (header, written, size, back) =
        read_media_header-write info p (media_info-Fits stream_id seq_no payload hb hs hq) in
      let step : enqueue_media_packet xor true stream_id seq_no payload t
          ≡ enqueue_packet t (bytes header) (bytes p) =
        ground (arith, e, len, written) in
      let (pushed, valid) = enqueue_packet_refines t header p v (omega arith) in
      (
        header ++ p,
        rw step pushed,
        rw step valid,
        back ∙ whole,
        rw (drop-append 16 header p size) opened,
      )
