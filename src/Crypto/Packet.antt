-- ===== src/Crypto/Packet.antt =====
-- wsh264/src/crypto_stream.c: packets and their plaintexts.
use carplay_poc.Base.{
  ℕ, ◌+◌, ◌^◌, ◌<◌, ◌≤◌, ◌≡◌, none, some, List, ◌∷◌, arith, length, IsBytes, word_back, u8, ◌>>>◌,
  ◌↔◌, ◌⊎◌, ◌≢◌, true, byte_at,
}
use carplay_poc.Crypto.{
  encrypt_packet, decrypt_packet, magic0, magic1, crypto_version, default_key, packet_nonce,
  is_negative,
}
use carplay_poc.Crypto.Cipher.{IsStreamCipher}

module _ (xor : List ℕ → List ℕ → ℕ → List ℕ → List ℕ) where
  -- Decrypting what was encrypted under the same session nonce gives back the stream, the sequence
  -- number and the plaintext, in any buffer that holds it. The plaintext is below 2 GiB, and
  -- `chacha20_xor` is a stream cipher.
  pub decrypt_packet-encrypt_packet :
      (room room' stream seq : ℕ) (nonce plain : List ℕ)
      → IsStreamCipher xor
      → IsBytes plain
      → stream < 2 ^ 8
      → seq < 2 ^ 32
      → 8 + length plain < 2 ^ 31
      → 8 + length plain ≤ room
      → length plain ≤ room'
      → (p : List ℕ) × (encrypt_packet xor (some room) stream seq (some nonce) (some plain)
          ≡ (8 + length plain, some p))
        × (length p ≡ 8 + length plain)
        × (decrypt_packet xor (some room') (some nonce) (some p)
            ≡ (length plain, some (record { stream_id = stream; seq_no = seq; plaintext = plain })))
  unfolding encrypt_packet decrypt_packet
  decrypt_packet-encrypt_packet room room' stream seq nonce plain c hb hs hq short h h' = (
    magic0
        ∷ magic1
        ∷ crypto_version
        ∷ stream
        ∷ u8 (seq >>> 24)
        ∷ u8 (seq >>> 16)
        ∷ u8 (seq >>> 8)
        ∷ u8 seq
        ∷ xor default_key (packet_nonce nonce seq) 1 plain,
    ground arith,
    omega (arith, c.same_length default_key (packet_nonce nonce seq) 1 plain),
    rw (word_back seq hq, c.undoes default_key (packet_nonce nonce seq) 1 plain hb)
        (ground (arith, c.same_length default_key (packet_nonce nonce seq) 1 plain)),
  )

  -- A packet below 2 GiB is refused, with a negative result and nothing stored, exactly when it is
  -- shorter than its header, begins otherwise than "CH" and version 1, or does not fit the buffer.
  pub decrypt_packet_refuses :
      (room : ℕ) (nonce p : List ℕ)
      → length p < 2 ^ 31
      → let (rc, stored) = decrypt_packet xor (some room) (some nonce) (some p) in
        ((is_negative rc ≡ true) ↔ (stored ≡ none))
        × ((stored ≡ none) ↔ (
            (length p < 8)
            ⊎ (byte_at p 0 ≢ b'C')
            ⊎ (byte_at p 1 ≢ b'H')
            ⊎ (byte_at p 2 ≢ 1)
            ⊎ (room + 8 < length p)))
  unfolding decrypt_packet
  decrypt_packet_refuses room nonce p h = ground arith
