-- ===== src/Proto/RoundTrip.antt =====
-- wsh264/src/gateway_proto.c: what the readers make of what the writers store, and what they refuse.
use carplay_poc.Base.{
  word_back, ℕ, ◌≡◌, refl, none, some, List, [], ◌∷◌, ◌++◌, arith, be16_sum, be32_sum, IsBytes,
  length, ◌↔◌, read_be32, bit_or, u8, u16, ◌>>>◌, ◌<<<◌, ◌≢◌, ◌∙◌,
}
use carplay_poc.Proto.{
  InitInfo, MediaInfo, InitInfoFits, MediaInfoFits, write_init, read_init, write_media_header,
  read_media_header,
}

-- The init packet is read back as it was written, whatever follows it.
pub read_init-write_init :
    (i : InitInfo) (rest : List ℕ)
    → InitInfoFits i
    → (p : List ℕ) × (write_init (some i) ≡ some p)
      × (length p ≡ 16)
      × (read_init (some (p ++ rest)) ≡ some i)
unfolding write_init read_init
read_init-write_init i rest h =
    (_, refl, refl, rw (word_back i.audio_sample_rate h.rate_fits, half_back) refl)
  where
    half_back :
        u16 (bit_or (u8 (i.audio_sample_bits >>> 8) <<< 8) (u8 i.audio_sample_bits))
        ≡ i.audio_sample_bits
    half_back =
        be16_sum (u8 (i.audio_sample_bits >>> 8)) (u8 i.audio_sample_bits) (omega arith)
          (omega arith)
        ∙ omega (arith, h.bits_fit)

-- A packet header is read back as it was written, whatever follows it.
pub read_media_header-write :
    (m : MediaInfo) (rest : List ℕ)
    → MediaInfoFits m
    → (p : List ℕ) × (write_media_header (some m) ≡ some p)
      × (length p ≡ 16)
      × (read_media_header (some (p ++ rest)) ≡ some m)
unfolding write_media_header read_media_header
read_media_header-write m rest h =
    (_, refl, refl, rw (word_back m.seq_no h.seq_fits, word_back m.payload_len h.len_fits) refl)

-- On at least four bytes the reader of the init packet succeeds exactly when they begin with "GWI1".
pub read_init_iff :
    (a b c d : ℕ) (rest : List ℕ)
    → IsBytes (a ∷ b ∷ c ∷ d ∷ [])
    → (read_init (some (a ∷ b ∷ c ∷ d ∷ rest)) ≢ none)
      ↔ ((a ≡ b'G') × (b ≡ b'W') × (c ≡ b'I') × (d ≡ b'1'))
unfolding read_init read_be32
read_init_iff a b c d rest h = ground (arith, be32_sum a b c d)

-- On at least four bytes the reader of a packet header succeeds exactly when they begin with "GWP1".
pub read_media_header_iff :
    (a b c d : ℕ) (rest : List ℕ)
    → IsBytes (a ∷ b ∷ c ∷ d ∷ [])
    → (read_media_header (some (a ∷ b ∷ c ∷ d ∷ rest)) ≢ none)
      ↔ ((a ≡ b'G') × (b ≡ b'W') × (c ≡ b'P') × (d ≡ b'1'))
unfolding read_media_header read_be32
read_media_header_iff a b c d rest h = ground (arith, be32_sum a b c d)
