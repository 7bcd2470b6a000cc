-- ===== src/Base/Endian.antt =====
-- The byte-order helpers that wsh264/src/gateway_proto.c and wsh264/src/crypto_stream.c define.
use Prim.Native.Nat.{ℕ, ◌+◌, ◌*◌, ◌^◌, ◌<◌, bit_or}
use mathlib.Core.Path.{◌≡◌, refl, ap}
use mathlib.Core.List.{List, [], ◌∷◌}
use native.Mathlib.Omega.{arith}
use carplay_poc.Base.Lists.{get_or}
use carplay_poc.Base.Words.{u8, u16, u32, ◌<<<◌, ◌>>>◌}
use carplay_poc.Base.Bits.{bit_or_fields, bit_or_fields_low}

-- The byte of an array at an index; the callers' arrays are long enough.
abbrev pub byte_at : List ℕ → ℕ → ℕ
byte_at bs i = get_or bs i 0

-- What each writer stores, first byte first.
unfoldable pub write_be16 : ℕ → List ℕ
write_be16 v = u8 (v >>> 8) ∷ u8 v ∷ []

unfoldable pub write_be32 : ℕ → List ℕ
write_be32 v = u8 (v >>> 24) ∷ u8 (v >>> 16) ∷ u8 (v >>> 8) ∷ u8 v ∷ []

unfoldable pub write_le32 : ℕ → List ℕ
write_le32 v = u8 v ∷ u8 (v >>> 8) ∷ u8 (v >>> 16) ∷ u8 (v >>> 24) ∷ []

-- What each reader makes of the bytes from index `i` on.
unfoldable pub read_be16 : List ℕ → ℕ → ℕ
read_be16 p i = u16 (bit_or (byte_at p i <<< 8) (byte_at p (i + 1)))

unfoldable pub read_be32 : List ℕ → ℕ → ℕ
read_be32 p i =
    bit_or
      (bit_or (bit_or (u32 (byte_at p i <<< 24)) (byte_at p (i + 1) <<< 16))
        (byte_at p (i + 2) <<< 8))
      (byte_at p (i + 3))

unfoldable pub read_le32 : List ℕ → ℕ → ℕ
read_le32 p i =
    bit_or (bit_or (bit_or (byte_at p i) (byte_at p (i + 1) <<< 8)) (byte_at p (i + 2) <<< 16))
      (u32 (byte_at p (i + 3) <<< 24))

pub be16_sum : (a b : ℕ) → a < 256 → b < 256 → u16 (bit_or (a <<< 8) b) ≡ a * 256 + b
be16_sum a b ha hb = omega (arith, bit_or_fields 8 a b {a = a <<< 8} refl hb)

pub be32_sum :
    (a b c d : ℕ)
    → a < 256
    → b < 256
    → c < 256
    → d < 256
    → bit_or (bit_or (bit_or (u32 (a <<< 24)) (b <<< 16)) (c <<< 8)) d
      ≡ a * 2 ^ 24 + b * 2 ^ 16 + c * 2 ^ 8 + d
be32_sum a b c d ha hb hc hd =
    let e : u32 (a <<< 24) ≡ a * 2 ^ 24 = omega arith in
    rw
      (
        bit_or_fields 24 a (b <<< 16) {a = u32 (a <<< 24)} e (omega arith),
        e,
        bit_or_fields 16 (a * 256 + b) (c <<< 8) {a = a * 2 ^ 24 + b <<< 16} (omega arith)
            (omega arith),
        bit_or_fields 8 (a * 65536 + b * 256 + c) d {a = a * 2 ^ 24 + b <<< 16 + c <<< 8}
            (omega arith) (omega arith),
      )
      refl

pub le32_sum :
    (a b c d : ℕ)
    → a < 256
    → b < 256
    → c < 256
    → d < 256
    → bit_or (bit_or (bit_or a (b <<< 8)) (c <<< 16)) (u32 (d <<< 24))
      ≡ a + b * 2 ^ 8 + c * 2 ^ 16 + d * 2 ^ 24
le32_sum a b c d ha hb hc hd =
    let e : u32 (d <<< 24) ≡ d * 2 ^ 24 = omega arith in
    rw
      (
        bit_or_fields_low 8 b a {a = b <<< 8} refl (omega arith),
        bit_or_fields_low 16 c (b <<< 8 + a) {a = c <<< 16} refl (omega arith),
        bit_or_fields_low 24 d (c <<< 16 + (b <<< 8 + a)) {a = u32 (d <<< 24)} e (omega arith),
        e,
      )
      (omega arith)

-- The four bytes of a word, put together again.
pub word_back :
    (v : ℕ)
    → v < 2 ^ 32
    → bit_or
        (bit_or (bit_or (u32 (u8 (v >>> 24) <<< 24)) (u8 (v >>> 16) <<< 16)) (u8 (v >>> 8) <<< 8))
        (u8 v)
      ≡ v
word_back v h = omega (arith, be32_sum (u8 (v >>> 24)) (u8 (v >>> 16)) (u8 (v >>> 8)) (u8 v))

pub write_le32_injective : (v w : ℕ) → v < 2 ^ 32 → w < 2 ^ 32 → write_le32 v ≡ write_le32 w → v ≡ w
unfolding write_le32
write_le32_injective v w hv hw e =
    let b0 : u8 v ≡ u8 w = ap (λ l. byte_at l 0) e in
    let b1 : u8 (v >>> 8) ≡ u8 (w >>> 8) = ap (λ l. byte_at l 1) e in
    let b2 : u8 (v >>> 16) ≡ u8 (w >>> 16) = ap (λ l. byte_at l 2) e in
    let b3 : u8 (v >>> 24) ≡ u8 (w >>> 24) = ap (λ l. byte_at l 3) e in omega arith
