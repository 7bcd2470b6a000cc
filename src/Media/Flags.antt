-- ===== src/Media/Flags.antt =====
-- gateway/gateway.c: the range of the flags.
use carplay_poc.Base.{ℕ, zero, suc, ◌^◌, ◌<◌, arith, List, [], ◌∷◌, IsBytes, byte_at}
use carplay_poc.Media.{video_flags}

byte_at-lt : (bs : List ℕ) (i : ℕ) → IsBytes bs → byte_at bs i < 256
byte_at-lt [] i h = omega arith
byte_at-lt (b ∷ bs) zero h = h.0
byte_at-lt (b ∷ bs) (suc i) h = byte_at-lt bs i h.1

-- The flags of a payload of bytes fit their field.
pub video_flags-lt : (p : List ℕ) → IsBytes p → video_flags p < 2 ^ 8
unfolding video_flags
video_flags-lt p h = ground (arith, byte_at-lt p 4 h)
