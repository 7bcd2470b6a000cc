-- ===== src/Media.antt =====
-- The classification of a video payload, the same in gateway/gateway.c and
-- ameba_gateway/example_gateway_ameba.c. A payload is never a null pointer here.
pub mod Flags
use carplay_poc.Base.{
  ℕ, Bool, ◌&&◌, ◌||◌, List, [], ◌∷◌, ◌==◌, leb, if◌then◌else◌, length, byte_at, bit_and, bit_or,
}
use carplay_poc.Proto.{flag_keyframe, flag_config}

-- `memcmp(p, magic, 4) == 0` for the four characters of a magic
unfoldable pub has_magic : ℕ → ℕ → ℕ → ℕ → List ℕ → Bool
has_magic a b c d p =
    byte_at p 0 == a && (byte_at p 1 == b && (byte_at p 2 == c && byte_at p 3 == d))

-- `gateway_video_flags`
unfoldable pub video_flags : List ℕ → ℕ
unfolding has_magic
video_flags p =
    if length p == 0
    then 0
    else if leb 16 (length p) && has_magic b'V' b'F' b'G' b'1' p
    then byte_at p 4
    else let nal_type = bit_and (byte_at p 0) 0x1F in
      let flags = if nal_type == 5 then bit_or 0 flag_keyframe else 0 in
      if nal_type == 7 || nal_type == 8 then bit_or flags flag_config else flags
