-- ===== src/Playback/Reassembly.antt =====
-- gateway_client/gateway_client.cpp: fragments that come in order make the frame that was split.
use carplay_poc.Base.{
  drop, byte_at, ℕ, ◌+◌, ◌^◌, ◌<◌, ◌≡◌, refl, arith, true, List, length, bit_or_fields_low,
  le32_sum, u8, ◌>>>◌, ◌<<<◌, bit_or, u16, u32,
}
use carplay_poc.Streamer.{write_u16le, write_u32le}
use carplay_poc.Streamer.Fragments.{fragment}
use carplay_poc.Media.{has_magic}
use carplay_poc.Playback.{VideoState, read_u16le, read_u32le}
use carplay_poc.Playback.Fragments.{begin_frame, store_part, finish_frame, reassemble_video_payload}

pub u16_back : (v : ℕ) → v < 2 ^ 16 → u16 (bit_or (u8 v) (u8 (v >>> 8) <<< 8)) ≡ v
u16_back v h =
    omega
      (arith, bit_or_fields_low 8 (u8 (v >>> 8)) (u8 v) {a = u8 (v >>> 8) <<< 8} refl (omega arith))

pub u32_back :
    (v : ℕ)
    → v < 2 ^ 32
    → bit_or
        (bit_or (bit_or (u8 v) (u8 (v >>> 8) <<< 8)) (u8 (v >>> 16) <<< 16))
        (u32 (u8 (v >>> 24) <<< 24))
      ≡ v
u32_back v h = omega (arith, le32_sum (u8 v) (u8 (v >>> 8)) (u8 (v >>> 16)) (u8 (v >>> 24)))

-- What is in the header of a fragment.
pub reassemble_known :
    (s : VideoState) (p part : List ℕ) (flags i count frame_id flags₀ seq : ℕ)
    → length p ≡ 16 + length part
    → has_magic b'V' b'F' b'G' b'1' p ≡ true
    → byte_at p 4 ≡ flags
    → read_u16le p 6 ≡ i
    → read_u16le p 8 ≡ count
    → read_u32le p 12 ≡ frame_id
    → drop 16 p ≡ part
    → i < count
    → reassemble_video_payload s p flags₀ seq
      ≡ finish_frame p flags (store_part i part seq (begin_frame frame_id count flags s))
unfolding reassemble_video_payload
reassemble_known s p part flags i count frame_id flags₀ seq len magic f ri rc rid d less =
    rw (magic, ri, rc, rid, d, f) (ground arith)

-- A fragment as the server sends it is kept for its frame.
pub reassemble-fragment :
    (s : VideoState) (flags i count frame_id : ℕ) (part : List ℕ) (flags₀ seq : ℕ)
    → i < count
    → count < 2 ^ 16
    → frame_id < 2 ^ 32
    → let p = fragment flags i count frame_id part in
      reassemble_video_payload s p flags₀ seq
      ≡ finish_frame p flags (store_part i part seq (begin_frame frame_id count flags s))
unfolding fragment write_u16le write_u32le read_u16le read_u32le has_magic
reassemble-fragment s flags i count frame_id part flags₀ seq less small id_small =
    reassemble_known s (fragment flags i count frame_id part) part flags i count frame_id flags₀ seq
      (omega arith) refl refl (u16_back i (omega arith)) (u16_back count small)
      (u32_back frame_id id_small) refl less
