-- ===== src/Playback.antt =====
-- gateway_client/gateway_client.cpp: the video that the client puts together and queues for the decoder.
-- Playback/Fragments.antt has the fragments of a large frame.
pub mod Fragments
pub mod Parts
pub mod Frames
pub mod Delivery
pub mod Queue
pub mod Backlog
pub mod Audio
pub mod Sound
pub mod Service
pub mod Input
pub mod Resync
pub mod Opened
pub mod Chunks
pub mod Startup
pub mod Reassembly
use carplay_poc.Base.{ℕ, ◌+◌, ◌*◌, Bool, true, false, List, [], byte_at, bit_or, u16, u32, ◌<<<◌}

pub record QueuedVideoPacket : Type 0 where
  pub packet : List ℕ
  pub keyframe : Bool
  pub seq_no : ℕ

-- `SharedVideoState`, without its lock
pub record VideoState : Type 0 where
  pub sps : List ℕ
  pub pps : List ℕ
  pub queue : List QueuedVideoPacket
  pub waiting_for_keyframe : Bool
  pub dropped_packets : ℕ
  pub frag_active : Bool
  pub frag_frame_id : ℕ
  pub frag_flags : ℕ
  pub frag_count : ℕ
  pub frag_last_seq_no : ℕ
  pub frag_received : ℕ
  pub frag_total_size : ℕ
  pub frag_parts : List (List ℕ)

unfoldable pub read_u16le : List ℕ → ℕ → ℕ
read_u16le p i = u16 (bit_or (byte_at p i) (byte_at p (i + 1) <<< 8))

unfoldable pub read_u32le : List ℕ → ℕ → ℕ
read_u32le p i =
    bit_or (bit_or (bit_or (byte_at p i) (byte_at p (i + 1) <<< 8)) (byte_at p (i + 2) <<< 16))
      (u32 (byte_at p (i + 3) <<< 24))
