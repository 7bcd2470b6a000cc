-- ===== src/Playback/Fragments.antt =====
-- gateway_client/gateway_client.cpp: a video frame put together from its fragments. A `size_t` that counts
-- fragments or bytes kept in memory does not wrap.
use carplay_poc.Base.{
  u32, ℕ, zero, suc, ◌+◌, Bool, true, false, not, ◌||◌, Option, none, some, List, [], ◌∷◌, ◌++◌,
  ◌==◌, leb, ltb, if◌then◌else◌, length, drop, get_or, byte_at, replicate,
}
use carplay_poc.Media.{has_magic}
use carplay_poc.Playback.{VideoState, read_u16le, read_u32le}

unfoldable pub reset_video_fragments : VideoState → VideoState
reset_video_fragments s = record s {
  frag_active = false;
  frag_frame_id = 0;
  frag_flags = 0;
  frag_count = 0;
  frag_last_seq_no = 0;
  frag_received = 0;
  frag_total_size = 0;
  frag_parts = [];
}

-- `frag_parts[i].assign (...)`
abbrev pub put_part : ℕ → List ℕ → List (List ℕ) → List (List ℕ)
put_part i part [] = []
put_part zero part (p ∷ ps) = part ∷ ps
put_part (suc i) part (p ∷ ps) = p ∷ put_part i part ps

-- the first `n` parts in order, unless one of them is empty
unfoldable pub assemble : ℕ → List (List ℕ) → Option (List ℕ)
assemble zero parts = some []
assemble (suc n) [] = none
assemble (suc n) ([] ∷ parts) = none
assemble (suc n) ((b ∷ bs) ∷ parts) = elim (assemble n parts) [
  | none ↦ none
  | some rest ↦ some ((b ∷ bs) ++ rest)
]

-- What `reassemble_video_payload` returns, and leaves in the variables given to it.
pub record Reassembled : Type 0 where
  pub complete : Bool
  pub payload : List ℕ
  pub flags : ℕ
  pub state : VideoState

-- a frame is begun where the fragment is not of the one that is being put together
unfoldable pub begin_frame : ℕ → ℕ → ℕ → VideoState → VideoState
unfolding reset_video_fragments replicate
begin_frame frame_id frag_count flags s =
    if not s.frag_active || not (s.frag_frame_id == frame_id) || not (s.frag_count == frag_count)
    then record (reset_video_fragments s) {
      frag_active = true;
      frag_frame_id = frame_id;
      frag_flags = flags;
      frag_count = frag_count;
      frag_parts = replicate frag_count [];
    }
    else s

-- a part is kept where none was
unfoldable pub store_part : ℕ → List ℕ → ℕ → VideoState → VideoState
store_part frag_index part seq_no s =
    let s' =
      if length (get_or s.frag_parts frag_index []) == 0
      then record s {
        frag_parts = put_part frag_index part s.frag_parts;
        frag_received = s.frag_received + 1;
        frag_total_size = s.frag_total_size + length part;
      }
      else s in
    record s' { frag_last_seq_no = seq_no }

-- what the parts that have come make
unfoldable pub finish_frame : List ℕ → ℕ → VideoState → Reassembled
unfolding reset_video_fragments assemble
finish_frame payload flags s =
    if not (s.frag_received == s.frag_count)
    then record { complete = false; payload = payload; flags = flags; state = s }
    else elim (assemble s.frag_count s.frag_parts) [
      | none ↦ record {
        complete = false;
        payload = payload;
        flags = flags;
        state = reset_video_fragments s;
      }
      | some assembled ↦ record {
        complete = true;
        payload = assembled;
        flags = s.frag_flags;
        state = reset_video_fragments s;
      }
    ]

unfoldable pub reassemble_video_payload : VideoState → List ℕ → ℕ → ℕ → Reassembled
reassemble_video_payload s payload flags seq_no =
    let frag_index = read_u16le payload 6 in
    let frag_count = read_u16le payload 8 in
    let frame_id = read_u32le payload 12 in
    if ltb (length payload) 16 || not (has_magic b'V' b'F' b'G' b'1' payload)
    then record { complete = true; payload = payload; flags = flags; state = s }
    else if frag_count == 0 || leb frag_count frag_index
    then record {
      complete = false;
      payload = payload;
      flags = byte_at payload 4;
      state = reset_video_fragments s;
    }
    else finish_frame payload (byte_at payload 4) (
        store_part frag_index (drop 16 payload) seq_no
          (begin_frame frame_id frag_count (byte_at payload 4) s))

-- The payloads of the video stream as `network_reader` hands them over, with one set of flags and sequence
-- numbers from `seq_no` on: the frames that come out, each with its flags, and the state behind them.
unfoldable pub receive_video : VideoState → ℕ → ℕ → List (List ℕ) → List (List ℕ × ℕ) × VideoState
receive_video s flags seq_no [] = ([], s)
receive_video s flags seq_no (p ∷ ps) =
    let r = reassemble_video_payload s p flags seq_no in
    let (out, s') = receive_video r.state flags (u32 (seq_no + 1)) ps in
    ((if r.complete then (r.payload, r.flags) ∷ out else out), s')
