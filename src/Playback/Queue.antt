-- ===== src/Playback/Queue.antt =====
-- gateway_client/gateway_client.cpp: the queue of video packets for the decoder, and what the reader does with
-- a payload of the video stream. `std::deque` and `std::vector` are lists.
use carplay_poc.Base.{
  ◌&&◌, bit_and, ◌+◌, List, [], ◌++◌, ◌∷◌, suc, zero, not, ℕ, Bool, false, true, ltb, leb, ◌==◌,
  if◌then◌else◌, length, get_or, drop, byte_at,
}
use carplay_poc.Playback.{QueuedVideoPacket, VideoState}
use carplay_poc.Proto.{flag_keyframe, flag_config}
use carplay_poc.Playback.Fragments.{reassemble_video_payload}

abbrev pub max_queued_video_packets : ℕ
max_queued_video_packets = 8

abbrev pub video_catchup_threshold : ℕ
video_catchup_threshold = 6

-- a packet outside the queue; it is not reached
abbrev pub no_packet : QueuedVideoPacket
no_packet = record { packet = []; keyframe = false; seq_no = 0 }

unfoldable pub h264_nal_type : List ℕ → ℕ
h264_nal_type payload = if length payload == 0 then 0 else bit_and (byte_at payload 0) 0x1F

unfoldable pub enqueue_video_packet : VideoState → List ℕ → Bool → ℕ → VideoState
enqueue_video_packet s packet keyframe seq_no =
    let queued : QueuedVideoPacket = record {
      packet = packet;
      keyframe = keyframe;
      seq_no = seq_no;
    } in
    let waiting = s.waiting_for_keyframe && not keyframe in
    if waiting
    then s
    else if leb max_queued_video_packets (length s.queue)
    then record s {
      dropped_packets = s.dropped_packets + length s.queue;
      queue = if keyframe then queued ∷ [] else [];
      waiting_for_keyframe = not keyframe;
    }
    else record s {
      queue = s.queue ++ queued ∷ [];
      waiting_for_keyframe = not keyframe && s.waiting_for_keyframe;
    }

-- the last keyframe among the first `i`, or the end of the queue
unfoldable pub keep_from : ℕ → List QueuedVideoPacket → ℕ
keep_from zero queue = length queue
keep_from (suc i) queue =
    let rest = keep_from i queue in
    let candidate = get_or queue i no_packet in if candidate.keyframe then i else rest

unfoldable pub trim_video_queue_for_latency : VideoState → VideoState
unfolding keep_from
trim_video_queue_for_latency s =
    let size = length s.queue in
    let from = keep_from size s.queue in
    if leb size video_catchup_threshold
    then s
    else if leb size from
    then record s {
      dropped_packets = s.dropped_packets + size;
      queue = [];
      waiting_for_keyframe = true;
    }
    else if ltb 0 from
    then record s { dropped_packets = s.dropped_packets + from; queue = drop from s.queue }
    else s

unfoldable pub annexb_append : List ℕ → List ℕ → List ℕ
annexb_append packet nal = if length nal == 0 then packet else packet ++ (0 ∷ 0 ∷ 0 ∷ 1 ∷ []) ++ nal

-- the packet for the decoder: before a keyframe stand the parameter sets
unfoldable pub annexb_packet : VideoState → Bool → List ℕ → List ℕ
unfolding annexb_append
annexb_packet s keyframe payload =
    let sets = if keyframe then annexb_append (annexb_append [] s.sps) s.pps else [] in
    annexb_append sets payload

-- What `network_reader` does with a whole payload of the video stream.
unfoldable pub take_video : VideoState → List ℕ → ℕ → ℕ → VideoState
take_video s payload flags seq_no =
    let nal_type = h264_nal_type payload in
    let keyframe = not (bit_and flags flag_keyframe == 0) in
    if not (bit_and flags flag_config == 0)
    then if nal_type == 7
      then record s { sps = payload }
      else if nal_type == 8
      then record s { pps = payload }
      else s
    else trim_video_queue_for_latency
        (enqueue_video_packet s (annexb_packet s keyframe payload) keyframe seq_no)

-- What it does with a payload of the video stream, a fragment or not.
unfoldable pub read_video : VideoState → List ℕ → ℕ → ℕ → VideoState
read_video s payload flags seq_no =
    let r = reassemble_video_payload s payload flags seq_no in
    if r.complete then take_video r.state r.payload r.flags seq_no else r.state
