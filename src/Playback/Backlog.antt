-- ===== src/Playback/Backlog.antt =====
-- gateway_client/gateway_client.cpp: what the queue of video packets holds.
use carplay_poc.Base.{
  true, ◌∷◌, zero, ◌≤◌, inr, ◌<◌, false, suc, refl, ℕ, arith, ◌+◌, ◌≡◌, [], inl, Bool, List, ◌⊎◌,
  Bool-cases, length, get_or, drop, All, length-append, length-drop, drop_all, leb, tests, ap, not,
  bit_and, ◌==◌, Option-cases, if_both, byte_at,
}
use carplay_poc.Playback.{QueuedVideoPacket, VideoState, read_u16le, read_u32le}
use carplay_poc.Playback.Queue.{
  max_queued_video_packets, video_catchup_threshold, no_packet, enqueue_video_packet, keep_from,
  trim_video_queue_for_latency, read_video, h264_nal_type, annexb_packet, take_video,
}
use carplay_poc.Proto.{flag_keyframe, flag_config}
use carplay_poc.Playback.Fragments.{
  reset_video_fragments, assemble, begin_frame, store_part, finish_frame, reassemble_video_payload,
}

-- Nothing waits while the decoder needs a keyframe, and a long backlog begins with its only keyframe.
pub record IsPlayable (s : VideoState) : Type 0 where
  pub bounded : length s.queue ≤ max_queued_video_packets
  pub empty_while_waiting : (s.waiting_for_keyframe ≡ false) ⊎ (s.queue ≡ [])

abbrev pub IsInter : List QueuedVideoPacket → Type 0
IsInter q = All (λ (p : QueuedVideoPacket). p.keyframe ≡ false) q

drop-get_or :
    (i : ℕ) (q : List QueuedVideoPacket)
    → i < length q
    → drop i q ≡ get_or q i no_packet ∷ drop (suc i) q
drop-get_or i [] h = absurd (omega arith)
drop-get_or zero (p ∷ q) h = refl
drop-get_or (suc i) (p ∷ q) h = drop-get_or i q (omega arith)

-- The search finds the last keyframe, where there is one.
pub keep_from-cases :
    (i : ℕ) (q : List QueuedVideoPacket)
    → i ≤ length q
    → IsInter (drop i q)
    → ((keep_from i q ≡ length q) × IsInter q)
      ⊎ ((p : QueuedVideoPacket) × (later : List QueuedVideoPacket) × (drop (keep_from i q) q
            ≡ p ∷ later)
          × (keep_from i q < length q)
          × (p.keyframe ≡ true)
          × IsInter later)
unfolding keep_from
keep_from-cases zero q h n = inl (refl, n)
keep_from-cases (suc i) q h n =
    let here = drop-get_or i q (omega arith) in
    let p = get_or q i no_packet in
    elim (Bool-cases p.keyframe) [
      | inl y ↦ rw y (inr (p, drop (suc i) q, here, omega arith, y, n))
      | inr k ↦ rw k (keep_from-cases i q (omega arith) (rw here (k, n)))
    ]

-- A queue longer than six packets is trimmed to its last keyframe and what follows it, or emptied where it has
-- none; then the decoder waits for a keyframe. What is dropped is counted.
pub trim_cases :
    (s : VideoState)
    → let s' = trim_video_queue_for_latency s in
      ((length s.queue ≤ video_catchup_threshold) × (s' ≡ s))
      ⊎ (IsInter s.queue
          × (s'.queue ≡ [])
          × (s'.waiting_for_keyframe ≡ true)
          × (s'.dropped_packets ≡ s.dropped_packets + length s.queue))
      ⊎ ((n : ℕ) × (p : QueuedVideoPacket) × (later : List QueuedVideoPacket) × (drop n s.queue
            ≡ p ∷ later)
          × (p.keyframe ≡ true)
          × IsInter later
          × (s' ≡ record s { queue = p ∷ later; dropped_packets = s.dropped_packets + n }))
unfolding trim_video_queue_for_latency
trim_cases s =
    let found =
      keep_from-cases (length s.queue) s.queue (omega arith)
        (rw (drop_all (length s.queue) s.queue (omega arith)) tt) in
    elim (Bool-cases (leb (length s.queue) video_catchup_threshold)) [
      | inl y ↦ inl (omega (tests, y), ground (arith, y))
      | inr n ↦ elim found [
        | inl (e, inter) ↦
            inr (inl (inter, ground (arith, n, e), ground (arith, n, e), ground (arith, n, e)))
        | inr (p, later, e, less, key, inter) ↦ inr (
            inr (
              keep_from (length s.queue) s.queue,
              p,
              later,
              e,
              key,
              inter,
              ground (arith, n, e, less),
            ))
      ]
    ]

pub enqueue-IsPlayable :
    (s : VideoState) (packet : List ℕ) (keyframe : Bool) (seq_no : ℕ)
    → IsPlayable s
    → IsPlayable (enqueue_video_packet s packet keyframe seq_no)
unfolding enqueue_video_packet
enqueue-IsPlayable s packet keyframe seq_no v =
    let queued : QueuedVideoPacket = record {
      packet = packet;
      keyframe = keyframe;
      seq_no = seq_no;
    } in
    record {
      bounded = ground (arith, v.bounded, length-append s.queue (queued ∷ []));
      empty_while_waiting = ground (arith, v.empty_while_waiting);
    }

pub trim-IsPlayable : (s : VideoState) → IsPlayable s → IsPlayable (trim_video_queue_for_latency s)
trim-IsPlayable s v = elim (trim_cases s) [
  | inl (small, same) ↦ rw same v
  | inr (inl (inter, none_left, waits, dropped)) ↦ record {
    bounded = ground (arith, none_left);
    empty_while_waiting = inr none_left;
  }
  | inr (inr (n, p, later, e, key, inter, same)) ↦
      let fewer : length (p ∷ later) ≤ length s.queue =
        omega (arith, ap (λ (q : List QueuedVideoPacket). length q) e, length-drop n s.queue) in
      rw same record {
        bounded = omega (arith, fewer, v.bounded);
        empty_while_waiting = ground (arith, v.empty_while_waiting, fewer);
      }
]

finish_frame-queue :
    (payload : List ℕ) (flags : ℕ) (s : VideoState)
    → let s' = finish_frame payload flags s in
      (s'.state.queue ≡ s.queue) × (s'.state.waiting_for_keyframe ≡ s.waiting_for_keyframe)
unfolding finish_frame reset_video_fragments
finish_frame-queue payload flags s = elim (Option-cases (assemble s.frag_count s.frag_parts)) [
  | inl n ↦ ground (arith, n)
  | inr (whole, e) ↦ ground (arith, e)
]

store_part-queue :
    (i : ℕ) (part : List ℕ) (seq : ℕ) (s : VideoState)
    → let s' = store_part i part seq s in
      (s'.queue ≡ s.queue) × (s'.waiting_for_keyframe ≡ s.waiting_for_keyframe)
unfolding store_part
store_part-queue i part seq s = ground arith

begin_frame-queue :
    (frame_id count flags : ℕ) (s : VideoState)
    → let s' = begin_frame frame_id count flags s in
      (s'.queue ≡ s.queue) × (s'.waiting_for_keyframe ≡ s.waiting_for_keyframe)
unfolding begin_frame reset_video_fragments
begin_frame-queue frame_id count flags s = ground arith

-- Putting a frame together leaves the queue alone.
pub reassemble-queue :
    (s : VideoState) (payload : List ℕ) (flags seq : ℕ)
    → let r = reassemble_video_payload s payload flags seq in
      (r.state.queue ≡ s.queue) × (r.state.waiting_for_keyframe ≡ s.waiting_for_keyframe)
unfolding reassemble_video_payload reset_video_fragments
reassemble-queue s payload flags seq =
    let b = begin_frame (read_u32le payload 12) (read_u16le payload 8) (byte_at payload 4) s in
    let t = store_part (read_u16le payload 6) (drop 16 payload) seq b in
    ground (
      arith,
      finish_frame-queue payload (byte_at payload 4) t,
      store_part-queue (read_u16le payload 6) (drop 16 payload) seq b,
      begin_frame-queue (read_u32le payload 12) (read_u16le payload 8) (byte_at payload 4) s,
    )

take_video-IsPlayable :
    (s : VideoState) (payload : List ℕ) (flags seq_no : ℕ)
    → IsPlayable s
    → IsPlayable (take_video s payload flags seq_no)
unfolding take_video
take_video-IsPlayable s payload flags seq_no v =
    let nal_type = h264_nal_type payload in
    let keyframe = not (bit_and flags flag_keyframe == 0) in
    if_both IsPlayable (not (bit_and flags flag_config == 0)) _ _
      (if_both IsPlayable (nal_type == 7) _ _
        record { bounded = v.bounded; empty_while_waiting = v.empty_while_waiting }
        (if_both IsPlayable (nal_type == 8) _ _
          record { bounded = v.bounded; empty_while_waiting = v.empty_while_waiting } v))
      (trim-IsPlayable (enqueue_video_packet s (annexb_packet s keyframe payload) keyframe seq_no)
        (enqueue-IsPlayable s (annexb_packet s keyframe payload) keyframe seq_no v))

-- Whatever payload of the video stream comes, a fragment or not, the queue holds at most eight packets
-- afterwards, and none while the decoder waits for a keyframe, if that was so before.
pub read_video-IsPlayable :
    (s : VideoState) (payload : List ℕ) (flags seq_no : ℕ)
    → IsPlayable s
    → IsPlayable (read_video s payload flags seq_no)
unfolding read_video
read_video-IsPlayable s payload flags seq_no v =
    let r = reassemble_video_payload s payload flags seq_no in
    let (queue, waiting) = reassemble-queue s payload flags seq_no in
    let v' : IsPlayable r.state = record {
      bounded = ground (arith, queue, v.bounded);
      empty_while_waiting = ground (arith, queue, waiting, v.empty_while_waiting);
    } in
    if_both IsPlayable r.complete _ _ (take_video-IsPlayable r.state r.payload r.flags seq_no v') v'
