-- ===== src/Playback/Audio.antt =====
-- gateway_client/gateway_client.cpp: the queue of audio packets and its statistics. SDL's audio device is a
-- parameter: a state `Sdl`, and what its calls answer. A `size_t` and an `unsigned long` have 64 bits on
-- the host. The locks make each function one step; the log is left out.
use carplay_poc.Base.{
  ◌∷◌, ◌-◌, ◌++◌, ℕ, not, List, true, ◌&&◌, ◌+◌, ◌||◌, [], Bool, ltb, leb, ◌==◌, if◌then◌else◌,
  length, drop, u32, sub64, add64,
}
use carplay_poc.Media.{has_magic}
use carplay_poc.Playback.{read_u32le}

-- `AudioTelemetry`, without its lock
pub record Telemetry : Type 0 where
  pub last_rx_ms : ℕ
  pub rx_packets : ℕ
  pub rx_bytes : ℕ
  pub feed_packets : ℕ
  pub dropped_packets : ℕ
  pub low_water_events : ℕ
  pub underflow_events : ℕ
  pub max_rx_gap_ms : ℕ
  pub gap_over_30ms : ℕ
  pub min_sdl_queued : ℕ
  pub max_sdl_queued : ℕ
  pub max_app_queued : ℕ
  pub debug_header_packets : ℕ
  pub debug_index_gaps : ℕ
  pub debug_offset_jumps : ℕ
  pub have_debug_prev : Bool
  pub last_debug_index : ℕ
  pub last_debug_offset : ℕ
  pub last_debug_pcm_bytes : ℕ
  pub low_water_active : Bool
  pub underflow_active : Bool

-- `SharedAudioState`, and the fields of `PlaybackState` about audio
pub record Player : Type 0 where
  pub queue : List (List ℕ)
  pub queued_bytes : ℕ
  pub started : Bool
  pub dropped_packets : ℕ
  pub prebuffer_bytes : ℕ
  pub target_bytes : ℕ
  pub max_buffer_bytes : ℕ
  pub audio_packets : ℕ
  pub audio_bytes : ℕ
  pub audio_dropped_packets : ℕ
  pub audio_feed_packets : ℕ
  pub audio_underflow_events : ℕ
  pub telemetry : Telemetry

unfoldable pub note_rx : ℕ → ℕ → Telemetry → Telemetry
note_rx now payload_size t =
    let gap_ms = sub64 now t.last_rx_ms in
    let gaps = if t.last_rx_ms == 0 then t else record t {
      max_rx_gap_ms = if ltb t.max_rx_gap_ms gap_ms then gap_ms else t.max_rx_gap_ms;
      gap_over_30ms = if ltb 30 gap_ms then add64 t.gap_over_30ms 1 else t.gap_over_30ms;
    } in
    record gaps {
      last_rx_ms = now;
      rx_packets = add64 t.rx_packets 1;
      rx_bytes = add64 t.rx_bytes payload_size;
    }

unfoldable pub note_drop : Telemetry → Telemetry
note_drop t = record t { dropped_packets = add64 t.dropped_packets 1 }

unfoldable pub note_feed : Telemetry → Telemetry
note_feed t = record t { feed_packets = add64 t.feed_packets 1 }

unfoldable pub note_levels : ℕ → ℕ → Player → Player
note_levels sdl_queued app_queued p =
    let t = p.telemetry in
    let low_water = p.started && ltb (add64 sdl_queued app_queued) 640 in
    let underflow = p.started && (sdl_queued == 0 && app_queued == 0) in
    record p {
      audio_underflow_events =
          if underflow && not t.underflow_active
          then add64 p.audio_underflow_events 1
          else p.audio_underflow_events;
      telemetry = record t {
        min_sdl_queued = if ltb sdl_queued t.min_sdl_queued then sdl_queued else t.min_sdl_queued;
        max_sdl_queued = if ltb t.max_sdl_queued sdl_queued then sdl_queued else t.max_sdl_queued;
        max_app_queued = if ltb t.max_app_queued app_queued then app_queued else t.max_app_queued;
        low_water_events =
            if low_water && not t.low_water_active
            then add64 t.low_water_events 1
            else t.low_water_events;
        underflow_events =
            if underflow && not t.underflow_active
            then add64 t.underflow_events 1
            else t.underflow_events;
        low_water_active = low_water;
        underflow_active = underflow;
      };
    }

-- `unwrap_audio_debug_payload`: the payload without the header, and the statistics
unfoldable pub unwrap_audio_debug_payload : Telemetry → List ℕ → List ℕ × Telemetry
unwrap_audio_debug_payload t payload =
    let chunk_index = read_u32le payload 4 in
    let offset = read_u32le payload 8 in
    let expected_index = u32 (t.last_debug_index + 1) in
    let expected_offset = u32 (t.last_debug_offset + t.last_debug_pcm_bytes) in
    if ltb (length payload) 12 || not (has_magic b'A' b'U' b'D' b'0' payload)
    then (payload, t)
    else (
      drop 12 payload,
      record t {
        debug_header_packets = add64 t.debug_header_packets 1;
        debug_index_gaps =
            if t.have_debug_prev && not (chunk_index == expected_index)
            then add64 t.debug_index_gaps 1
            else t.debug_index_gaps;
        debug_offset_jumps =
            if t.have_debug_prev && (not (offset == expected_offset) && not (offset == 0))
            then add64 t.debug_offset_jumps 1
            else t.debug_offset_jumps;
        have_debug_prev = true;
        last_debug_index = chunk_index;
        last_debug_offset = offset;
        last_debug_pcm_bytes = u32 (length payload - 12);
      },
    )

-- a packet that is not played
unfoldable pub count_drop : Player → Player
unfolding note_drop
count_drop p = record p {
  dropped_packets = add64 p.dropped_packets 1;
  audio_dropped_packets = add64 p.audio_dropped_packets 1;
  telemetry = note_drop p.telemetry;
}

-- the oldest packets are dropped until a packet of `size` bytes fits; `queue` are those left
unfoldable pub make_room : ℕ → List (List ℕ) → Player → Player
make_room size [] p = record p { queue = [] }
make_room size (q ∷ queue) p =
    let rest =
      make_room size queue
        (count_drop (record p { queued_bytes = sub64 p.queued_bytes (length q) })) in
    if ltb p.max_buffer_bytes (add64 p.queued_bytes size)
    then rest
    else record p { queue = q ∷ queue }

unfoldable pub enqueue_audio_packet : Player → List ℕ → Player
unfolding make_room
enqueue_audio_packet p₀ payload =
    let p = make_room (length payload) p₀.queue p₀ in
    if ltb p.max_buffer_bytes (length payload) then count_drop p else record p {
      queued_bytes = add64 p.queued_bytes (length payload);
      queue = p.queue ++ payload ∷ [];
    }

module _ {Sdl : Type 0} (unpause : Sdl → Sdl) (queue_audio : Sdl → List ℕ → Bool × Sdl) where
  -- the loop of `service_audio_output`: `queue` are the packets left, `sdl_queued` the bytes that SDL has
  unfoldable pub service_loop : List (List ℕ) → ℕ → Player → Sdl → Player × Sdl
  service_loop [] sdl_queued p sdl =
      if not p.started && ltb (add64 sdl_queued p.queued_bytes) p.prebuffer_bytes
      then (p, sdl)
      else (note_levels sdl_queued p.queued_bytes (record p { started = true }), sdl)
  service_loop (packet ∷ queue) sdl_queued p sdl =
      let taken = record p {
        started = true;
        queue = queue;
        queued_bytes = sub64 p.queued_bytes (length packet);
      } in
      let sdl₁ = if p.started then sdl else unpause sdl in
      let (accepted, sdl₂) = queue_audio sdl₁ packet in
      let fed = record taken {
        audio_feed_packets = add64 p.audio_feed_packets 1;
        telemetry = note_feed p.telemetry;
      } in
      let rest = service_loop queue (u32 (sdl_queued + length packet)) fed sdl₂ in
      let rest_empty = service_loop queue sdl_queued taken sdl₁ in
      if not p.started && ltb (add64 sdl_queued p.queued_bytes) p.prebuffer_bytes
      then (p, sdl)
      else if leb p.target_bytes sdl_queued
      then (note_levels sdl_queued p.queued_bytes (record p { started = true }), sdl)
      else if length packet == 0
      then rest_empty
      else if accepted
      then rest
      else (taken, sdl₂)

  -- `service_audio_output`, where there is an audio device
  unfoldable pub service_audio_output : ℕ → Player → Sdl → Player × Sdl
  service_audio_output sdl_queued p sdl = service_loop p.queue sdl_queued p sdl

  -- What `network_reader` does with a payload of the audio stream, where there is an audio device; `now` is
  -- the time in ms.
  unfoldable pub read_audio : ℕ → ℕ → Player → List ℕ → Sdl → Player × Sdl
  read_audio now sdl_queued p payload sdl =
      let (pcm, t) = unwrap_audio_debug_payload p.telemetry payload in
      let p₁ = record p {
        audio_packets = add64 p.audio_packets 1;
        audio_bytes = add64 p.audio_bytes (length pcm);
        telemetry = note_rx now (length pcm) t;
      } in
      service_audio_output sdl_queued (enqueue_audio_packet p₁ pcm) sdl
