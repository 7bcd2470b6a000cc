-- ===== src/Tests/Sounds.antt =====
-- The audio queue and the bit rate control at concrete values.
use carplay_poc.Base.{
  ℤ, pos, negsuc, Bool, true, ◌++◌, List, ◌≡◌, ◌<◌, ◌⊎◌, ◌^◌, ◌-◌, false, arith, ℕ, ◌∷◌, some, refl,
  [], ℤ, ◌≤ℤ◌, shl,
}
use carplay_poc.Playback.Service.{IsPlaying, IsFed, service_audio_output_lem}
use carplay_poc.Playback.Audio.{
  Telemetry, Player, count_drop, enqueue_audio_packet, service_audio_output,
}
use carplay_poc.Playback.Sound.{IsCounted, IsNeeded, enqueue_audio_lem}
use carplay_poc.Streamer.BitRate.{Ctrl, int_sqrt, note_p, update_frame}
use carplay_poc.Streamer.Range.{update_frame-range}
use carplay_poc.Streamer.Root.{IsRoot, int_sqrt-IsRoot}

abbrev pub no_telemetry : Telemetry
no_telemetry = record {
  last_rx_ms = 0;
  rx_packets = 0;
  rx_bytes = 0;
  feed_packets = 0;
  dropped_packets = 0;
  low_water_events = 0;
  underflow_events = 0;
  max_rx_gap_ms = 0;
  gap_over_30ms = 0;
  min_sdl_queued = 2 ^ 64 - 1;
  max_sdl_queued = 0;
  max_app_queued = 0;
  debug_header_packets = 0;
  debug_index_gaps = 0;
  debug_offset_jumps = 0;
  have_debug_prev = false;
  last_debug_index = 0;
  last_debug_offset = 0;
  last_debug_pcm_bytes = 0;
  low_water_active = false;
  underflow_active = false;
}

-- Two packets of two bytes wait in a buffer of five.
abbrev full_player : Player
full_player = record {
  queue = (1 ∷ 2 ∷ []) ∷ (3 ∷ 4 ∷ []) ∷ [];
  queued_bytes = 4;
  started = true;
  dropped_packets = 0;
  prebuffer_bytes = 2;
  target_bytes = 3;
  max_buffer_bytes = 5;
  audio_packets = 2;
  audio_bytes = 4;
  audio_dropped_packets = 0;
  audio_feed_packets = 0;
  audio_underflow_events = 0;
  telemetry = no_telemetry;
}

full_player-IsCounted : IsCounted full_player
full_player-IsCounted = record { counted = refl; bounded = omega arith; small = omega arith }

oldest_dropped :
    (enqueue_audio_packet full_player (5 ∷ 6 ∷ 7 ∷ [])).queue ≡ (3 ∷ 4 ∷ []) ∷ (5 ∷ 6 ∷ 7 ∷ []) ∷ []
unfolding enqueue_audio_packet count_drop
oldest_dropped = refl

enqueue_audio_lem_example :
    let p' = enqueue_audio_packet full_player (5 ∷ 6 ∷ 7 ∷ []) in
    IsCounted p'
    × (((5 < 3) × (p'.queue ≡ []))
        ⊎ ((lost : List (List ℕ)) × (kept : List (List ℕ)) × (full_player.queue ≡ lost ++ kept)
            × (p'.queue ≡ kept ++ (5 ∷ 6 ∷ 7 ∷ []) ∷ [])
            × IsNeeded 3 5 lost kept))
enqueue_audio_lem_example =
    enqueue_audio_lem full_player (5 ∷ 6 ∷ 7 ∷ []) full_player-IsCounted (omega arith)

-- A device that keeps what it is given.
abbrev device_queue : List ℕ → List ℕ → Bool × List ℕ
device_queue heard packet = (true, heard ++ packet)

abbrev device-IsPlaying : IsPlaying (λ heard. heard) device_queue
device-IsPlaying = record {
  played = λ heard. heard;
  unpaused = λ heard. refl;
  queued = λ heard packet. (refl, refl);
}

service_audio_output_lem_example :
    IsFed
      (λ heard. heard)
      device_queue
      device-IsPlaying
      full_player.queue
      full_player
      (9 ∷ [])
      (service_audio_output (λ heard. heard) device_queue 1 full_player (9 ∷ []))
service_audio_output_lem_example =
    service_audio_output_lem (λ heard. heard) device_queue device-IsPlaying 1 full_player (9 ∷ [])
      refl (omega arith)

-- 1.5 Mbit/s at 30 frames per second, after a few frames
abbrev some_ctrl : Ctrl
some_ctrl = record {
  target_bitrate = pos 1500000;
  min_qp = pos 26;
  max_qp = pos 35;
  cal_qp = pos 480;
  average_size = pos 1800000;
  target_frame_size = pos 1600000;
  i_cost = negsuc 999;
  frame_count = pos 20;
  gop = pos 4;
  fps = pos 30;
  max_qp_step = pos 4;
}

-- a P frame
abbrev p_frame : List ℕ
p_frame = 0x41 ∷ 7 ∷ 7 ∷ []

seventeen : int_sqrt 400 (pos 300) ≡ some 17
unfolding int_sqrt
seventeen = refl

int_sqrt-IsRoot_example : (r : ℕ) × (int_sqrt 400 (pos 300) ≡ some r) × IsRoot 300 r
int_sqrt-IsRoot_example = int_sqrt-IsRoot 400 300 (omega arith) (omega arith)

update_frame-range_example :
    (qp : ℤ) × (c' : Ctrl) × (update_frame 92682 p_frame some_ctrl ≡ some (qp, c'))
    × (pos 26 ≤ℤ qp)
    × (qp ≤ℤ pos 35)
unfolding note_p shl
update_frame-range_example =
    update_frame-range 92682 p_frame some_ctrl 1599974 1600000 (omega arith) refl (omega arith) refl
      refl (omega arith, omega arith) (omega arith, omega arith)
