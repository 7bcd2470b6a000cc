-- ===== src/Tests/Server.antt =====
-- The server's side at concrete values: connections, units and chunks.
use carplay_poc.Bridge.{
  is_open, onclose, Opcode, Server, Peer, Registry, find_client, server_for_conn, on_message,
  on_close,
}
use carplay_poc.Base.{
  none, ◌∷◌, inr, ◌⊎◌, some, ◌≤◌, arith, [], ◌<◌, ◌≡◌, ◌+◌, ℕ, true, List, refl, length, take, drop,
}
use carplay_poc.Tests.Sounds.{no_telemetry}
use carplay_poc.Bridge.Life.{IsDistinct, on_close_lem}
use carplay_poc.Playback.Audio.{Telemetry, unwrap_audio_debug_payload}
use carplay_poc.Playback.Chunks.{IsFollowed, unwrap-audio_packet}
use carplay_poc.Streamer.Audio.{chunk_size, rewound, audio_packet, audio_turn}
use carplay_poc.Streamer.Units.{video_turn, size_of_int}
use carplay_poc.Streamer.Cuts.{video_turn_lem}

-- Two clients of one server.
abbrev peer_at : ℕ → ℕ → Peer
peer_at address conn = record {
  address = address;
  conn = conn;
  server_impl = 1;
  user_data = none;
  peer_ip = [];
  state = is_open;
}

abbrev one_server : Server
one_server = record { impl = 1; has_onopen = true; has_onmessage = true; has_onclose = true }

abbrev two_clients : Registry
two_clients = record { servers = one_server ∷ []; clients = peer_at 100 5 ∷ peer_at 200 6 ∷ [] }

on_close_lem_example :
    let (calls, r') = on_close (λ conn. some 1) 5 two_clients in
    (calls ≡ onclose 100 ∷ [])
    × (on_message (λ conn. some 1) 5 (some (Opcode.text, 1 ∷ [])) r' ≡ [])
    × (on_message (λ conn. some 1) 6 (some (Opcode.text, 1 ∷ [])) r'
        ≡ on_message (λ conn. some 1) 6 (some (Opcode.text, 1 ∷ [])) two_clients)
    × IsDistinct r'.clients
unfolding find_client server_for_conn
on_close_lem_example =
    on_close_lem (λ conn. some 1) 5 6 (peer_at 100 5) one_server two_clients
      (some (Opcode.text, 1 ∷ []))
      ((((λ e. absurd (omega (arith, e))), (λ e. absurd (omega (arith, e)))), tt), (tt, tt)) refl
      refl (λ e. absurd (omega (arith, e)))

-- two units, each behind a start code
abbrev two_units : List ℕ
two_units = 0 ∷ 0 ∷ 1 ∷ 0x67 ∷ 5 ∷ 0 ∷ 0 ∷ 0 ∷ 1 ∷ 0x65 ∷ 6 ∷ []

first_unit : video_turn two_units 0 11 ≡ (some (0x67 ∷ 5 ∷ []), 5, 6)
unfolding video_turn size_of_int
first_unit = refl

second_unit : video_turn two_units 5 6 ≡ (some (0x65 ∷ 6 ∷ []), 11, 0)
unfolding video_turn size_of_int
second_unit = refl

video_turn_lem_example :
    let (unit, start', size') = video_turn two_units 5 6 in
    (start' + size' ≡ 11)
    × (((unit ≡ none) × (start' ≡ 0))
        ⊎ ((at : ℕ) × (n : ℕ) × (unit ≡ some (take n (drop at two_units)))
            × (at + n ≤ 11)
            × (5 + 2 < at)
            × (size' + 3 ≤ 6)))
video_turn_lem_example = video_turn_lem two_units 5 6 (omega arith) (omega arith)

-- The statistics after a chunk of three bytes at offset 0, with index 4.
abbrev after_first : Telemetry
after_first = record no_telemetry {
  have_debug_prev = true;
  last_debug_index = 4;
  last_debug_offset = 0;
  last_debug_pcm_bytes = 3;
}

unwrap-audio_packet_example :
    let (pcm, t') = unwrap_audio_debug_payload after_first (audio_packet (8 ∷ 7 ∷ 6 ∷ []) 3 5) in
    let (cursor', chunk_index') = audio_turn (8 ∷ 7 ∷ 6 ∷ []) 3 5 in
    (pcm ≡ take (chunk_size 3) (drop (rewound 3 3) (8 ∷ 7 ∷ 6 ∷ [])))
    × (length pcm ≡ chunk_size 3)
    × (t'.debug_index_gaps ≡ 0)
    × (t'.debug_offset_jumps ≡ 0)
    × (cursor' ≤ 3)
    × IsFollowed t' chunk_index' cursor'
unwrap-audio_packet_example =
    unwrap-audio_packet (8 ∷ 7 ∷ 6 ∷ []) 3 5 after_first (omega arith) (omega arith) (omega arith)
      (inr (omega arith, omega arith))
