-- ===== src/Playback/Chunks.antt =====
-- wsh264/app/wsh264.cpp and gateway_client/gateway_client.cpp: chunks of sound that come in order count as such.
use carplay_poc.Base.{
  int_of_word, ◌⊎◌, true, ◌≡◌, ◌^◌, ◌&&◌, ◌<◌, false, refl, ◌+◌, List, arith, ◌-◌, ℕ, ◌≤◌, not, ◌∙◌,
  ltb, ◌==◌, if◌then◌else◌, length, take, drop, length-take, length-drop, u32, add64, ap, inr,
}
use carplay_poc.Streamer.{write_u32le}
use carplay_poc.Media.{has_magic}
use carplay_poc.Playback.{read_u32le}
use carplay_poc.Playback.Audio.{Telemetry, unwrap_audio_debug_payload}
use carplay_poc.Playback.Reassembly.{u32_back}
use carplay_poc.Streamer.Audio.{chunk_size, rewound, audio_packet, audio_turn}

-- The statistics expect the chunk of this index at this offset.
abbrev pub IsFollowed : Telemetry → ℕ → ℕ → Type 0
IsFollowed t chunk_index offset =
    (t.have_debug_prev ≡ false)
    ⊎ ((u32 (t.last_debug_index + 1) ≡ chunk_index)
        × (u32 (t.last_debug_offset + t.last_debug_pcm_bytes) ≡ offset))

unwrap_known :
    (t : Telemetry) (p pcm : List ℕ) (chunk_index offset : ℕ)
    → length p ≡ 12 + length pcm
    → has_magic b'A' b'U' b'D' b'0' p ≡ true
    → read_u32le p 4 ≡ chunk_index
    → read_u32le p 8 ≡ offset
    → drop 12 p ≡ pcm
    → length pcm < 2 ^ 32
    → let (payload, t') = unwrap_audio_debug_payload t p in
      (payload ≡ pcm)
      × (t'.debug_index_gaps ≡ (
          if t.have_debug_prev && not (chunk_index == u32 (t.last_debug_index + 1))
          then add64 t.debug_index_gaps 1
          else t.debug_index_gaps))
      × (t'.debug_offset_jumps ≡ (
          if t.have_debug_prev
            && (not (offset == u32 (t.last_debug_offset + t.last_debug_pcm_bytes))
                && not (offset == 0))
          then add64 t.debug_offset_jumps 1
          else t.debug_offset_jumps))
      × (t'.last_debug_index ≡ chunk_index)
      × (t'.last_debug_offset ≡ offset)
      × (t'.last_debug_pcm_bytes ≡ length pcm)
unfolding unwrap_audio_debug_payload
unwrap_known t p pcm chunk_index offset len magic ri ro d small =
    let long : ltb (length p) 12 ≡ false = ground (arith, len) in
    let rest : u32 (length p - 12) ≡ length pcm = omega (arith, len) in
    rw (long, magic, ri, ro, d, rest) (refl, refl, refl, refl, refl, refl)

bounds :
    (size cursor : ℕ)
    → size + 8192 < 2 ^ 31
    → cursor ≤ size
    → (rewound size cursor + chunk_size size ≤ size)
      × ((rewound size cursor ≡ cursor) ⊎ (rewound size cursor ≡ 0))
unfolding rewound chunk_size int_of_word
bounds size cursor small h = ground arith

no_gap :
    (t : Telemetry) (chunk_index cursor start n : ℕ)
    → IsFollowed t chunk_index cursor
    → (start ≡ cursor) ⊎ (start ≡ 0)
    → ((if t.have_debug_prev && not (chunk_index == u32 (t.last_debug_index + 1))
          then add64 n 1
          else n)
        ≡ n)
      × ((if t.have_debug_prev
              && (not (start == u32 (t.last_debug_offset + t.last_debug_pcm_bytes))
                  && not (start == 0))
            then add64 t.debug_offset_jumps 1
            else t.debug_offset_jumps)
          ≡ t.debug_offset_jumps)
no_gap t chunk_index cursor start n follow which = ground (arith, follow, which)

-- A turn of the server's audio thread reads within the recording, a whole chunk, where the recording is more than 8 KiB below 2 GiB
-- and the turn begins within it; and where the client gets
-- each packet its statistics count no gap and no jump, whether the recording begins anew or goes on; the
-- next packet is again the one expected.
pub unwrap-audio_packet :
    (recording : List ℕ) (cursor chunk_index : ℕ) (t : Telemetry)
    → length recording + 8192 < 2 ^ 31
    → cursor ≤ length recording
    → chunk_index < 2 ^ 32
    → IsFollowed t chunk_index cursor
    → let size = length recording in
      let (pcm, t') = unwrap_audio_debug_payload t (audio_packet recording cursor chunk_index) in
      let (cursor', chunk_index') = audio_turn recording cursor chunk_index in
      (pcm ≡ take (chunk_size size) (drop (rewound size cursor) recording))
      × (length pcm ≡ chunk_size size)
      × (t'.debug_index_gaps ≡ t.debug_index_gaps)
      × (t'.debug_offset_jumps ≡ t.debug_offset_jumps)
      × (cursor' ≤ size)
      × IsFollowed t' chunk_index' cursor'
unfolding audio_packet audio_turn write_u32le read_u32le has_magic
unwrap-audio_packet recording cursor chunk_index t small within index_small follow =
    let size = length recording in
    let start = rewound size cursor in
    let chunk = chunk_size size in
    let pcm = take chunk (drop start recording) in
    let (inside, start_cases) = bounds size cursor small within in
    let whole : length pcm ≡ chunk =
      omega
        (arith, length-take chunk (drop start recording), length-drop start recording, inside) in
    let start_small : u32 start ≡ start = omega (arith, inside) in
    let p = audio_packet recording cursor chunk_index in
    let (got, gaps, jumps, li, lo, lp) =
      unwrap_known t p pcm chunk_index start (omega arith) refl (u32_back chunk_index index_small)
        (u32_back (u32 start) (omega arith) ∙ start_small) refl (omega (arith, whole, inside)) in
    let (fine, smooth) = no_gap t chunk_index cursor start t.debug_index_gaps follow start_cases in
    (
      got,
      ap (λ (l : List ℕ). length l) got ∙ whole,
      gaps ∙ fine,
      jumps ∙ smooth,
      omega (arith, inside),
      inr (ap (λ k. u32 (k + 1)) li, omega (arith, lo, lp, whole, inside)),
    )
