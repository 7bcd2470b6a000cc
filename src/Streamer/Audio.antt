-- ===== src/Streamer/Audio.antt =====
-- wsh264/app/wsh264.cpp: the audio thread. A turn of its loop makes one packet of the recording, which is played
-- over and over; what becomes of the packet is not looked at. An `int` goes round at 32 bits; `cursor` is the word of one.
use carplay_poc.Base.{
  int_of_word, ltb_ℤ, ◌+◌, ◌∷◌, List, ◌++◌, ℕ, [], ltb, if◌then◌else◌, length, take, drop, u32,
}
use carplay_poc.Streamer.{write_u32le}

abbrev pub audio_chunk_size : ℕ
audio_chunk_size = 8192

-- `chunk_size`, and `cursor` where the turn begins
unfoldable pub chunk_size : ℕ → ℕ
chunk_size size = if ltb size audio_chunk_size then size else audio_chunk_size

unfoldable pub rewound : ℕ → ℕ → ℕ
unfolding chunk_size int_of_word
rewound size cursor =
    if ltb_ℤ (int_of_word size) (int_of_word (cursor + chunk_size size)) then 0 else cursor

-- the packet: the index of the chunk, its offset, and its bytes
unfoldable pub audio_packet : List ℕ → ℕ → ℕ → List ℕ
unfolding write_u32le rewound
audio_packet recording cursor chunk_index =
    let start = rewound (length recording) cursor in
    (b'A' ∷ b'U' ∷ b'D' ∷ b'0' ∷ [])
    ++ write_u32le chunk_index
    ++ write_u32le (u32 start)
    ++ take (chunk_size (length recording)) (drop start recording)

-- `cursor` and `audio_chunk_index` after the turn
unfoldable pub audio_turn : List ℕ → ℕ → ℕ → ℕ × ℕ
unfolding rewound chunk_size
audio_turn recording cursor chunk_index =
    let size = length recording in
    (u32 (rewound size cursor + chunk_size size), u32 (chunk_index + 1))
