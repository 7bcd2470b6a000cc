-- ===== src/Streamer/Units.antt =====
-- wsh264/app/wsh264.cpp: the recording of the video cut into units, and the turn of the video thread over it. A
-- pointer into the recording is its offset. An `int` goes round at 32 bits, and `size` of the thread is the word of one.
use carplay_poc.Base.{
  int_of_word, word_of, pos_part, u32, some, List, ◌+◌, ℕ, none, ◌&&◌, zero, Bool, suc, ◌-◌, Option,
  leb, ◌==◌, if◌then◌else◌, length, take, drop, byte_at, sub64,
}

-- `chunk_t`
pub record Chunk : Type 0 where
  pub start : ℕ
  pub size : ℕ

-- a start code that ends at an offset
abbrev pub code_at : List ℕ → ℕ → Bool
code_at bs at = byte_at bs at == 1 && (byte_at bs (at - 1) == 0 && byte_at bs (at - 2) == 0)

-- the loop of `check_size` from `i` on, with `left` turns to go
unfoldable pub check_size_from : ℕ → ℕ → List ℕ → ℕ → ℕ → ℕ
check_size_from zero i bs start size = size
check_size_from (suc left) i bs start size =
    let rest = check_size_from left (i + 1) bs start size in
    if code_at bs (start + i)
    then if leb 3 i && byte_at bs (start + i - 3) == 0 then i - 3 else sub64 i 2
    else rest

-- `(int)size` as a number of turns: none where it is negative
unfoldable pub int_turns : ℕ → ℕ
unfolding int_of_word
int_turns size = pos_part (int_of_word size)

-- an `int` as a `size_t`
unfoldable pub size_of_int : ℕ → ℕ
unfolding word_of int_of_word
size_of_int size = word_of 64 (int_of_word size)

-- `check_size`
unfoldable pub check_size : List ℕ → ℕ → ℕ → ℕ
unfolding check_size_from int_turns
check_size bs start size = check_size_from (int_turns size) 0 bs start size

-- the loop of `next_chunk`
unfoldable pub next_chunk_from : ℕ → ℕ → List ℕ → ℕ → ℕ → Option Chunk
unfolding check_size
next_chunk_from zero i bs start size = none
next_chunk_from (suc left) i bs start size =
    let rest = next_chunk_from left (i + 1) bs start size in
    let after = start + (i + 1) in
    if code_at bs (start + i)
    then some (record { start = after; size = check_size bs after (sub64 size (i + 1)) })
    else rest

-- `next_chunk`; `none` is the null pointer
unfoldable pub next_chunk : List ℕ → ℕ → ℕ → Option Chunk
unfolding next_chunk_from int_turns
next_chunk bs start size = next_chunk_from (int_turns size - 2) 2 bs start size

-- `start` and `size` after a turn of `h264_streaming`, and the unit that is sent, where there is one
unfoldable pub video_turn : List ℕ → ℕ → ℕ → Option (List ℕ) × ℕ × ℕ
unfolding next_chunk
video_turn bs start size = elim (next_chunk bs start (size_of_int size)) [
  | none ↦ (none, 0, u32 (length bs))
  | some c ↦ (
    some (take c.size (drop c.start bs)),
    c.start + c.size,
    u32 (sub64 (size_of_int size) (c.start - start + c.size)),
  )
]
