-- ===== src/Streamer/Cuts.antt =====
-- wsh264/app/wsh264.cpp: the units lie within the recording.
use carplay_poc.Base.{
  int_of_word, word_of, u32, ltb, arith, refl, ◌∙◌, some, List, ◌^◌, ◌+◌, ◌≤◌, ◌⊎◌, ℕ, inr, none,
  ◌&&◌, zero, true, suc, ◌-◌, ap, inl, ◌≡◌, ◌<◌, leb, ◌==◌, Bool-cases, if_both, length, take, drop,
  byte_at, sub64,
}
use carplay_poc.Streamer.Units.{
  int_turns, size_of_int, Chunk, code_at, check_size_from, check_size, next_chunk_from, next_chunk,
  video_turn,
}

code_one : (bs : List ℕ) (at : ℕ) → code_at bs at ≡ true → byte_at bs at ≡ 1
code_one bs at e = ground (arith, e)

-- No start code ends just behind another.
behind :
    (i : ℕ) (bs : List ℕ) (start : ℕ)
    → 0 < start
    → byte_at bs (start - 1) ≡ 1
    → code_at bs (start + i) ≡ true
    → 2 ≤ i
behind zero bs start h code e =
    let same : byte_at bs (start + 0 - 1) ≡ byte_at bs (start - 1) =
      ap (λ k. byte_at bs k) {x = start + 0 - 1} {y = start - 1} (omega arith) in
    absurd (ground (arith, e, same, code))
behind (suc zero) bs start h code e =
    let same : byte_at bs (start + 1 - 2) ≡ byte_at bs (start - 1) =
      ap (λ k. byte_at bs k) {x = start + 1 - 2} {y = start - 1} (omega arith) in
    absurd (ground (arith, e, same, code))
behind (suc (suc i)) bs start h code e = omega arith

int_turns_lem : (size : ℕ) → size < 2 ^ 31 → int_turns size ≡ size
unfolding int_turns int_of_word
int_turns_lem size h = ground arith

size_of_int_lem : (size : ℕ) → size < 2 ^ 31 → size_of_int size ≡ size
unfolding size_of_int word_of int_of_word
size_of_int_lem size h = ground arith

check_size_from-le :
    (left i : ℕ) (bs : List ℕ) (start size : ℕ)
    → i + left ≡ size
    → 0 < start
    → size < 2 ^ 31
    → byte_at bs (start - 1) ≡ 1
    → check_size_from left i bs start size ≤ size
unfolding check_size_from
check_size_from-le zero i bs start size e h small code = omega arith
check_size_from-le (suc left) i bs start size e h small code =
    let rest = check_size_from-le left (i + 1) bs start size (omega arith) h small code in
    elim (Bool-cases (code_at bs (start + i))) [
      | inr n ↦ rw n rest
      | inl y ↦
          let far : 2 ≤ i = behind i bs start h code y in
          rw y (
            if_both (λ k. k ≤ size) (leb 3 i && byte_at bs (start + i - 3) == 0) (i - 3) (sub64 i 2)
              (omega arith) (omega arith))
    ]

next_chunk_from-within :
    (left i : ℕ) (bs : List ℕ) (start size : ℕ)
    → i + left ≡ size
    → size < 2 ^ 31
    → (next_chunk_from left i bs start size ≡ none)
      ⊎ ((c : Chunk) × (next_chunk_from left i bs start size ≡ some c)
          × (start + i < c.start)
          × (c.start + c.size ≤ start + size))
unfolding next_chunk_from check_size int_turns int_of_word
next_chunk_from-within zero i bs start size e small = inl refl
next_chunk_from-within (suc left) i bs start size e small =
    elim (Bool-cases (code_at bs (start + i))) [
      | inl y ↦
          let after = start + (i + 1) in
          let c : Chunk = record {
            start = after;
            size = check_size bs after (sub64 size (i + 1));
          } in
          let one : byte_at bs (after - 1) ≡ 1 =
            ap (λ k. byte_at bs k) {x = after - 1} {y = start + i} (omega arith)
            ∙ code_one bs (start + i) y in
          let rest = sub64 size (i + 1) in
          let turns : int_turns rest ≡ rest = int_turns_lem rest (omega arith) in
          let le =
            check_size_from-le (int_turns rest) 0 bs after rest (omega (arith, turns)) (omega arith)
              (omega arith) one in
          rw y (inr (c, refl, omega arith, omega (arith, le)))
      | inr n ↦ elim (next_chunk_from-within left (i + 1) bs start size (omega arith) small) [
        | inl none_left ↦ rw n (inl none_left)
        | inr (c, found, behind', inside) ↦ rw n (inr (c, found, omega arith, inside))
      ]
    ]

-- Without two bytes there is no start code.
next_chunk-within :
    (bs : List ℕ) (start size : ℕ)
    → size < 2 ^ 31
    → (next_chunk bs start size ≡ none)
      ⊎ ((c : Chunk) × (next_chunk bs start size ≡ some c)
          × (start + 2 < c.start)
          × (c.start + c.size ≤ start + size))
unfolding next_chunk next_chunk_from
next_chunk-within bs start size small =
    let turns = int_turns_lem size small in
    elim (Bool-cases (ltb size 2)) [
      | inl few ↦
          let no_turn : int_turns size - 2 ≡ 0 = ground (arith, few, turns) in rw no_turn (inl refl)
      | inr many ↦
          next_chunk_from-within (int_turns size - 2) 2 bs start size (ground (arith, many, turns))
            small
    ]

-- A turn of the video thread that finds a unit sends bytes of the recording alone, and moves on: what it has then
-- left is shorter by at least three bytes and ends where the recording ends. One that finds none begins
-- anew. The thread is within the recording, which is below 2 GiB.
pub video_turn_lem :
    (bs : List ℕ) (start size : ℕ)
    → start + size ≡ length bs
    → length bs < 2 ^ 31
    → let (unit, start', size') = video_turn bs start size in
      (start' + size' ≡ length bs)
      × (((unit ≡ none) × (start' ≡ 0))
          ⊎ ((at : ℕ) × (n : ℕ) × (unit ≡ some (take n (drop at bs)))
              × (at + n ≤ length bs)
              × (start + 2 < at)
              × (size' + 3 ≤ size)))
unfolding video_turn
video_turn_lem bs start size whole small =
    let same = size_of_int_lem size (omega arith) in
    elim (next_chunk-within bs start size (omega arith)) [
      | inl e ↦
          let step : video_turn bs start size ≡ (none, 0, u32 (length bs)) =
            ground (arith, e, same) in
          rw step (omega arith, inl (refl, refl))
      | inr (c, e, far, inside) ↦
          let step : video_turn bs start size ≡ (
            some (take c.size (drop c.start bs)),
            c.start + c.size,
            u32 (sub64 size (c.start - start + c.size)),
          ) =
            ground (arith, e, same) in
          rw step (omega arith, inr (c.start, c.size, refl, omega arith, omega arith, omega arith))
    ]
