-- ===== src/Streamer/Chars.antt =====
-- wsh264/app/char_queue.cpp: the ring of bytes between the encoder and the thread that cuts its output, and the
-- chunks that this thread makes. The wait for bytes is left out: the scanners go over the bytes to come.
use carplay_poc.Base.{
  ◌%◌, ℕ, ◌-◌, suc, ◌∷◌, Option, none, some, List, [], ◌+◌, zero, Bool, ltb, ◌==◌, if◌then◌else◌,
  u32,
}

-- `SZ_QUEUE`
abbrev pub queue_size : ℕ
queue_size = 65535

-- `char_queue_t`
pub record CharQueue : Type 0 where
  pub buffer : ℕ → ℕ
  pub head : ℕ
  pub tail : ℕ

-- `char_queue_init`
unfoldable pub char_queue_init : CharQueue
char_queue_init = record { buffer = λ i. 0; head = 0; tail = 0 }

unfoldable pub char_queue_push : ℕ → CharQueue → CharQueue
char_queue_push c q = record q {
  buffer = λ i. if i == q.tail then c else q.buffer i;
  tail = u32 (q.tail + 1) % queue_size;
}

unfoldable pub char_queue_pop : CharQueue → ℕ × CharQueue
char_queue_pop q = (q.buffer q.head, record q { head = u32 (q.head + 1) % queue_size })

unfoldable pub char_queue_empty : CharQueue → Bool
char_queue_empty q = q.head == q.tail

unfoldable pub char_queue_full : CharQueue → Bool
char_queue_full q = u32 (q.tail + 1) % queue_size == q.head

-- `char_chunk_t`: `size` is the room that is left
pub record CharChunk : Type 0 where
  pub pbuf : List ℕ
  pub size : ℕ

abbrev pub default_chunk_size : ℕ
default_chunk_size = 16384

-- the store of `char_chunk_putc`
abbrev pub store_at : ℕ → ℕ → List ℕ → List ℕ
store_at i c [] = []
store_at zero c (b ∷ bs) = c ∷ bs
store_at (suc i) c (b ∷ bs) = b ∷ store_at i c bs

-- `char_chunk_putc`; `grown` are the bytes that `realloc` to the default size gives
unfoldable pub char_chunk_putc : (List ℕ → List ℕ) → ℕ → CharChunk → CharChunk
char_chunk_putc grown c pc =
    if pc.size == 0
    then record {
      pbuf = store_at (default_chunk_size - 1) c (grown pc.pbuf);
      size = default_chunk_size - 1;
    }
    else record { pbuf = store_at (pc.size - 1) c pc.pbuf; size = pc.size - 1 }

-- one byte for the search of a start code: states 0 to 4
unfoldable pub scan_byte : ℕ → ℕ → ℕ
scan_byte c state =
    if ltb state 3 then if c == 0 then state + 1 else state else if c == 1 then state + 1 else 0

-- `char_start_chunk` on the bytes to come: what is left behind the start code, where there is one
unfoldable pub start_chunk : ℕ → List ℕ → Option (List ℕ)
unfolding scan_byte
start_chunk state [] = none
start_chunk state (c ∷ bytes) =
    let rest = start_chunk (scan_byte c state) bytes in
    if scan_byte c state == 4 then some bytes else rest

-- `char_next_chunk` on the bytes to come: the chunk, and what is left
unfoldable pub next_char_chunk :
    (List ℕ → List ℕ) → ℕ → CharChunk → List ℕ → Option (CharChunk × List ℕ)
unfolding scan_byte char_chunk_putc
next_char_chunk grown state pc [] = none
next_char_chunk grown state pc (c ∷ bytes) =
    let pc' = char_chunk_putc grown c pc in
    let rest = next_char_chunk grown (scan_byte c state) pc' bytes in
    if scan_byte c state == 4 then some (pc', bytes) else rest
