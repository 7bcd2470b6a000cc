-- ===== src/Usb/Ring.antt =====
-- ameba_gateway/example_gateway_ameba.c: the transmit ring, with the counters that its operations
-- keep. The static array is a function of the index; the critical sections make each operation one
-- step. A `size_t` and an `unsigned long` have 32 bits on this target.
pub mod Window
pub mod Refine
use carplay_poc.Base.{
  ℕ, ◌+◌, ◌-◌, ◌*◌, ◌%◌, ◌^◌, Bool, true, false, ◌&&◌, ◌||◌, List, [], ◌∷◌, ◌++◌, ◌==◌, ltb, leb,
  if◌then◌else◌, length, get_or, take, drop, tabulate, u32, add_size, sub_size, Status, ok, failed,
}

abbrev pub tx_ring_size : ℕ
tx_ring_size = 128 * 1024

-- The `gateway_usb_tx_*` variables, and the counters and flags set with them.
pub record Tx : Type 0 where
  pub ring : ℕ → ℕ
  pub head : ℕ
  pub tail : ℕ
  pub count : ℕ
  pub proto_init_sent : Bool
  pub last_ring_count : ℕ
  pub last_queue_len : ℕ
  pub bytes_enqueued : ℕ
  pub bytes_sent : ℕ
  pub drop_count : ℕ

-- A pointer with a length: a null pointer and the length passed with it, or the bytes pointed to.
pub data Source : Type 0 where
  null : ℕ → Source
  bytes : List ℕ → Source

abbrev pub source_len : Source → ℕ
source_len (null n) = n
source_len (bytes xs) = length xs

-- `(p == NULL && len > 0u)`
abbrev pub is_missing : Source → Bool
is_missing (null n) = ltb 0 n
is_missing (bytes xs) = false

-- `memcpy(ring + pos, bs, length bs)`
unfoldable pub memcpy : (ℕ → ℕ) → ℕ → List ℕ → ℕ → ℕ
memcpy m pos bs i = if leb pos i && ltb i (pos + length bs) then get_or bs (i - pos) 0 else m i

-- `gateway_usb_tx_reset`
unfoldable pub tx_reset : Tx → Tx
tx_reset t = record t {
  head = 0;
  tail = 0;
  count = 0;
  proto_init_sent = false;
  last_ring_count = 0;
  last_queue_len = 0;
}

-- `gateway_usb_tx_free_space`
unfoldable pub tx_free_space : Tx → ℕ
tx_free_space t = sub_size tx_ring_size t.count

-- the `first_part` of a copy of `len` bytes at `pos`
abbrev pub first_part : ℕ → ℕ → ℕ
first_part pos len = if ltb (sub_size tx_ring_size pos) len then sub_size tx_ring_size pos else len

-- `gateway_usb_tx_ring_write`
unfoldable pub ring_write : (ℕ → ℕ) → ℕ → Source → ℕ → ℕ
unfolding memcpy
ring_write m pos (null n) = m
ring_write m pos (bytes xs) =
    if length xs == 0
    then m
    else let first = first_part pos (length xs) in
      let second = sub_size (length xs) first in
      let m' = memcpy m pos (take first xs) in
      if ltb 0 second then memcpy m' 0 (drop first xs) else m'

-- one of the two guarded writes of `gateway_usb_tx_enqueue_packet`: the ring and the head after it
write_part : (ℕ → ℕ) → ℕ → Source → (ℕ → ℕ) × ℕ
unfolding ring_write
write_part m head s =
    if ltb 0 (source_len s)
    then (ring_write m head s, add_size head (source_len s) % tx_ring_size)
    else (m, head)

-- `gateway_usb_tx_enqueue_packet`
unfoldable pub enqueue_packet : Tx → Source → Source → Status × Tx
unfolding write_part tx_free_space
enqueue_packet t prefix payload =
    let total = add_size (source_len prefix) (source_len payload) in
    if is_missing prefix || is_missing payload
    then (failed, t)
    else if total == 0
    then (ok, t)
    else if ltb (tx_free_space t) total
    then (failed, record t { drop_count = u32 (t.drop_count + 1) })
    else let (m, h) = write_part t.ring t.head prefix in
      let (m', h') = write_part m h payload in
      (
        ok,
        record t {
          ring = m';
          head = h';
          count = add_size t.count total;
          last_ring_count = add_size t.count total;
          bytes_enqueued = u32 (t.bytes_enqueued + total);
        },
      )

-- `memcpy(dest, ring + pos, n)`
abbrev pub copy_out : (ℕ → ℕ) → ℕ → ℕ → List ℕ
copy_out m pos n = tabulate n (λ i. m (pos + i))

-- `gateway_usb_tx_peek_chunk` into a buffer of `max_len` bytes: the bytes copied into it
unfoldable pub peek_chunk : Tx → ℕ → List ℕ
peek_chunk t max_len =
    let len = if ltb max_len t.count then max_len else t.count in
    if max_len == 0
    then []
    else if len == 0
    then []
    else let first = first_part t.tail len in
      let second = sub_size len first in
      copy_out t.ring t.tail first ++ (if ltb 0 second then copy_out t.ring 0 second else [])

-- `gateway_usb_tx_consume_chunk`
unfoldable pub consume_chunk : Tx → ℕ → Tx
consume_chunk t asked =
    let len = if ltb t.count asked then t.count else asked in
    if asked == 0 then t else record t {
      tail = add_size t.tail len % tx_ring_size;
      count = sub_size t.count len;
      last_ring_count = sub_size t.count len;
      bytes_sent = u32 (t.bytes_sent + len);
    }
