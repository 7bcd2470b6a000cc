-- ===== src/Usb/Stream.antt =====
-- ameba_gateway/example_gateway_ameba.c: the bulk IN side, which sends the ring's front chunk by chunk.
-- Each function takes the answers that the USB stack gives to the calls it makes: `queue_rc` that of
-- `usb_ep_queue`, `dequeue_rc` that of `usb_ep_dequeue`, `can_flush` whether the endpoint has a
-- `fifo_flush`. A completion is a step of its own, never inside such a call.
pub mod Sound
pub mod Complete
use carplay_poc.Base.{
  ℕ, ◌+◌, ◌-◌, Bool, true, false, not, ◌&&◌, ◌||◌, Option, none, some, List, [], ◌∷◌, ◌++◌, ◌==◌,
  ltb, if◌then◌else◌, length, drop, replicate, u32, write_le32, Status, ok, failed,
}
use carplay_poc.Proto.{default_init, write_init}
use carplay_poc.Usb.Ring.{
  Tx, Source, null, bytes, tx_reset, enqueue_packet, peek_chunk, consume_chunk,
}
use carplay_poc.Usb.State.{Usb, Completion, next, in_chunk_size}

-- `gateway_usb_fifo_flush`
unfoldable pub fifo_flush : Bool → Usb → Usb
fifo_flush can_flush s =
    if s.in_ep && can_flush then record s { fifo_flush_count = next s.fifo_flush_count } else s

-- `gateway_usb_reset_stream_session`
unfoldable pub reset_stream_session : ℕ → Bool → Usb → Usb
unfolding fifo_flush
reset_stream_session dequeue_rc can_flush s =
    if not s.in_ep || not s.in_req
    then s
    else let rc = if s.in_busy then dequeue_rc else 0 in
      let idle = record s {
        stream_resetting = s.in_busy && rc == 0;
        in_busy = false;
        in_flight_len = 0;
      } in
      let flushed = fifo_flush can_flush idle in
      record flushed { tx = tx_reset s.tx; last_kick_rc = rc }

-- the request set up with a chunk in its buffer, and the endpoint marked busy with it
unfoldable pub submit : List ℕ → Usb → Usb
submit chunk s = record s {
  in_buf = chunk ++ drop (length chunk) s.in_buf;
  in_req_length = length chunk;
  in_busy = true;
  in_flight_len = length chunk;
  tx = record (s.tx) { last_queue_len = length chunk };
  kick_count = next s.kick_count;
}

-- the early return of `gateway_usb_kick_tx`
abbrev pub kick_blocked : Usb → Bool
kick_blocked s = not s.in_ep || not s.in_req || not s.configured || s.in_busy

-- `gateway_usb_kick_tx`
unfoldable pub kick_tx : ℕ → Usb → Status × Usb
kick_tx queue_rc s =
    let chunk = peek_chunk s.tx in_chunk_size in
    let sending = submit chunk s in
    if kick_blocked s
    then (ok, s)
    else if length chunk == 0
    then (ok, s)
    else if not (queue_rc == 0)
    then (failed, record sending { in_busy = false; in_flight_len = 0; last_kick_rc = queue_rc })
    else (ok, record sending { last_kick_rc = 0 })

-- how much of the chunk in flight a completion takes off the ring
abbrev pub consumed_by : Option Completion → ℕ → ℕ
consumed_by none in_flight = in_flight
consumed_by (some r) in_flight =
    if ltb 0 r.actual && ltb r.actual in_flight then r.actual else in_flight

-- the chunk in flight taken off the ring
unfoldable pub finish_chunk : Option Completion → Usb → Usb
finish_chunk req s =
    if ltb 0 s.in_flight_len
    then record s { tx = consume_chunk s.tx (consumed_by req s.in_flight_len); in_flight_len = 0 }
    else s

-- the branch of `gateway_usb_in_complete` for a transfer that went well
unfoldable pub in_complete_ok : ℕ → Option Completion → Usb → Usb
in_complete_ok queue_rc req s = (kick_tx queue_rc (finish_chunk req s)).1

-- the branch for a transfer that did not
unfoldable pub in_complete_error : ℕ → Bool → Usb → Usb
in_complete_error dequeue_rc can_flush s =
    let s' = record s { in_flight_len = 0 } in
    if s.stream_resetting
    then record s' { stream_resetting = false }
    else reset_stream_session dequeue_rc can_flush
        (record s' { in_error_count = next s.in_error_count })

-- `gateway_usb_in_complete`
unfoldable pub in_complete : ℕ → ℕ → Bool → Option Completion → Usb → Usb
in_complete queue_rc dequeue_rc can_flush none s =
    in_complete_ok queue_rc none
      (record s { in_complete_count = next s.in_complete_count; in_busy = false })
in_complete queue_rc dequeue_rc can_flush (some r) s =
    let s' = record s { in_complete_count = next s.in_complete_count; in_busy = false } in
    if not (r.status == 0)
    then in_complete_error dequeue_rc can_flush s'
    else in_complete_ok queue_rc (some r) s'

-- the 64 bytes of `gateway_usb_ping_packet_t` that `gateway_usb_send_pong` stores
unfoldable pub pong_bytes : ℕ → List ℕ
unfolding write_le32
pong_bytes seq_no =
    (b'P' ∷ b'O' ∷ b'N' ∷ b'G' ∷ [])
    ++ (write_le32 seq_no
        ++ (write_le32 16
            ++ ((b'g' ∷ b'a' ∷ b't' ∷ b'e' ∷ b'w' ∷ b'a' ∷ b'y' ∷ b'-' ∷ b'u' ∷ b's' ∷ b'b' ∷ b'-'
                  ∷ b'p' ∷ b'o' ∷ b'n' ∷ b'g' ∷ [])
                ++ replicate 36 0)))

-- `gateway_usb_send_pong`
unfoldable pub send_pong : ℕ → ℕ → Usb → Status × Usb
send_pong queue_rc seq_no s =
    let sending = record s {
      in_buf = pong_bytes seq_no ++ replicate 448 0;
      in_req_length = 64;
      in_busy = true;
      in_flight_len = 0;
    } in
    if not s.in_ep || not s.in_req || s.in_busy
    then (failed, s)
    else if not (queue_rc == 0)
    then (failed, record sending { in_busy = false })
    else (ok, record sending { tx_packets = next s.tx_packets })

-- `gateway_usb_enqueue_init_packet`
unfoldable pub enqueue_init_packet : Usb → Status × Usb
enqueue_init_packet s =
    if s.tx.proto_init_sent then (ok, s) else elim (write_init (some default_init)) [
      | none ↦ (failed, s)
      | some init_buf ↦
          let (rc, t) = enqueue_packet s.tx (bytes init_buf) (null 0) in
          elim rc [
            | ok ↦ (ok, record s { tx = record t { proto_init_sent = true } })
            | failed ↦ (failed, record s { tx = t })
          ]
    ]

-- `gateway_usb_retry_init_if_needed`
unfoldable pub retry_init_if_needed : ℕ → Usb → Usb
retry_init_if_needed queue_rc s =
    if not s.started || not s.usb_configured
    then s
    else if not s.host_ready
    then s
    else let (rc, s') = enqueue_init_packet s in
      elim rc [ ok ↦ (kick_tx queue_rc s').1 | failed ↦ s' ]
