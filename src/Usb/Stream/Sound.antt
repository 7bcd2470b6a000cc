-- ===== src/Usb/Stream/Sound.antt =====
-- ameba_gateway/example_gateway_ameba.c: the invariant of the bulk IN side.
use carplay_poc.Base.{
  ◌==◌, not, if◌then◌else◌, if_both, zero, suc, ℕ, ◌≤◌, ◌≡◌, refl, sym, ap, ◌∙◌, arith, Bool, true,
  false, List, [], ◌∷◌, length, take, drop, take-append, length-take, min, Status, ok, failed,
}
use Prim.Native.Nat.{zero-le}
use carplay_poc.Usb.Ring.{Tx, peek_chunk}
use carplay_poc.Usb.Ring.Refine.{
  contents, IsValid, length-contents, peek_chunk_refines, tx_reset_refines,
}
use carplay_poc.Usb.State.{Usb, in_chunk_size}
use carplay_poc.Usb.Stream.{submit, kick_blocked, kick_tx, reset_stream_session, fifo_flush}

-- The ring is valid; while the endpoint is busy, what it was given of the stream is the front of the
-- queue.
pub record IsSound (s : Usb) : Type 0 where
  pub ring_valid : IsValid s.tx
  pub flight_small : s.in_flight_len ≤ in_chunk_size
  pub flight_fits : s.in_busy ≡ true → s.in_flight_len ≤ s.tx.count
  pub flight_front :
      s.in_busy ≡ true → take s.in_flight_len s.in_buf ≡ take s.in_flight_len (contents s.tx)

pub take-length-take : (n : ℕ) (xs : List ℕ) → take (length (take n xs)) xs ≡ take n xs
take-length-take zero xs = refl
take-length-take (suc n) [] = refl
take-length-take (suc n) (x ∷ xs) = ap (λ l. x ∷ l) (take-length-take n xs)

-- The contents read only the ring, its tail and its count.
contents-last_queue_len : (t : Tx) (n : ℕ) → contents (record t { last_queue_len = n }) ≡ contents t
unfolding contents
contents-last_queue_len t n = refl

IsValid-last_queue_len : (t : Tx) (n : ℕ) → IsValid t → IsValid (record t { last_queue_len = n })
IsValid-last_queue_len t n v = omega arith

pub idle-IsSound :
    (s : Usb) → IsValid s.tx → s.in_flight_len ≤ in_chunk_size → s.in_busy ≡ false → IsSound s
idle-IsSound s v small idle = record {
  ring_valid = v;
  flight_small = small;
  flight_fits = λ busy. cc;
  flight_front = λ busy. cc;
}

-- What a kick hands to the endpoint is the front of the queue.
submit-IsSound : (s : Usb) → IsValid s.tx → IsSound (submit (peek_chunk s.tx in_chunk_size) s)
unfolding submit
submit-IsSound s v =
    let front = peek_chunk_refines s.tx in_chunk_size v in
    let n = length (peek_chunk s.tx in_chunk_size) in
    let n_eq : n ≡ min in_chunk_size s.tx.count =
      ap length front
      ∙ length-take in_chunk_size (contents s.tx)
      ∙ ap (min in_chunk_size) (length-contents s.tx) in
    record {
      ring_valid = IsValid-last_queue_len s.tx n v;
      flight_small = omega arith;
      flight_fits = λ busy. omega arith;
      flight_front = λ busy.
          take-append n (peek_chunk s.tx in_chunk_size) (drop n s.in_buf) refl
          ∙ front
          ∙ sym (take-length-take in_chunk_size (contents s.tx))
          ∙ ap (λ k. take k (contents s.tx)) (ap length (sym front))
          ∙ ap (take n) (sym (contents-last_queue_len s.tx n));
    }

contents-submit : (chunk : List ℕ) (s : Usb) → contents (submit chunk s).tx ≡ contents s.tx
unfolding submit
contents-submit chunk s = contents-last_queue_len s.tx (length chunk)

-- The invariant after an operation that leaves the queue as it was.
pub record Keeps (s : Usb) (r : Status × Usb) : Type 0 where
  pub sound : IsSound r.1
  pub same : contents r.1.tx ≡ contents s.tx

kick_tx-Keeps : (rc : ℕ) (s : Usb) → IsSound s → Keeps s (kick_tx rc s)
unfolding kick_tx
kick_tx-Keeps rc s v =
    let chunk = peek_chunk s.tx in_chunk_size in
    let sending = submit chunk s in
    let refused = record sending { in_busy = false; in_flight_len = 0; last_kick_rc = rc } in
    let queued = record sending { last_kick_rc = 0 } in
    let w : IsSound sending = submit-IsSound s v.ring_valid in
    let same : contents sending.tx ≡ contents s.tx = contents-submit chunk s in
    let unchanged : Keeps s (ok, s) = record { sound = v; same = refl } in
    let after_refusal : Keeps s (failed, refused) = record {
      sound = idle-IsSound refused w.ring_valid zero-le refl;
      same = same;
    } in
    let after_queueing : Keeps s (ok, queued) = record {
      sound = record {
        ring_valid = w.ring_valid;
        flight_small = w.flight_small;
        flight_fits = w.flight_fits;
        flight_front = w.flight_front;
      };
      same = same;
    } in
    let asked = if not (rc == 0) then (failed, refused) else (ok, queued) in
    if_both (Keeps s) (kick_blocked s) (ok, s) (if length chunk == 0 then (ok, s) else asked)
      unchanged
      (if_both (Keeps s) (length chunk == 0) (ok, s) asked unchanged
        (if_both (Keeps s) (not (rc == 0)) (failed, refused) (ok, queued) after_refusal
          after_queueing))

-- A kick leaves the queue as it was and keeps the invariant.
pub kick_tx-IsSound :
    (rc : ℕ) (s : Usb)
    → IsSound s
    → IsSound (kick_tx rc s).1 × (contents (kick_tx rc s).1.tx ≡ contents s.tx)
kick_tx-IsSound rc s v = let k = kick_tx-Keeps rc s v in (k.sound, k.same)

-- A reset leaves the endpoint idle and the queue empty, where the endpoint is set up.
pub reset_stream_session-IsSound :
    (rc : ℕ) (can_flush : Bool) (s : Usb)
    → IsSound s
    → IsSound (reset_stream_session rc can_flush s)
unfolding reset_stream_session fifo_flush
reset_stream_session-IsSound rc can_flush s v = ground (arith, tx_reset_refines s.tx)
