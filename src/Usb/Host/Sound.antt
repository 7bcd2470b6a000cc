-- ===== src/Usb/Host/Sound.antt =====
-- ameba_gateway/example_gateway_ameba.c: packets of the host keep the invariant of the stream.
use carplay_poc.Base.{
  replicate, ◌-◌, if◌then◌else◌, take, take-append_le, length-append, ◌^◌, ap, ◌<◌, ◌≤◌, ◌+◌,
  append-nil, sym, ◌++◌, ℕ, ◌≡◌, refl, arith, Bool, true, false, not, ◌||◌, ◌==◌, List, [], length,
  if_both, ok, failed, Status, read_le32, ltb, ◌∙◌,
}
use Prim.Native.Nat.{zero-le}
use carplay_poc.Config.{ConfigState}
use native.Mathlib.Nat.{le_trans}
use carplay_poc.Proto.{init_packet, write_init-default_init}
use carplay_poc.Usb.Ring.{Tx, bytes, null, enqueue_packet}
use carplay_poc.Usb.Ring.Refine.{
  length-contents, contents, IsValid, enqueue_packet_grows, enqueue_packet-null,
}
use carplay_poc.Media.{has_magic}
use carplay_poc.Usb.State.{next, Usb, Completion}
use carplay_poc.Usb.Stream.{
  pong_bytes, reset_stream_session, send_pong, enqueue_init_packet, kick_tx,
}
use carplay_poc.Usb.Stream.Sound.{
  IsSound, idle-IsSound, kick_tx-IsSound, reset_stream_session-IsSound,
}
use carplay_poc.Usb.Host.{
  take_config, Answers, start_stream, received, noted, answer_ping, out_complete,
}

-- A longer queue with the same front keeps the invariant.
pub grown-IsSound :
    (s s' : Usb)
    → IsSound s
    → IsValid s'.tx
    → (more : List ℕ) × (contents s'.tx ≡ contents s.tx ++ more)
    → s'.in_busy ≡ s.in_busy
    → s'.in_flight_len ≡ s.in_flight_len
    → s'.in_buf ≡ s.in_buf
    → IsSound s'
grown-IsSound s s' v w (more, e) busy len buf =
    let count : s.tx.count ≤ s'.tx.count = omega (
      arith,
      length-contents s.tx,
      length-contents s'.tx,
      ap length e,
      length-append (contents s.tx) more,
    ) in
    record {
      ring_valid = w;
      flight_small = rw len v.flight_small;
      flight_fits = λ b. rw len (le_trans (v.flight_fits (rw busy at b)) count);
      flight_front = λ b.
          let fits = v.flight_fits (rw busy at b) in
          rw (len, buf, e)
            (v.flight_front (rw busy at b)
              ∙ sym (
                  take-append_le s.in_flight_len (contents s.tx) more
                    (omega (arith, length-contents s.tx))));
    }

-- Fields that the invariant does not read.
pub same-IsSound :
    (s s' : Usb)
    → IsSound s
    → s'.tx ≡ s.tx
    → s'.in_busy ≡ s.in_busy
    → s'.in_flight_len ≡ s.in_flight_len
    → s'.in_buf ≡ s.in_buf
    → IsSound s'
same-IsSound s s' v e busy len buf =
    grown-IsSound s s' v (rw e v.ring_valid) ([], rw e (sym (append-nil (contents s.tx)))) busy len
      buf

pub enqueue_packet_parts :
    (s : Usb) (prefix payload : List ℕ) (t : Tx)
    → IsSound s
    → length prefix + length payload < 2 ^ 32
    → t ≡ (enqueue_packet s.tx (bytes prefix) (bytes payload)).1
    → IsSound (record s { tx = t })
enqueue_packet_parts s prefix payload t v h e =
    let (w, more, grows) = enqueue_packet_grows s.tx prefix payload v.ring_valid h in
    grown-IsSound s _ v (rw e w) (more, rw e grows) refl refl refl

-- `proto_init_sent` set on the ring.
IsValid-sent : (t : Tx) → IsValid t → IsValid (record t { proto_init_sent = true })
IsValid-sent t v = omega arith

contents-sent : (t : Tx) → contents (record t { proto_init_sent = true }) ≡ contents t
unfolding contents
contents-sent t = refl

-- The init packet, where it is due, goes to the end of the queue.
pub enqueue_init_packet-IsSound : (s : Usb) → IsSound s → IsSound (enqueue_init_packet s).1
unfolding enqueue_init_packet
enqueue_init_packet-IsSound s v =
    let (rc, t) = enqueue_packet s.tx (bytes init_packet) (null 0) in
    let queued : IsSound (record s { tx = t }) =
      enqueue_packet_parts s init_packet [] t v (omega arith)
        (ap (λ (p : Status × Tx). p.1) (enqueue_packet-null s.tx init_packet)) in
    let sent : IsSound (record s { tx = record t { proto_init_sent = true } }) = record {
      ring_valid = IsValid-sent t queued.ring_valid;
      flight_small = queued.flight_small;
      flight_fits = queued.flight_fits;
      flight_front = λ b. queued.flight_front b ∙ ap (take s.in_flight_len) (sym (contents-sent t));
    } in
    if_both (λ (r : Status × Usb). IsSound r.1) s.tx.proto_init_sent (ok, s) _ v
      (rw write_init-default_init (branch rc sent queued))
  where
    branch :
        {t : Tx} (rc : Status)
        → IsSound (record s { tx = record t { proto_init_sent = true } })
        → IsSound (record s { tx = t })
        → IsSound
            (let r : Status × Usb = elim rc [
              | ok ↦ (ok, record s { tx = record t { proto_init_sent = true } })
              | failed ↦ (failed, record s { tx = t })
            ] in
              r).1
    branch ok sent queued = sent
    branch failed sent queued = queued

pub send_pong-IsSound : (rc seq_no : ℕ) (s : Usb) → IsSound s → IsSound (send_pong rc seq_no s).1
unfolding send_pong
send_pong-IsSound rc seq_no s v =
    let sending = record s {
      in_buf = pong_bytes seq_no ++ replicate 448 0;
      in_req_length = 64;
      in_busy = true;
      in_flight_len = 0;
    } in
    let sent = record sending { tx_packets = next s.tx_packets } in
    let refused = record sending { in_busy = false } in
    let asked = if not (rc == 0) then (failed, refused) else (ok, sent) in
    let P = λ (r : Status × Usb). IsSound r.1 in
    if_both P (not s.in_ep || not s.in_req || s.in_busy) (failed, s) asked v
      (if_both P (not (rc == 0)) (failed, refused) (ok, sent)
        (idle-IsSound refused v.ring_valid zero-le refl)
        (record {
          ring_valid = v.ring_valid;
          flight_small = zero-le;
          flight_fits = λ b. zero-le;
          flight_front = λ b. refl;
        }))

-- What follows the enqueueing of the init packet.
then_kick-IsSound :
    (kick_rc : ℕ) (r : Status × Usb)
    → IsSound r.1
    → IsSound (let q : Usb = elim r.0 [ ok ↦ (kick_tx kick_rc r.1).1 | failed ↦ r.1 ] in q)
then_kick-IsSound kick_rc (ok, s) v = (kick_tx-IsSound kick_rc s v).0
then_kick-IsSound kick_rc (failed, s) v = v

pub start_stream-IsSound : (kick_rc : ℕ) (s : Usb) → IsSound s → IsSound (start_stream kick_rc s)
unfolding start_stream
start_stream-IsSound kick_rc s v =
    then_kick-IsSound kick_rc (enqueue_init_packet s) (enqueue_init_packet-IsSound s v)

answer_ping-IsSound :
    (a : Answers) (raw : List ℕ) (s : Usb) → IsSound s → IsSound (answer_ping a raw s)
unfolding answer_ping
answer_ping-IsSound a raw s v =
    let pinged = record s { last_ping_valid = 1 } in
    let fresh = reset_stream_session a.dequeue_rc a.can_flush pinged in
    let other = record s { last_ping_valid = 2 } in
    let s' = if has_magic b'P' b'I' b'N' b'G' raw then fresh else other in
    let w : IsSound s' =
      if_both IsSound (has_magic b'P' b'I' b'N' b'G' raw) fresh other
        (reset_stream_session-IsSound a.dequeue_rc a.can_flush pinged
          (same-IsSound s pinged v refl refl refl refl))
        (same-IsSound s other v refl refl refl refl) in
    start_stream-IsSound a.kick_rc (send_pong a.pong_rc (read_le32 raw 4) s').1
      (send_pong-IsSound a.pong_rc (read_le32 raw 4) s' w)

module _ (inet_aton : List ℕ → Bool) where
  -- No packet of the host, whatever its bytes, breaks the invariant.
  pub out_complete-IsSound :
      (a : Answers) (r : Completion) (raw : List ℕ) (s : Usb) (c : ConfigState)
      → IsSound s
      → IsSound (out_complete inet_aton a r raw s c).0
  unfolding out_complete received noted take_config
  out_complete-IsSound a r raw s c v =
      let s' = noted raw (received r s) in
      let v' : IsSound s' = same-IsSound s s' v refl refl refl refl in
      let short = record (received r s) { last_ping_valid = 2 ^ 32 - 1 } in
      let P = λ (q : Usb × ConfigState). IsSound q.0 in
      let rest =
        if has_magic b'C' b'F' b'G' b'1' raw
        then take_config inet_aton raw s' c
        else (answer_ping a raw s', c) in
      if_both P (not (r.status == 0)) (s, c) (if ltb r.actual 12 then (short, c) else rest) v
        (if_both P (ltb r.actual 12) (short, c) rest (same-IsSound s short v refl refl refl refl)
          (if_both P (has_magic b'C' b'F' b'G' b'1' raw) (take_config inet_aton raw s' c)
            (answer_ping a raw s', c)
            (same-IsSound s' (take_config inet_aton raw s' c).0 v' refl refl refl refl)
            (answer_ping-IsSound a raw s' v')))
