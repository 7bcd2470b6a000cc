-- ===== src/Usb/Stream/Complete.antt =====
-- ameba_gateway/example_gateway_ameba.c: completions of the bulk IN endpoint.
use carplay_poc.Base.{
  ◌==◌, inr, not, inl, if_both, Bool-cases, ℕ, zero, suc, ◌≤◌, ◌≡◌, refl, sym, ap, ap₂, ◌∙◌, arith,
  Bool, true, false, Option, none, some, List, [], ◌∷◌, ◌++◌, take, drop, take-append-drop, ltb,
  ◌&&◌, if◌then◌else◌,
}
use Prim.Native.Nat.{zero-le}
use carplay_poc.Usb.Ring.Refine.{contents, consume_chunk_refines}
use carplay_poc.Usb.State.{Usb, Completion, next}
use carplay_poc.Usb.Stream.{
  consumed_by, in_complete_ok, in_complete_error, in_complete, finish_chunk,
}
use carplay_poc.Usb.Stream.Sound.{
  IsSound, idle-IsSound, kick_tx-IsSound, reset_stream_session-IsSound,
}

take-take_le : (n m : ℕ) (xs : List ℕ) → n ≤ m → take n (take m xs) ≡ take n xs
take-take_le zero m xs h = refl
take-take_le (suc n) zero xs h = absurd (omega arith)
take-take_le (suc n) (suc m) [] h = refl
take-take_le (suc n) (suc m) (x ∷ xs) h = ap (λ l. x ∷ l) (take-take_le n m xs (omega arith))

consumed_by-le : (req : Option Completion) (n : ℕ) → consumed_by req n ≤ n
consumed_by-le none n = omega arith
consumed_by-le (some r) n = ground arith

-- Taking the chunk off the ring, in a state that is idle already.
finish_chunk_lem :
    (req : Option Completion) (s : Usb)
    → IsSound s
    → s.in_busy ≡ false
    → IsSound (finish_chunk req s)
      × (contents (finish_chunk req s).tx ≡ drop (consumed_by req s.in_flight_len) (contents s.tx))
finish_chunk_lem req s v idle =
    let n = consumed_by req s.in_flight_len in
    let small : n ≤ s.in_flight_len = consumed_by-le req s.in_flight_len in
    let (e, w) = consume_chunk_refines s.tx n v.ring_valid (omega (arith, v.flight_small)) in
    unfold finish_chunk in
    elim (Bool-cases (ltb 0 s.in_flight_len)) [
      | inl busy ↦ rw busy (idle-IsSound _ w zero-le idle, e)
      | inr none' ↦
          let zero' : n ≡ 0 = ground arith in
          rw none' (idle-IsSound s v.ring_valid v.flight_small idle, rw zero' refl)
    ]

in_complete_ok_lem :
    (rc : ℕ) (req : Option Completion) (s : Usb)
    → IsSound s
    → s.in_busy ≡ false
    → IsSound (in_complete_ok rc req s)
      × (contents (in_complete_ok rc req s).tx
          ≡ drop (consumed_by req s.in_flight_len) (contents s.tx))
unfolding in_complete_ok
in_complete_ok_lem rc req s v idle =
    let (w, e) = finish_chunk_lem req s v idle in
    let (u, same) = kick_tx-IsSound rc (finish_chunk req s) w in (u, same ∙ e)

-- A completion counted, and the endpoint marked idle.
abbrev pub completed : Usb → Usb
completed s = record s { in_complete_count = next s.in_complete_count; in_busy = false }

completed-IsSound : (s : Usb) → IsSound s → IsSound (completed s)
completed-IsSound s v = idle-IsSound (completed s) v.ring_valid v.flight_small refl

in_complete_error-IsSound :
    (rc : ℕ) (can_flush : Bool) (s : Usb)
    → IsSound s
    → s.in_busy ≡ false
    → IsSound (in_complete_error rc can_flush s)
unfolding in_complete_error
in_complete_error-IsSound rc can_flush s v idle =
    if_both IsSound s.stream_resetting _ _ (idle-IsSound _ v.ring_valid zero-le idle)
      (reset_stream_session-IsSound rc can_flush _ (idle-IsSound _ v.ring_valid zero-le idle))

-- Every completion, good or bad, expected or not, keeps the invariant.
pub in_complete-IsSound :
    (queue_rc dequeue_rc : ℕ) (can_flush : Bool) (req : Option Completion) (s : Usb)
    → IsSound s
    → IsSound (in_complete queue_rc dequeue_rc can_flush req s)
unfolding in_complete
in_complete-IsSound qrc drc can_flush none s v =
    (in_complete_ok_lem qrc none (completed s) (completed-IsSound s v) refl).0
in_complete-IsSound qrc drc can_flush (some r) s v =
    if_both IsSound (not (r.status == 0)) _ _
      (in_complete_error-IsSound drc can_flush (completed s) (completed-IsSound s v) refl)
      (in_complete_ok_lem qrc (some r) (completed s) (completed-IsSound s v) refl).0

-- When the transfer in flight went well, the bytes that leave the queue are the first bytes of the
-- buffer that was sent: all that were in flight, or as many as the controller reports if it reports
-- fewer but some. The rest of the queue stays, in order.
pub in_complete_delivers :
    (queue_rc dequeue_rc : ℕ) (can_flush : Bool) (r : Completion) (s : Usb)
    → IsSound s
    → s.in_busy ≡ true
    → r.status ≡ 0
    → let s' = in_complete queue_rc dequeue_rc can_flush (some r) s in
      let n =
        if ltb 0 r.actual && ltb r.actual s.in_flight_len then r.actual else s.in_flight_len in
      contents s.tx ≡ take n s.in_buf ++ contents s'.tx
unfolding in_complete
in_complete_delivers qrc drc can_flush r s v busy good =
    let n = consumed_by (some r) s.in_flight_len in
    let le = consumed_by-le (some r) s.in_flight_len in
    let rest = (in_complete_ok_lem qrc (some r) (completed s) (completed-IsSound s v) refl).1 in
    let front : take n s.in_buf ≡ take n (contents s.tx) =
      sym (take-take_le n s.in_flight_len s.in_buf le)
      ∙ ap (take n) (v.flight_front busy)
      ∙ take-take_le n s.in_flight_len (contents s.tx) le in
    let went_well : in_complete qrc drc can_flush (some r) s
        ≡ in_complete_ok qrc (some r) (completed s) =
      ground arith in
    sym (take-append-drop n (contents s.tx))
    ∙ ap₂ ◌++◌ (sym front) (sym rest)
    ∙ ap (λ (q : Usb). take n s.in_buf ++ contents q.tx) (sym went_well)
