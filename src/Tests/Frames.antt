-- ===== src/Tests/Frames.antt =====
-- gateway/tcp_transport.c and gateway/ws_upstream_client.c on a network that passes on what it holds, at
-- most three bytes at a time, and interrupts the first call.
use carplay_poc.Base.{
  ℕ, zero, suc, ◌≤◌, ◌<◌, ◌≡◌, ◌⊎◌, inl, inr, refl, sym, ap, arith, some, List, [], ◌∷◌, ◌++◌,
  length, take, drop, min, length-take, take-append-drop,
}
use carplay_poc.Net.{Received, Sent}
use carplay_poc.Net.Connection.{IsReceiving, IsSending}
use carplay_poc.Ws.{Client}
use carplay_poc.Ws.Reads.{IsOpen}

-- The bytes on the connection, and how many calls are still to be interrupted.
abbrev pub Line : Type 0
Line = List ℕ × ℕ

abbrev pub line_recv : Line → ℕ → Received × Line
line_recv (bs, suc n) len = (Received.interrupted, (bs, n))
line_recv (bs, zero) len = (Received.received (take (min len 3) bs), (drop (min len 3) bs, zero))

abbrev line_send : Line → List ℕ → Sent × Line
line_send (out, suc n) bs = (Sent.interrupted, (out, n))
line_send (out, zero) bs =
    (Sent.sent (min 3 (length bs)), (out ++ take (min 3 (length bs)) bs, zero))

abbrev pub line_receiving : IsReceiving line_recv
line_receiving = record { incoming = λ l. l.0; patience = λ l. l.1; receives = answers }
  where
    answers :
        (l : Line) (len : ℕ)
        → 0 < len
        → let (n, l') = line_recv l len in
          ((bs : List ℕ) × (n ≡ Received.received bs)
            × (length bs ≤ len)
            × ((bs ≡ []) → l.0 ≡ [])
            × (l.0 ≡ bs ++ l'.0)
            × (l'.1 ≤ l.1))
          ⊎ ((n ≡ Received.interrupted) × (l'.0 ≡ l.0) × (l'.1 < l.1))
    answers (bs, suc n) len h = inr (refl, refl, omega arith)
    answers ([], zero) len h = inl (
      take (min len 3) [],
      refl,
      omega (arith, length-take {A = ℕ} (min len 3) []),
      λ e. refl,
      sym (take-append-drop (min len 3) []),
      omega arith,
    )
    answers (b ∷ bs, zero) len h =
        let k = min len 3 in
        inl (
          take k (b ∷ bs),
          refl,
          omega (arith, length-take k (b ∷ bs)),
          λ e. absurd (omega (arith, ap length e, length-take k (b ∷ bs))),
          sym (take-append-drop k (b ∷ bs)),
          omega arith,
        )

abbrev line_sending : IsSending line_send
line_sending = record { outgoing = λ l. l.0; patience = λ l. l.1; sends = answers }
  where
    answers :
        (l : Line) (bs : List ℕ)
        → 0 < length bs
        → let (n, l') = line_send l bs in
          ((k : ℕ) × (n ≡ Sent.sent k)
            × (k ≤ length bs)
            × (l'.0 ≡ l.0 ++ take k bs)
            × (l'.1 ≤ l.1)
            × ((k ≡ 0) → l'.1 < l.1))
          ⊎ ((n ≡ Sent.interrupted) × (l'.0 ≡ l.0) × (l'.1 < l.1))
    answers (out, suc n) bs h = inr (refl, refl, omega arith)
    answers (out, zero) bs h =
        inl (min 3 (length bs), refl, omega arith, refl, omega arith, λ e. absurd (omega arith))

abbrev pub hello : List ℕ
hello = b'h' ∷ b'e' ∷ b'l' ∷ b'l' ∷ b'o' ∷ []

-- Three bytes of the frame came with the handshake's answer; a fourth byte there has been read.
abbrev pub half_read : Client Line
half_read = record {
  net = (b'e' ∷ b'l' ∷ b'l' ∷ b'o' ∷ 0x88 ∷ [], 1);
  prebuffer = some (0 ∷ 0x81 ∷ 5 ∷ b'h' ∷ []);
  prebuffer_len = 4;
  prebuffer_off = 1;
}

half_read-IsOpen : IsOpen half_read
half_read-IsOpen = inr (0 ∷ 0x81 ∷ 5 ∷ b'h' ∷ [], refl, refl, omega arith)
