-- ===== src/Tests/Uplink.antt =====
-- ameba_gateway/example_gateway_ameba.c at concrete values: the board on a network that passes on what it holds, at most three
-- bytes at a time.
use carplay_poc.Upstream.Connect.{Lwip, Uplink, Stats, upstream_connect}
use carplay_poc.Tests.Opening.{reply}
use carplay_poc.Base.{
  List, ◌<◌, min, false, ℕ, true, ◌-◌, ◌≡◌, some, inl, [], ◌+◌, sym, ◌++◌, refl, ◌⊎◌, Option, arith,
  ok, none, ap, suc, ◌∷◌, ◌≤◌, length, take, drop, length-take, take-append-drop,
}
use carplay_poc.Config.{UpstreamConfig}
use carplay_poc.Ws.{Client}
use carplay_poc.Net.{Received, Sent}
use carplay_poc.Net.Connection.{IsReceiving, IsSending}
use carplay_poc.Ws.Receive.{HasReceived}
use carplay_poc.Ws.Wire.{wire}
use carplay_poc.Upstream.Receive.{upstream_recv_frame-wire}
use carplay_poc.Upstream.Sockets.{CountsSockets}
use carplay_poc.Upstream.Link.{Attempted, upstream_connect-IsLinked}
use carplay_poc.Upstream.Frames.{fixed_mask, upstream_send_masked_frame, upstream_recv_frame}
use carplay_poc.Upstream.Same.{recv_of, send_of}
use carplay_poc.Upstream.Send.{upstream_send_masked_frame-wire}

-- The bytes to come, the bytes taken, and the sockets that are open.
abbrev pub Line : Type 0
Line = List ℕ × List ℕ × ℕ

abbrev pub line_read : Line → ℕ → Option (List ℕ) × Line
line_read (bs, out, n) len = (some (take (min len 3) bs), (drop (min len 3) bs, out, n))

abbrev line_write : Line → List ℕ → Option ℕ × Line
line_write l [] = (some 0, l)
line_write (bs, out, n) (x ∷ xs) =
    (some (suc (min 2 (length xs))), (bs, out ++ x ∷ take (min 2 (length xs)) xs, n))

abbrev pub line : Lwip Line
line = record {
  inet_addr = λ host. true;
  lwip_socket = λ l. (true, (l.0, l.1, l.2 + 1));
  lwip_connect = λ host port l. (true, l);
  lwip_read = line_read;
  lwip_write = line_write;
  lwip_close = λ l. (l.0, l.1, l.2 - 1);
}

abbrev pub line_counts : CountsSockets line
line_counts = record {
  sockets = λ l. l.2;
  socket_opens = λ l. refl;
  close_closes = λ l. refl;
  connect_keeps = λ host port l. refl;
  read_keeps = λ l len. refl;
  write_keeps = keeps;
}
  where
    keeps : (l : Line) (bs : List ℕ) → (line_write l bs).1.2 ≡ l.2
    keeps l [] = refl
    keeps l (x ∷ xs) = refl

abbrev pub line_receiving : IsReceiving (recv_of line_read)
line_receiving = record { incoming = λ l. l.0; patience = λ l. 0; receives = answers }
  where
    answers :
        (l : Line) (len : ℕ)
        → 0 < len
        → let (n, l') = recv_of line_read l len in
          ((bs : List ℕ) × (n ≡ Received.received bs)
            × (length bs ≤ len)
            × ((bs ≡ []) → l.0 ≡ [])
            × (l.0 ≡ bs ++ l'.0)
            × (0 ≤ 0))
          ⊎ ((n ≡ Received.interrupted) × (l'.0 ≡ l.0) × (0 < 0))
    answers ([], out, n) len h = inl (
      take (min len 3) [],
      refl,
      omega (arith, length-take {A = ℕ} (min len 3) []),
      λ e. refl,
      sym (take-append-drop (min len 3) []),
      omega arith,
    )
    answers (b ∷ bs, out, n) len h =
        let k = min len 3 in
        inl (
          take k (b ∷ bs),
          refl,
          omega (arith, length-take k (b ∷ bs)),
          λ e. absurd (omega (arith, ap length e, length-take k (b ∷ bs))),
          sym (take-append-drop k (b ∷ bs)),
          omega arith,
        )

abbrev line_sending : IsSending (send_of line_write)
line_sending = record { outgoing = λ l. l.1; patience = λ l. 0; sends = answers }
  where
    answers :
        (l : Line) (bs : List ℕ)
        → 0 < length bs
        → let (n, l') = send_of line_write l bs in
          ((k : ℕ) × (n ≡ Sent.sent k)
            × (k ≤ length bs)
            × (l'.1 ≡ l.1 ++ take k bs)
            × (0 ≤ 0)
            × ((k ≡ 0) → 0 < 0))
          ⊎ ((n ≡ Sent.interrupted) × (l'.1 ≡ l.1) × (0 < 0))
    answers l [] h = absurd (omega arith)
    answers (bs, out, n) (x ∷ xs) h =
        inl
          (suc (min 2 (length xs)), refl, omega arith, refl, omega arith, λ e. absurd (omega arith))

upstream_send_masked_frame-wire_example :
    (l' : Line) × (upstream_send_masked_frame line_write 50
        (λ n. true)
        []
        1
        (7 ∷ 8 ∷ [])
        ([], [], 1)
      ≡ (ok, l'))
    × (l'.1 ≡ [] ++ wire (some fixed_mask) 1 (7 ∷ 8 ∷ []))
upstream_send_masked_frame-wire_example =
    upstream_send_masked_frame-wire line_write 50 (λ n. true) [] (λ i. i) line_sending 1
      (7 ∷ 8 ∷ []) ([], [], 1) (omega arith) (omega arith) refl (omega arith)

abbrev pub stats : Stats
stats = record {
  connect_started = false;
  connected = false;
  last_rc = 0;
  connect_attempts = 0;
  text_frames = 0;
  binary_frames = 0;
  close_frames = 0;
  last_opcode = 0;
  last_payload_len = 0;
  last_attempt_tick = 0;
}

abbrev pub client : List ℕ → ℕ → Client Line
client bs n = record { net = (bs, [], n); prebuffer = none; prebuffer_len = 0; prebuffer_off = 0 }

abbrev pub closed : List ℕ → Uplink Line
closed bs = record {
  conn = record {
    is_open = false;
    stream = client bs 0;
    connected = false;
    have_nonce = false;
    session_nonce = [];
  };
  stats = stats;
}

abbrev pub car : UpstreamConfig
car = record { host = b'c' ∷ []; path = b'/' ∷ []; port = 80; valid = true; seq_no = 1 }

upstream_connect-IsLinked_example :
    Attempted line line_counts 0
      (upstream_connect line 50 (λ n. true) [] 100 (true, car) (closed (reply ++ 1 ∷ 2 ∷ [])))
upstream_connect-IsLinked_example =
    upstream_connect-IsLinked line line_counts 0 50 (λ n. true) [] 100 (true, car)
      (closed (reply ++ 1 ∷ 2 ∷ [])) refl (refl, refl, refl, (refl, refl))

upstream_recv_frame-wire_example :
    HasReceived
      (recv_of line_read)
      line_receiving
      50
      (λ n. true)
      1
      (7 ∷ 8 ∷ [])
      (9 ∷ [])
      (upstream_recv_frame line_read 50 (λ n. true) (client (0x81 ∷ 2 ∷ 7 ∷ 8 ∷ 9 ∷ []) 1))
upstream_recv_frame-wire_example =
    upstream_recv_frame-wire line_read line_receiving 50 (λ n. true) none 1 (7 ∷ 8 ∷ []) (9 ∷ [])
      (client (0x81 ∷ 2 ∷ 7 ∷ 8 ∷ 9 ∷ []) 1) tt (inl refl) (omega arith) refl (omega arith)
      (unfold wire in refl) (omega arith)
