-- ===== src/Tests/Opening.antt =====
-- gateway/ws_upstream_client.c: a connection opened on a network that passes on at most three bytes at a time.
use carplay_poc.Tests.Frames.{Line, line_recv, line_receiving, hello, half_read}
use carplay_poc.Base.{
  ◌≡◌, List, ok, ◌∷◌, some, Bool, refl, [], ◌++◌, arith, ℕ, true, length, none, ◌<◌,
}
use carplay_poc.Ws.{recv_frame, write_ok}
use carplay_poc.Net.{Sent, write_all}
use carplay_poc.Handshake.{codes, strstr, upgrade_request}
use carplay_poc.Ws.Receive.{HasReceived}
use carplay_poc.Ws.Connect.{ws_connect}
use carplay_poc.Handshake.Reply.{IsUpgrade}
use carplay_poc.Ws.Opening.{recv_frame-ws_connect}
use carplay_poc.Ws.Wire.{wire}

-- The request goes out whole.
abbrev taking : Line → List ℕ → Sent × Line
taking l bs = (Sent.sent (length bs), l)

abbrev pub reply : List ℕ
reply = codes "HTTP/1.1 101 Switching\r\n\r\n"

pub reply-IsUpgrade : IsUpgrade reply
unfolding strstr
reply-IsUpgrade = record {
  is_text = omega arith;
  end_at = 22;
  end_found = refl;
  end_last = refl;
  code_at = 9;
  code_found = refl;
}

abbrev answered : Line
answered = (reply ++ (0x81 ∷ 5 ∷ hello ++ 0x88 ∷ []), 1)

abbrev there : List ℕ → ℕ → Line → Bool × Line
there host port l = (true, answered)

recv_frame-ws_connect_example :
    let (rc, w') =
      ws_connect line_recv taking there
        (λ l. l)
        200
        (λ n. true)
        (some (codes "car"))
        80
        (some (codes "/"))
        half_read in
    (rc ≡ ok)
    × HasReceived line_recv line_receiving 200
        (λ n. true)
        1
        hello
        (0x88 ∷ [])
        (recv_frame line_recv 200 (λ n. true) w')
unfolding write_ok write_all upgrade_request
recv_frame-ws_connect_example =
    recv_frame-ws_connect line_recv line_receiving taking there (λ l. l) 200 (λ n. true)
      (codes "car") (codes "/") reply hello (0x88 ∷ []) 80 1 none half_read answered answered refl
      fits taken reply-IsUpgrade (omega arith) tt (omega arith) (omega arith) (unfold wire in refl)
      (omega arith) (λ n. refl)
  where
    fits : length (upgrade_request (codes "/") (codes "car") 80) < 512
    fits = omega arith

    taken :
        write_ok taking 200 (upgrade_request (codes "/") (codes "car") 80) answered ≡ (ok, answered)
    taken = refl
