-- ===== src/Session/Whole.antt =====
-- gateway/gateway.c: a session, `gateway_session_main`, from its start to its end. `write` is `tcp_transport_write_all` to the client;
-- whether `ws_upstream_connect` and the two first texts to the server succeed stands in the arguments.
use carplay_poc.Base.{
  ℕ, ◌≡◌, arith, refl, Bool, true, false, not, Option, some, none, List, [], ◌∷◌, ◌++◌, ◌⊎◌, inl,
  inr, Status, ok, failed, if◌then◌else◌,
}
use carplay_poc.Handshake.{codes}
use carplay_poc.Proto.{default_init, write_init, write_init-default_init}
use carplay_poc.Session.{SessionNonce, parse_crypto_init}
use carplay_poc.Session.Relay.{
  After, go_on, stop, Turn, ready, session_turn, session_loop, on_binary, on_frame, client_ends,
}

-- What the session does at its other ends: a text or a close frame to the server, the two connections closed, and the flag that
-- a session runs cleared.
pub data Act : Type 0 where
  asked : List ℕ → Act
  said_close : ℕ → Act
  server_closed client_closed inactive : Act

abbrev pub start_stream_text : List ℕ
start_stream_text = codes "{\"cmd\":\"start_stream\",\"param\":{\"mirror\":1}}"

abbrev pub start_audio_text : List ℕ
start_audio_text = codes "{\"cmd\":\"start_audio_stream\"}"

abbrev pub all_closed : List Act
all_closed = server_closed ∷ client_closed ∷ inactive ∷ []

-- `cleanup`, where the server was reached or not
unfoldable pub clean_up : Bool → List Act
clean_up false = all_closed
clean_up true =
    asked (codes "{\"cmd\":\"stop_stream\"}")
    ∷ asked (codes "{\"cmd\":\"stop_audio_stream\"}")
    ∷ said_close 1000
    ∷ all_closed

abbrev pub asked_all : List (List ℕ) → List Act
asked_all [] = []
asked_all (t ∷ ts) = asked t ∷ asked_all ts

-- `have_nonce = 0`; the bytes of the nonce are not set, and nothing reads them
abbrev pub unannounced : SessionNonce
unannounced = record { session_nonce = []; have_nonce = false }

module _ {Net : Type 0} (write : Net → List ℕ → Status × Net) where
  -- up to the loop
  unfoldable pub begin_session : Bool → Bool → Bool → Net → After × List Act × Net
  begin_session connected video_asked audio_asked net = elim (write_init (some default_init)) [
    | none ↦ (stop, clean_up false, net)
    | some init_buf ↦
        let (rc, net') = write net init_buf in
        if not connected then (stop, clean_up false, net) else elim rc [
          | failed ↦ (stop, clean_up true, net')
          | ok ↦
              if not video_asked
              then (stop, asked start_stream_text ∷ clean_up true, net')
              else if not audio_asked
              then (stop, asked start_stream_text ∷ asked start_audio_text ∷ clean_up true, net')
              else (go_on, asked start_stream_text ∷ asked start_audio_text ∷ [], net')
        ]
  ]

  module _ (chacha20_xor : List ℕ → List ℕ → ℕ → List ℕ → List ℕ) {Json : Type 0}
      (get_item : Json → List ℕ → Option Json) (valuestring : Json → Option (List ℕ))
      (parse : List ℕ → Option Json) (base64_decode : List ℕ → Option (List ℕ)) where
    -- `gateway_session_main` over the turns so far
    unfoldable pub session_main : Bool → Bool → Bool → List Turn → Net → After × List Act × Net
    session_main connected video_asked audio_asked turns net =
        let (begun, acts, net₁) = begin_session connected video_asked audio_asked net in
        let (after, s, net₂) =
          session_loop write chacha20_xor get_item valuestring parse base64_decode turns unannounced
            net₁ in
        elim begun [
          | stop ↦ (stop, acts, net₁)
          | go_on ↦ elim after [
            | go_on ↦ (go_on, acts, net₂)
            | stop ↦ (stop, acts ++ clean_up true, net₂)
          ]
        ]

    -- Before the loop: it has been reached, or the session is over.
    begin_session_cases :
        (connected video_asked audio_asked : Bool) (net : Net)
        → let (begun, acts, net') = begin_session connected video_asked audio_asked net in
          ((begun ≡ go_on)
            × (acts ≡ asked start_stream_text ∷ asked start_audio_text ∷ [])
            × (connected ≡ true))
          ⊎ ((begun ≡ stop) × (acts ≡ clean_up false) × (connected ≡ false))
          ⊎ ((begun ≡ stop) × (acts ≡ clean_up true) × (connected ≡ true))
          ⊎ ((begun ≡ stop) × (acts ≡ asked start_stream_text ∷ clean_up true) × (connected ≡ true))
          ⊎ ((begun ≡ stop)
              × (acts ≡ asked start_stream_text ∷ asked start_audio_text ∷ clean_up true)
              × (connected ≡ true))
    unfolding begin_session
    begin_session_cases connected video_asked audio_asked net =
        ground (arith, write_init-default_init)

    pub text_turn :
        (payload : List ℕ) (s s' : SessionNonce) (net : Net)
        → parse_crypto_init get_item valuestring parse base64_decode true payload s ≡ (ok, s')
        → session_turn write chacha20_xor get_item valuestring parse base64_decode
            (ready none (some (some (1, payload))) true true)
            s
            net
          ≡ (go_on, s', net)
    unfolding session_turn client_ends on_frame
    text_turn payload s s' net e = ground (arith, e)

    pub binary_turn :
        (payload : List ℕ) (s : SessionNonce) (net : Net)
        → let (after, net') = on_binary write chacha20_xor true payload s net in
          session_turn write chacha20_xor get_item valuestring parse base64_decode
            (ready none (some (some (2, payload))) true true)
            s
            net
          ≡ (after, s, net')
    unfolding session_turn client_ends on_frame
    binary_turn payload s net = refl

    -- A session that has ended has closed the connection to the server, then the client's, and then cleared the flag, each once and
    -- last of all. Where the server was reached, it has first been asked to stop both streams and been sent a close frame with the
    -- code 1000; where it was not, nothing was sent to it.
    pub session_main_ends :
        (connected video_asked audio_asked : Bool) (turns : List Turn) (net : Net)
        → (session_main connected video_asked audio_asked turns net).0 ≡ stop
        → (texts : List (List ℕ)) × ((session_main connected video_asked audio_asked turns net).1
            ≡ asked_all texts
              ++ (if connected
                  then asked (codes "{\"cmd\":\"stop_stream\"}")
                    ∷ asked (codes "{\"cmd\":\"stop_audio_stream\"}")
                    ∷ said_close 1000
                    ∷ []
                  else [])
              ++ (server_closed ∷ client_closed ∷ inactive ∷ []))
          × ((texts ≡ []) ⊎ (connected ≡ true))
    unfolding session_main clean_up
    session_main_ends connected video_asked audio_asked turns net e =
        elim (begin_session_cases connected video_asked audio_asked net) [
          | inl (b, a, c) ↦
              (start_stream_text ∷ start_audio_text ∷ [], ground (arith, b, a, c, e), inr c)
          | inr (inl (b, a, c)) ↦ ([], ground (arith, b, a, c, e), inl refl)
          | inr (inr (inl (b, a, c))) ↦ ([], ground (arith, b, a, c, e), inl refl)
          | inr (inr (inr (inl (b, a, c)))) ↦
              (start_stream_text ∷ [], ground (arith, b, a, c, e), inr c)
          | inr (inr (inr (inr (b, a, c)))) ↦
              (start_stream_text ∷ start_audio_text ∷ [], ground (arith, b, a, c, e), inr c)
        ]
