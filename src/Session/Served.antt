-- ===== src/Session/Served.antt =====
-- gateway/gateway.c: what the client gets from a session, from its first byte on.
use carplay_poc.Base.{
  ℕ, ◌≡◌, ◌<◌, ◌≤◌, ◌+◌, ◌^◌, ◌==◌, arith, refl, sym, ap, ◌∙◌, true, some, none, Option, List, [],
  ◌∷◌, ◌++◌, append-nil, append_assoc, length, Status, ok, if◌then◌else◌, IsBytes,
}
use carplay_poc.Proto.{
  read_media_header, read_init, default_init, init_packet, write_init-default_init,
}
use carplay_poc.Session.{SessionNonce, parse_crypto_init}
use carplay_poc.Session.Relay.{go_on, Turn, ready, session_turn, session_loop, on_binary}
use carplay_poc.Session.Forward.{IsWriting, on_binary-encrypt_packet}
use carplay_poc.Session.Whole.{
  asked, start_stream_text, start_audio_text, begin_session, session_main, unannounced, text_turn,
  binary_turn,
}
use carplay_poc.Crypto.{encrypt_packet}
use carplay_poc.Crypto.Cipher.{IsStreamCipher}
use carplay_poc.Media.{video_flags}

-- A packet of the server, and what it holds.
pub record Sealed : Type 0 where
  pub stream : ℕ
  pub seq : ℕ
  pub plain : List ℕ
  pub packet : List ℕ

-- The turns in which these packets come, one frame each.
abbrev pub frames_of : List Sealed → List Turn
frames_of [] = []
frames_of (p ∷ ps) = ready none (some (some (2, p.packet))) true true ∷ frames_of ps

-- The bytes are these packets' media headers, of sixteen bytes, each with its payload behind it, and nothing else.
unfoldable pub Holds : List Sealed → List ℕ → Type 0
Holds [] out = out ≡ []
Holds (p ∷ ps) out =
    (header : List ℕ) × (rest : List ℕ) × (out ≡ header ++ p.plain ++ rest)
    × (length header ≡ 16)
    × (read_media_header (some header)
        ≡ some (record {
          stream_id = p.stream;
          flags = if p.stream == 1 then video_flags p.plain else 0;
          seq_no = p.seq;
          payload_len = length p.plain;
        }))
    × Holds ps rest

read_init-default_init : read_init (some init_packet) ≡ some default_init
unfolding read_init default_init
read_init-default_init = refl

module _ {Net : Type 0} (write : Net → List ℕ → Status × Net) (w : IsWriting write)
    (chacha20_xor : List ℕ → List ℕ → ℕ → List ℕ → List ℕ) {Json : Type 0}
    (get_item : Json → List ℕ → Option Json) (valuestring : Json → Option (List ℕ))
    (parse : List ℕ → Option Json) (base64_decode : List ℕ → Option (List ℕ)) where
  -- The server made the packets under this nonce, from bytes, with numbers in range, in a buffer that held them.
  unfoldable pub AreSealed : SessionNonce → ℕ → List Sealed → Type 0
  AreSealed s room [] = Unit
  AreSealed s room (p ∷ ps) =
      IsBytes p.plain
      × (p.stream < 2 ^ 8)
      × (p.seq < 2 ^ 32)
      × (8 + length p.plain < 2 ^ 31)
      × (8 + length p.plain ≤ room)
      × ((encrypt_packet chacha20_xor (some room) p.stream p.seq (some s.session_nonce)
            (some p.plain)).1
          ≡ some p.packet)
      × AreSealed s room ps

  begin_session-written :
      (net : Net)
      → (net' : Net) × (begin_session write true true true net
          ≡ (go_on, asked start_stream_text ∷ asked start_audio_text ∷ [], net'))
        × (w.written net' ≡ w.written net ++ init_packet)
  unfolding begin_session
  begin_session-written net =
      let (fine, one) = w.writes net init_packet in
      ((write net init_packet).1, ground (arith, fine, write_init-default_init), one)

  loop_step :
      (t : Turn) (ts : List Turn) (s s' : SessionNonce) (net net' : Net)
      → session_turn write chacha20_xor get_item valuestring parse base64_decode t s net
        ≡ (go_on, s', net')
      → session_loop write chacha20_xor get_item valuestring parse base64_decode (t ∷ ts) s net
        ≡ session_loop write chacha20_xor get_item valuestring parse base64_decode ts s' net'
  unfolding session_loop
  loop_step t ts s s' net net' e = ground (arith, e)

  session_loop-Holds :
      (ps : List Sealed) (s : SessionNonce) (room : ℕ) (net : Net)
      → IsStreamCipher chacha20_xor
      → s.have_nonce ≡ true
      → AreSealed s room ps
      → let (after, s', net') =
          session_loop write chacha20_xor get_item valuestring parse base64_decode
            (frames_of ps)
            s
            net in
        (out : List ℕ) × (after ≡ go_on) × (w.written net' ≡ w.written net ++ out) × Holds ps out
  unfolding session_loop AreSealed Holds
  session_loop-Holds [] s room net c have v = ([], refl, sym (append-nil (w.written net)), refl)
  session_loop-Holds (p ∷ ps) s room net c have (hb, hs, hq, short, fits, e, later) =
      let (header, fine, one, size, read) =
        on_binary-encrypt_packet write w chacha20_xor room p.stream p.seq p.plain p.packet s net c
          hb hs hq short fits have e in
      let net₁ = (on_binary write chacha20_xor true p.packet s net).1 in
      let turn =
        binary_turn write chacha20_xor get_item valuestring parse base64_decode p.packet s net in
      let step =
        loop_step (ready none (some (some (2, p.packet))) true true) (frames_of ps) s s net net₁
          (turn ∙ ap (λ a. (a, s, net₁)) fine) in
      let (out, on, more, holds) = session_loop-Holds ps s room net₁ c have later in
      rw step (
        header ++ p.plain ++ out,
        on,
        more ∙ ap (λ l. l ++ out) one ∙ simp (append_assoc),
        (header, out, refl, size, read, holds),
      )

  main_step :
      (ts : List Turn) (net net₁ : Net)
      → begin_session write true true true net
        ≡ (go_on, asked start_stream_text ∷ asked start_audio_text ∷ [], net₁)
      → let last =
          session_loop write chacha20_xor get_item valuestring parse base64_decode ts unannounced
            net₁ in
        last.0 ≡ go_on
        → session_main write chacha20_xor get_item valuestring parse base64_decode true true true ts
            net
          ≡ (go_on, asked start_stream_text ∷ asked start_audio_text ∷ [], last.2)
  unfolding session_main
  main_step ts net net₁ b e = ground (arith, b, e)

  -- Where the client takes all that is written, the server is reached, the first texts go out, the first frame is one that
  -- `gateway_parse_crypto_init` takes for the nonce `s`, and the frames behind it are packets made under `s`, with enough memory and
  -- nothing from the client: the session asks the server for both streams and goes on, and the client has got the init packet, which
  -- reads as the default one, and then each packet as a header, which reads as the packet's, and its plaintext, in order and nothing
  -- else. The cipher is a stream cipher, and the packets are made from bytes, with numbers in range, each below 2 GiB.
  pub session_main-Holds :
      (ps : List Sealed) (s : SessionNonce) (room : ℕ) (announcement : List ℕ) (net : Net)
      → IsStreamCipher chacha20_xor
      → parse_crypto_init get_item valuestring parse base64_decode true announcement unannounced
        ≡ (ok, s)
      → s.have_nonce ≡ true
      → AreSealed s room ps
      → let (after, acts, net') =
          session_main write chacha20_xor get_item valuestring parse base64_decode true true true
            (ready none (some (some (1, announcement))) true true ∷ frames_of ps)
            net in
        (out : List ℕ) × (after ≡ go_on)
        × (acts ≡ asked start_stream_text ∷ asked start_audio_text ∷ [])
        × (w.written net' ≡ w.written net ++ init_packet ++ out)
        × (read_init (some init_packet) ≡ some default_init)
        × Holds ps out
  unfolding session_main
  session_main-Holds ps s room announcement net c e have v =
      let (net₁, begun, first) = begin_session-written net in
      let turn =
        text_turn write chacha20_xor get_item valuestring parse base64_decode announcement
          unannounced s net₁ e in
      let step =
        loop_step (ready none (some (some (1, announcement))) true true) (frames_of ps) unannounced
          s net₁ net₁ turn in
      let (out, on, more, holds) = session_loop-Holds ps s room net₁ c have v in
      rw
        (main_step (ready none (some (some (1, announcement))) true true ∷ frames_of ps) net net₁
          begun (rw step on))
        (out, refl, refl, rw step (more ∙ ap (λ l. l ++ out) first), read_init-default_init, holds)
