-- ===== src/Tests/Served.antt =====
-- A session of the gateway program at concrete values: the server announces the nonce of twelve sevens and sends two packets.
use carplay_poc.Handshake.{codes}
use carplay_poc.Base.{
  ℕ, ◌≡◌, ◌⊎◌, arith, refl, true, Option, some, none, List, [], ◌∷◌, ◌++◌, Status, ok, write_be32,
}
use carplay_poc.Crypto.{magic0, magic1, crypto_version, default_key, packet_nonce, encrypt_packet}
use carplay_poc.Proto.{read_init, default_init, init_packet, write_init}
use carplay_poc.Session.{SessionNonce, parse_crypto_init, crypto_init}
use carplay_poc.Session.Forward.{IsWriting}
use carplay_poc.Session.Relay.{go_on, ready, broken, session_loop, session_turn}
use carplay_poc.Session.Whole.{
  asked, asked_all, said_close, server_closed, client_closed, inactive, start_stream_text,
  start_audio_text, session_main, begin_session, session_main_ends,
}
use carplay_poc.Session.Served.{Sealed, Holds, frames_of, AreSealed, session_main-Holds}
use carplay_poc.Tests.Data.{scramble, scramble-IsStreamCipher}

-- It takes all that is written.
abbrev log_write : List ℕ → List ℕ → Status × List ℕ
log_write out bs = (ok, out ++ bs)

abbrev log_write-IsWriting : IsWriting log_write
log_write-IsWriting = record { written = λ out. out; writes = λ out bs. (refl, refl) }

abbrev twelve_sevens : SessionNonce
twelve_sevens = record {
  session_nonce = 7 ∷ 7 ∷ 7 ∷ 7 ∷ 7 ∷ 7 ∷ 7 ∷ 7 ∷ 7 ∷ 7 ∷ 7 ∷ 7 ∷ [];
  have_nonce = true;
}

-- A packet of stream 1, number 2, with the plaintext 0x65 1.
abbrev sealed : List ℕ
sealed =
    magic0
    ∷ magic1
    ∷ crypto_version
    ∷ 1
    ∷ 0
    ∷ 0
    ∷ 0
    ∷ 2
    ∷ scramble default_key (packet_nonce twelve_sevens.session_nonce 2) 1 (0x65 ∷ 1 ∷ [])

-- Every text is a `crypto_init` message; a message is the list of its strings.
abbrev parse_any : List ℕ → Option (List ℕ)
parse_any text = some crypto_init

abbrev get_itself : List ℕ → List ℕ → Option (List ℕ)
get_itself m key = some m

abbrev its_text : List ℕ → Option (List ℕ)
its_text m = some m

abbrev decode_any : List ℕ → Option (List ℕ)
decode_any text = some (7 ∷ 7 ∷ 7 ∷ 7 ∷ 7 ∷ 7 ∷ 7 ∷ 7 ∷ 7 ∷ 7 ∷ 7 ∷ 7 ∷ [])

abbrev keyframe : Sealed
keyframe = record { stream = 1; seq = 2; plain = 0x65 ∷ 1 ∷ []; packet = sealed }

two-AreSealed :
    AreSealed log_write log_write-IsWriting scramble get_itself its_text parse_any decode_any
      twelve_sevens 10
      (keyframe ∷ keyframe ∷ [])
unfolding AreSealed encrypt_packet write_be32
two-AreSealed = (
  (omega arith, (omega arith, tt)),
  omega arith,
  omega arith,
  omega arith,
  omega arith,
  refl,
  ((omega arith, (omega arith, tt)), omega arith, omega arith, omega arith, omega arith, refl, tt),
)

session_main-Holds_example :
    let (after, acts, net') =
      session_main log_write scramble get_itself its_text parse_any decode_any true true true
        (ready none (some (some (1, 9 ∷ []))) true true ∷ frames_of (keyframe ∷ keyframe ∷ []))
        [] in
    (out : List ℕ) × (after ≡ go_on)
    × (acts ≡ asked start_stream_text ∷ asked start_audio_text ∷ [])
    × (net' ≡ init_packet ++ out)
    × (read_init (some init_packet) ≡ some default_init)
    × Holds (keyframe ∷ keyframe ∷ []) out
unfolding parse_crypto_init
session_main-Holds_example =
    session_main-Holds log_write log_write-IsWriting scramble get_itself its_text parse_any
      decode_any (keyframe ∷ keyframe ∷ []) twelve_sevens 10 (9 ∷ []) [] scramble-IsStreamCipher
      refl refl two-AreSealed

session_main_ends_example :
    (texts : List (List ℕ)) × ((session_main log_write scramble get_itself its_text parse_any
        decode_any true true true
        (broken ∷ [])
        []).1
      ≡ asked_all texts
        ++ (asked (codes "{\"cmd\":\"stop_stream\"}")
            ∷ asked (codes "{\"cmd\":\"stop_audio_stream\"}")
            ∷ said_close 1000
            ∷ [])
        ++ (server_closed ∷ client_closed ∷ inactive ∷ []))
    × ((texts ≡ []) ⊎ (true ≡ true))
unfolding session_main begin_session session_loop session_turn write_init
session_main_ends_example =
    session_main_ends log_write scramble get_itself its_text parse_any decode_any true true true
      (broken ∷ []) [] refl
