-- ===== src/Tests/Startup.antt =====
-- The client's start over USB at concrete values: a pong counts only from its sequence number on, an init packet
-- only behind the pong.
use carplay_poc.Base.{ok, true, false, ◌∷◌, [], ◌++◌, none, refl, ◌≡◌, List, ℕ, replicate}
use carplay_poc.Playback.Startup.{
  brought, timed_out, StartupState, UpstreamOptions, ping_packet, prepare_usb_stream_startup,
}
use carplay_poc.Base.{Status}
use carplay_poc.Media.{has_magic}
use carplay_poc.Playback.{read_u32le}
use carplay_poc.Proto.{read_init}

-- a pong without text
abbrev pong : ℕ → List ℕ
pong seq_no = b'P' ∷ b'O' ∷ b'N' ∷ b'G' ∷ seq_no ∷ replicate 59 0

-- H.264 and no sound, with two bytes behind it
abbrev init_data : List ℕ
init_data = 0x47 ∷ 0x57 ∷ 0x49 ∷ 0x31 ∷ 1 ∷ 1 ∷ 0 ∷ 0 ∷ 0 ∷ 0 ∷ 0 ∷ 0 ∷ 0 ∷ 0 ∷ 0 ∷ 0 ∷ []

abbrev fresh : StartupState
fresh = record { have_init = false; init_buf = []; leftover = [] }

abbrev quiet : UpstreamOptions
quiet = record { enabled = false; host = []; port = 8081; path = [] }

-- writes are kept in order
abbrev append : List ℕ → List ℕ → Status × List ℕ
append sent bytes = (ok, sent ++ bytes)

start_run :
    prepare_usb_stream_startup append true 7 quiet none
      (brought (pong 7)
        ∷ timed_out
        ∷ brought (pong 6)
        ∷ brought init_data
        ∷ brought (pong 7)
        ∷ timed_out
        ∷ brought (init_data ++ 8 ∷ 9 ∷ [])
        ∷ [])
      fresh
      []
    ≡ (ok, record { have_init = true; init_buf = init_data; leftover = 8 ∷ 9 ∷ [] }, ping_packet 7)
unfolding prepare_usb_stream_startup replicate has_magic read_u32le read_init
start_run = refl
