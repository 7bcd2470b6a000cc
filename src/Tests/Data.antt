-- ===== src/Tests/Data.antt =====
-- The concrete values that the tests share: a cipher, an address check, and a ring that goes round.
use carplay_poc.Base.{
  ℕ, ◌+◌, ◌≡◌, refl, ap₂, arith, Bool, true, false, List, [], ◌∷◌, length, bit_xor, bit_xor_twice,
  replicate,
}
use carplay_poc.Crypto.Cipher.{IsStreamCipher}
use carplay_poc.Config.{ConfigState}
use carplay_poc.Usb.Ring.{Tx}
use carplay_poc.Usb.Ring.Refine.{IsValid, contents}
use carplay_poc.Usb.State.{Usb}
use carplay_poc.Usb.Stream.Sound.{IsSound}
use carplay_poc.Usb.Device.{Setup}
use carplay_poc.Usb.Host.{Answers}
use carplay_poc.Usb.Events.{boot}

abbrev pub scrambled : List ℕ → List ℕ
scrambled [] = []
scrambled (b ∷ bs) = bit_xor b 0x5A ∷ scrambled bs

-- A stream cipher with a constant keystream.
abbrev pub scramble : List ℕ → List ℕ → ℕ → List ℕ → List ℕ
scramble key nonce counter bs = scrambled bs

length-scrambled : (bs : List ℕ) → length (scrambled bs) ≡ length bs
length-scrambled [] = refl
length-scrambled (b ∷ bs) = omega (arith, length-scrambled bs)

scrambled_twice : (bs : List ℕ) → scrambled (scrambled bs) ≡ bs
scrambled_twice [] = refl
scrambled_twice (b ∷ bs) = ap₂ ◌∷◌ (bit_xor_twice b 0x5A) (scrambled_twice bs)

pub scramble-IsStreamCipher : IsStreamCipher scramble
scramble-IsStreamCipher = record {
  same_length = λ key nonce counter bs. length-scrambled bs;
  undoes = λ key nonce counter bs h. scrambled_twice bs;
}

-- It takes every text.
abbrev pub any_address : List ℕ → Bool
any_address host = true

abbrev pub no_config : ConfigState
no_config = record {
  config = record { host = []; path = []; port = 0; valid = false; seq_no = 0 };
  config_valid = false;
  config_seq = 0;
  reconnect_requested = false;
}

-- Three bytes wait, the last of them at the start of the ring.
abbrev pub round_tx : Tx
round_tx = record {
  ring = λ i. i + 5;
  head = 1;
  tail = 131070;
  count = 3;
  proto_init_sent = true;
  last_ring_count = 3;
  last_queue_len = 0;
  bytes_enqueued = 3;
  bytes_sent = 0;
  drop_count = 0;
}

pub round_tx-IsValid : IsValid round_tx
round_tx-IsValid = record { count_fits = omega arith; tail_in = omega arith; head_at = refl }

-- A configured device that sends these three bytes.
abbrev pub sending : Usb
sending = record boot {
  tx = round_tx;
  in_ep = true;
  out_ep = true;
  in_req = true;
  out_req = true;
  in_buf = 131075 ∷ 131076 ∷ 5 ∷ replicate 509 0;
  in_req_length = 3;
  configured = true;
  in_busy = true;
  in_flight_len = 3;
  started = true;
  usb_configured = true;
  host_ready = true;
}

pub sending-IsSound : IsSound sending
unfolding contents
sending-IsSound = record {
  ring_valid = round_tx-IsValid;
  flight_small = omega arith;
  flight_fits = λ busy. omega arith;
  flight_front = λ busy. refl;
}

abbrev pub all_well : Setup
all_well = record {
  enable_in_rc = 0;
  enable_out_rc = 0;
  alloc_in = true;
  alloc_out = true;
  queue_out_rc = 0;
}

abbrev pub no_queueing : Setup
no_queueing = record {
  enable_in_rc = 0;
  enable_out_rc = 0;
  alloc_in = true;
  alloc_out = true;
  queue_out_rc = 5;
}

abbrev pub accepting : Answers
accepting = record { dequeue_rc = 0; can_flush = true; pong_rc = 0; kick_rc = 0 }

-- "PING", number 7, no payload
abbrev pub ping_bytes : List ℕ
ping_bytes = b'P' ∷ b'I' ∷ b'N' ∷ b'G' ∷ 7 ∷ 0 ∷ 0 ∷ 0 ∷ replicate 56 0
