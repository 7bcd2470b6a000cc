-- ===== src/Tests/Codec.antt =====
-- wsh264/src/gateway_proto.c, wsh264/src/crypto_stream.c and the configuration packet at concrete values.
use carplay_poc.Base.{
  ℕ, ◌+◌, ◌≡◌, ◌≢◌, ◌↔◌, ◌⊎◌, ◌<◌, refl, arith, true, none, some, List, [], ◌∷◌, length, ok, failed,
  byte_at, take,
}
use carplay_poc.Proto.{MediaInfo}
use carplay_poc.Crypto.{encrypt_packet, decrypt_packet, packet_nonce, is_negative}
use carplay_poc.Crypto.Packet.{decrypt_packet-encrypt_packet, decrypt_packet_refuses}
use carplay_poc.Crypto.Nonce.{packet_nonces_differ}
use carplay_poc.Config.{ConfigPacket, apply_usb_config, config_packet_at}
use carplay_poc.Config.Packet.{config_bytes}
use carplay_poc.Config.Apply.{apply_usb_config-config_bytes, apply_usb_config_cases}
use carplay_poc.Media.{video_flags}
use carplay_poc.Tests.Data.{scramble, scramble-IsStreamCipher, any_address, no_config}

abbrev one_frame : MediaInfo
one_frame = record { stream_id = 1; flags = 1; seq_no = 77; payload_len = 4000 }

abbrev letter_g : ℕ
letter_g = b'G'

abbrev letter_w : ℕ
letter_w = b'W'

abbrev letter_p : ℕ
letter_p = b'P'

abbrev digit_1 : ℕ
digit_1 = b'1'

abbrev nonce : List ℕ
nonce = 1 ∷ 2 ∷ 3 ∷ 4 ∷ 5 ∷ 6 ∷ 7 ∷ 8 ∷ 255 ∷ 255 ∷ 255 ∷ 255 ∷ []

decrypt_packet-encrypt_packet_example :
    (p : List ℕ) × (encrypt_packet scramble (some 20) 1 300 (some nonce) (some (0x65 ∷ 0x88 ∷ []))
      ≡ (10, some p))
    × (length p ≡ 10)
    × (decrypt_packet scramble (some 2) (some nonce) (some p)
        ≡ (2, some (record { stream_id = 1; seq_no = 300; plaintext = 0x65 ∷ 0x88 ∷ [] })))
decrypt_packet-encrypt_packet_example =
    decrypt_packet-encrypt_packet scramble 20 2 1 300 nonce (0x65 ∷ 0x88 ∷ [])
      scramble-IsStreamCipher (ground arith) (omega arith) (omega arith) (omega arith) (omega arith)
      (omega arith)

abbrev too_short : List ℕ
too_short = b'C' ∷ b'H' ∷ 2 ∷ []

decrypt_packet_refuses_example :
    let (rc, stored) = decrypt_packet scramble (some 9) (some nonce) (some too_short) in
    ((is_negative rc ≡ true) ↔ (stored ≡ none))
    × ((stored ≡ none) ↔ (
        (length too_short < 8)
        ⊎ (byte_at too_short 0 ≢ b'C')
        ⊎ (byte_at too_short 1 ≢ b'H')
        ⊎ (byte_at too_short 2 ≢ 1)
        ⊎ (9 + 8 < length too_short)))
decrypt_packet_refuses_example = decrypt_packet_refuses scramble 9 nonce too_short (omega arith)

packet_nonces_differ_example : packet_nonce nonce 5 ≢ packet_nonce nonce 6
packet_nonces_differ_example =
    packet_nonces_differ nonce 5 6 refl (omega arith) (omega arith) (omega arith)

-- "10.0.0.7" and "/gateway"
abbrev host : List ℕ
host = b'1' ∷ b'0' ∷ b'.' ∷ b'0' ∷ b'.' ∷ b'0' ∷ b'.' ∷ b'7' ∷ []

abbrev path : List ℕ
path = b'/' ∷ b'g' ∷ b'a' ∷ b't' ∷ b'e' ∷ b'w' ∷ b'a' ∷ b'y' ∷ []

apply_usb_config-config_bytes_example :
    (raw : List ℕ) × (config_bytes 3 8081 host path ≡ some raw)
    × (length raw ≡ 64)
    × (apply_usb_config any_address (some (config_packet_at raw)) no_config ≡ (
      ok,
      record {
        config = record { host = host; path = path; port = 8081; valid = true; seq_no = 3 };
        config_valid = true;
        config_seq = 3;
        reconnect_requested = true;
      },
    ))
apply_usb_config-config_bytes_example =
    apply_usb_config-config_bytes any_address 3 8081 host path no_config (omega arith) (omega arith)
      (omega arith) (ground arith) (ground arith) refl

abbrev no_port : ConfigPacket
no_port = record { seq_no = 3; port = 0; host = host; path = path }

apply_usb_config_cases_example :
    let (rc, s') = apply_usb_config any_address (some no_port) no_config in
    ((rc ≡ failed) × (s' ≡ no_config))
    ⊎ ((rc ≡ ok)
        × (s'.config.port ≡ 0)
        × (no_port.port ≢ 0)
        × (s'.config.valid ≡ true)
        × (s'.config_valid ≡ true)
        × (s'.reconnect_requested ≡ true)
        × (any_address s'.config.host ≡ true)
        × (take (length s'.config.host) host ≡ s'.config.host)
        × (length s'.config.host < 16)
        × (take (length s'.config.path) path ≡ s'.config.path)
        × (length s'.config.path < 36))
apply_usb_config_cases_example = apply_usb_config_cases any_address no_port no_config

video_flags_keyframe : video_flags (0x65 ∷ 0x88 ∷ []) ≡ 1
unfolding video_flags
video_flags_keyframe = refl
