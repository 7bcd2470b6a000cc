-- ===== src/Tests/Video.antt =====
-- A large frame, the queue of video packets and the search for a header at concrete values.
use carplay_poc.Usb.Ring.{bytes}
use carplay_poc.Base.{
  ℕ, inr, ◌++◌, refl, false, ◌≡◌, inl, true, Status, [], ok, List, ◌⊎◌, ◌∷◌, some, arith, Bool, leb,
  if◌then◌else◌, replicate, length-replicate, length, take, drop,
}
use carplay_poc.Streamer.{App, video_payload_flags}
use carplay_poc.Playback.{QueuedVideoPacket, VideoState}
use carplay_poc.Net.{Read}
use carplay_poc.Proto.{MediaInfo, read_init, read_media_header}
use carplay_poc.Tests.Data.{scramble, scramble-IsStreamCipher}
use carplay_poc.Usb.Relay.{media_info, encrypt_payload}
use carplay_poc.Playback.Backlog.{IsPlayable, read_video-IsPlayable}
use carplay_poc.Playback.Opened.{
  decrypt_usb_media_payload, decrypt_usb_media_payload-encrypt_payload,
}
use carplay_poc.Playback.Delivery.{receive_video-send_video_media}
use carplay_poc.Playback.Fragments.{reset_video_fragments, receive_video}
use carplay_poc.Playback.Resync.{
  IsPort, stream, read_next_gateway_header_lem, read_gateway_payload_resync_lem, HasMagic,
}
use carplay_poc.Playback.Input.{
  read_exact_prefetched, read_be32_host, Prefetch, Header, Payload, read_next_gateway_header,
  read_gateway_payload_resync,
}
use carplay_poc.Playback.Queue.{trim_video_queue_for_latency, read_video}
use carplay_poc.Streamer.Split.{IsTaking}
use carplay_poc.Streamer.Fragments.{send_video_media}

-- It takes every packet and keeps it.
abbrev taking : List ℕ → App (List (List ℕ)) → Status × App (List (List ℕ))
taking p app = (ok, record app { conn = app.conn ++ p ∷ [] })

abbrev taking-IsTaking : IsTaking taking
taking-IsTaking = record { sent = λ c. c; takes = λ p app. (refl, refl) }

abbrev new_app : App (List (List ℕ))
new_app = record {
  conn = [];
  session_nonce = replicate 12 7;
  media_seq = 3;
  audio_chunk_index = 0;
  video_frame_id = 9;
  pending_audio_packets = 0;
  crypto_init_sent = true;
}

abbrev packet_of : ℕ → Bool → QueuedVideoPacket
packet_of n key = record { packet = n ∷ []; keyframe = key; seq_no = n }

-- Seven packets wait, the third of them a keyframe, and a part of another frame.
abbrev busy_video : VideoState
busy_video = record {
  sps = 0x67 ∷ 1 ∷ [];
  pps = 0x68 ∷ 2 ∷ [];
  queue =
      packet_of 1 false
      ∷ packet_of 2 false
      ∷ packet_of 3 true
      ∷ packet_of 4 false
      ∷ packet_of 5 false
      ∷ packet_of 6 false
      ∷ packet_of 7 false
      ∷ [];
  waiting_for_keyframe = false;
  dropped_packets = 0;
  frag_active = true;
  frag_frame_id = 8;
  frag_flags = 1;
  frag_count = 2;
  frag_last_seq_no = 5;
  frag_received = 1;
  frag_total_size = 3;
  frag_parts = (1 ∷ 2 ∷ 3 ∷ []) ∷ [] ∷ [];
}

busy_video-IsPlayable : IsPlayable busy_video
busy_video-IsPlayable = record { bounded = omega arith; empty_while_waiting = inl refl }

-- a frame of 20000 bytes that begins like a keyframe
abbrev big_frame : List ℕ
big_frame = 0x65 ∷ replicate 19999 5

receive_video-send_video_media_example :
    let (rc, app') = send_video_media taking (λ i. true) big_frame new_app in
    (rc ≡ ok)
    × (receive_video busy_video 0 7 app'.conn
        ≡ ((big_frame, video_payload_flags big_frame) ∷ [], reset_video_fragments busy_video))
receive_video-send_video_media_example =
    receive_video-send_video_media taking taking-IsTaking big_frame new_app busy_video 0 7
      (omega (arith, length-replicate {A = ℕ} 19999 5))
      (omega (arith, length-replicate {A = ℕ} 19999 5)) (omega arith)
      (inr (λ e. absurd (omega (arith, e)))) refl

read_video-IsPlayable_example : IsPlayable (read_video busy_video (0x41 ∷ 9 ∷ []) 0 8)
read_video-IsPlayable_example =
    read_video-IsPlayable busy_video (0x41 ∷ 9 ∷ []) 0 8 busy_video-IsPlayable

trimmed_to_keyframe :
    (trim_video_queue_for_latency busy_video).queue
    ≡ packet_of 3 true
      ∷ packet_of 4 false
      ∷ packet_of 5 false
      ∷ packet_of 6 false
      ∷ packet_of 7 false
      ∷ []
unfolding trim_video_queue_for_latency
trimmed_to_keyframe = refl

-- A port that holds bytes.
abbrev port_read : List ℕ → ℕ → Read × List ℕ
port_read bs len =
    if leb len (length bs) then (Read.got (take len bs), drop len bs) else (Read.closed, [])

abbrev port_read-IsPort : IsPort port_read
port_read-IsPort = record { incoming = λ bs. bs; reads = λ bs len h. (ground arith, ground arith) }

-- A header of stream 1 with number 5 and a payload of 3 bytes.
abbrev header_bytes : List ℕ
header_bytes = b'G' ∷ b'W' ∷ b'P' ∷ b'1' ∷ 1 ∷ 0 ∷ 0 ∷ 0 ∷ 0 ∷ 0 ∷ 0 ∷ 5 ∷ 0 ∷ 0 ∷ 0 ∷ 3 ∷ []

abbrev header_info : MediaInfo
header_info = record { stream_id = 1; flags = 0; seq_no = 5; payload_len = 3 }

-- One byte was read ahead, and four more stand before the header.
abbrev one_ahead : Prefetch
one_ahead = record { ahead = 9 ∷ b'G' ∷ []; off = 1 }

abbrev noisy : List ℕ
noisy = b'W' ∷ b'P' ∷ b'2' ∷ b'G' ∷ header_bytes ++ 1 ∷ 2 ∷ 3 ∷ []

read_next_gateway_header_lem_example :
    let (h, skipped, f', port') = read_next_gateway_header port_read 9 one_ahead noisy in
    (h ≡ Header.media header_info)
    × (skipped ≡ 5)
    × (stream port_read port_read-IsPort f' port' ≡ 1 ∷ 2 ∷ 3 ∷ [])
unfolding read_media_header read_init
read_next_gateway_header_lem_example =
    read_next_gateway_header_lem port_read port_read-IsPort 5 9 one_ahead noisy header_info
      (omega arith) (omega arith) (omega arith)
      (refl, refl, (refl, refl, (refl, refl, (refl, refl, (refl, refl, tt))))) refl

-- A payload of twenty bytes was announced, but the bytes to come are the next packet.
abbrev cut_short : List ℕ
cut_short = b'W' ∷ b'P' ∷ b'1' ∷ 1 ∷ 0 ∷ 0 ∷ 0 ∷ 0 ∷ 0 ∷ 0 ∷ 5 ∷ 0 ∷ 0 ∷ 0 ∷ 3 ∷ 1 ∷ 2 ∷ 3 ∷ 4 ∷ []

next_is_given_back :
    (read_gateway_payload_resync port_read one_ahead cut_short 20).0 ≡ Payload.desync
unfolding read_gateway_payload_resync read_exact_prefetched read_be32_host
next_is_given_back = refl

noise_is_payload :
    (read_gateway_payload_resync port_read one_ahead noisy 4).0
    ≡ Payload.got (b'G' ∷ b'W' ∷ b'P' ∷ b'2' ∷ [])
unfolding read_gateway_payload_resync read_exact_prefetched read_be32_host
noise_is_payload = refl

read_gateway_payload_resync_lem_example :
    let (r, f', port') = read_gateway_payload_resync port_read one_ahead cut_short 20 in
    (¬ (HasMagic header_bytes)
      × (r ≡ Payload.got (header_bytes ++ 1 ∷ 2 ∷ 3 ∷ 4 ∷ []))
      × (stream port_read port_read-IsPort f' port' ≡ []))
    ⊎ (HasMagic header_bytes
        × (r ≡ Payload.desync)
        × (stream port_read port_read-IsPort f' port'
            ≡ stream port_read port_read-IsPort one_ahead cut_short))
read_gateway_payload_resync_lem_example =
    read_gateway_payload_resync_lem port_read port_read-IsPort one_ahead cut_short 20 (omega arith)

decrypt_usb_media_payload-encrypt_payload_example :
    (packet : List ℕ) × (encrypt_payload scramble true 2 77 (1 ∷ 2 ∷ 3 ∷ []) ≡ some (bytes packet))
    × (decrypt_usb_media_payload scramble (media_info 2 77 (1 ∷ 2 ∷ 3 ∷ []) (length packet)) packet
        ≡ (true, 1 ∷ 2 ∷ 3 ∷ []))
decrypt_usb_media_payload-encrypt_payload_example =
    decrypt_usb_media_payload-encrypt_payload scramble 2 77 (1 ∷ 2 ∷ 3 ∷ []) scramble-IsStreamCipher
      (omega arith, (omega arith, (omega arith, tt))) (omega arith) (omega arith) (omega arith)
      (omega arith)
