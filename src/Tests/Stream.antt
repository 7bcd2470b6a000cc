-- ===== src/Tests/Stream.antt =====
-- ameba_gateway/example_gateway_ameba.c: the USB side at concrete states.
use carplay_poc.Base.{ℕ, ◌≡◌, refl, arith, true, some, List, [], ◌∷◌, ◌++◌, take, drop, replicate}
use carplay_poc.Proto.{read_media_header}
use carplay_poc.Crypto.{decrypt_packet}
use carplay_poc.Usb.Queue
use carplay_poc.Usb.Ring.{tx_ring_size, bytes, enqueue_packet, peek_chunk, consume_chunk}
use carplay_poc.Usb.Ring.Refine.{contents, IsValid, enqueue_packet_refines, consume_chunk_refines}
use carplay_poc.Usb.State.{Completion}
use carplay_poc.Usb.Stream.{in_complete}
use carplay_poc.Usb.Stream.Complete.{in_complete_delivers}
use carplay_poc.Media.{video_flags}
use carplay_poc.Usb.Relay.{usb_crypto_nonce, enqueue_media_packet}
use carplay_poc.Usb.Relay.Packet.{enqueue_media_packet_opens}
use carplay_poc.Usb.Events.{Event}
use carplay_poc.Tests.Data.{
  scramble, scramble-IsStreamCipher, round_tx, round_tx-IsValid, sending, sending-IsSound, all_well,
  accepting, ping_bytes,
}

enqueue_packet_refines_example :
    let (s, t') = enqueue_packet round_tx (bytes (1 ∷ 2 ∷ [])) (bytes (3 ∷ [])) in
    ((s, contents t') ≡ Queue.push tx_ring_size (contents round_tx) (1 ∷ 2 ∷ 3 ∷ [])) × IsValid t'
enqueue_packet_refines_example =
    enqueue_packet_refines round_tx (1 ∷ 2 ∷ []) (3 ∷ []) round_tx-IsValid (omega arith)

peek_round : peek_chunk round_tx 512 ≡ 131075 ∷ 131076 ∷ 5 ∷ []
unfolding peek_chunk
peek_round = refl

consume_chunk_refines_example :
    (contents (consume_chunk round_tx 2) ≡ drop 2 (contents round_tx))
    × IsValid (consume_chunk round_tx 2)
consume_chunk_refines_example = consume_chunk_refines round_tx 2 round_tx-IsValid (omega arith)

-- The controller says that it sent two of the three bytes.
abbrev two_sent : Completion
two_sent = record { status = 0; actual = 2 }

in_complete_delivers_example :
    let s' = in_complete 0 0 true (some two_sent) sending in
    contents sending.tx ≡ take 2 (131075 ∷ 131076 ∷ 5 ∷ replicate 509 0) ++ contents s'.tx
in_complete_delivers_example =
    in_complete_delivers 0 0 true two_sent sending sending-IsSound refl refl

abbrev ping_received : Completion
ping_received = record { status = 0; actual = 64 }

enqueue_media_packet_opens_example :
    let (rc, t') = enqueue_media_packet scramble true 1 9 (0x65 ∷ 0x88 ∷ []) round_tx in
    (packet : List ℕ) × ((rc, contents t') ≡ Queue.push tx_ring_size (contents round_tx) packet)
    × IsValid t'
    × (read_media_header (some packet)
        ≡ some (record {
          stream_id = 1;
          flags = video_flags (0x65 ∷ 0x88 ∷ []);
          seq_no = 9;
          payload_len = 10;
        }))
    × (decrypt_packet scramble (some 2) (some usb_crypto_nonce) (some (drop 16 packet))
        ≡ (2, some (record { stream_id = 1; seq_no = 9; plaintext = 0x65 ∷ 0x88 ∷ [] })))
enqueue_media_packet_opens_example =
    enqueue_media_packet_opens scramble 1 9 (0x65 ∷ 0x88 ∷ []) round_tx scramble-IsStreamCipher
      round_tx-IsValid (ground arith) (omega arith) (omega arith) (omega arith) (omega arith)

-- The device is set up, the host pings it, the pong goes out, a frame arrives, and the init packet
-- goes out.
abbrev life : List Event
life =
    Event.usb_started true true
    ∷ Event.config_bound
    ∷ Event.function_bound true true true
    ∷ Event.alt_set all_well
    ∷ Event.out_completed accepting ping_received ping_bytes
    ∷ Event.in_completed 0 0 true (some (record { status = 0; actual = 64 }))
    ∷ Event.media_arrived true 0 1 9 (0x65 ∷ 0x88 ∷ [])
    ∷ Event.in_completed 0 0 true (some (record { status = 0; actual = 16 }))
    ∷ []
