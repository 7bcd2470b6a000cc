-- ===== src/Playback/Input.antt =====
-- gateway_client/gateway_client.cpp: packets read from the transport, with bytes read ahead, and the search for
-- the next header. `read` is `gateway_client_transport_read_exact` over a state `Port`. The loop over
-- bytes that begin no header runs on fuel.
use carplay_poc.Base.{
  Bool, suc, some, ◌+◌, min, false, ◌++◌, ◌||◌, zero, ℕ, [], ◌-◌, bit_or, List, none, ltb, leb,
  ◌==◌, if◌then◌else◌, length, take, drop, byte_at, u32, ◌<<<◌,
}
use carplay_poc.Net.{Read, got_more}
use carplay_poc.Proto.{
  init_magic, packet_magic, packet_header_size, InitInfo, MediaInfo, read_init, read_media_header,
}

-- `usb_prefetch` and `usb_prefetch_off`
pub record Prefetch : Type 0 where
  pub ahead : List ℕ
  pub off : ℕ

unfoldable pub read_be32_host : List ℕ → ℕ
read_be32_host p =
    bit_or (bit_or (bit_or (u32 (byte_at p 0 <<< 24)) (byte_at p 1 <<< 16)) (byte_at p 2 <<< 8))
      (byte_at p 3)

unfoldable pub starts_gateway_magic : List ℕ → Bool
starts_gateway_magic buf =
    if ltb (length buf) 4
    then false
    else let magic = read_be32_host buf in magic == init_magic || magic == packet_magic

unfoldable pub prepend_prefetch : Prefetch → List ℕ → Prefetch
prepend_prefetch f buf =
    if length buf == 0
    then f
    else if ltb f.off (length f.ahead)
    then record { ahead = buf ++ drop f.off f.ahead; off = 0 }
    else record { ahead = buf; off = 0 }

-- the prefetch once `copied` bytes of it are taken
unfoldable pub advance : Prefetch → ℕ → Prefetch
advance f copied =
    if leb (length f.ahead) (f.off + copied)
    then record { ahead = []; off = 0 }
    else record f { off = f.off + copied }

-- What `read_next_gateway_header` returns: 1 or 2 with what was read, 0 or -1, or no fuel left.
pub data Header : Type 0 where
  media : MediaInfo → Header
  init : InitInfo → Header
  ended lost unfinished : Header

-- What `read_gateway_payload_resync` returns: 1 with the payload, 0, or -1.
pub data Payload : Type 0 where
  got : List ℕ → Payload
  desync lost : Payload

module _ {Port : Type 0} (read : Port → ℕ → Read × Port) where
  unfoldable pub read_exact_prefetched : Prefetch → Port → ℕ → Read × Prefetch × Port
  unfolding advance
  read_exact_prefetched f port len =
      let part = take len (drop f.off f.ahead) in
      if length part == len
      then (Read.got part, advance f (length part), port)
      else let (r, port') = got_more part (read port (len - length part)) in
        (r, advance f (length part), port')

  -- the search from a buffer of 16 bytes on. `skipped` is an `int` that goes round, as its word of 32 bits; `*skipped_bytes` stays
  -- 0 where no header is found.
  unfoldable pub hunt : ℕ → List ℕ → ℕ → Prefetch → Port → Header × ℕ × Prefetch × Port
  hunt zero buf skipped f port = (Header.unfinished, 0, f, port)
  hunt (suc fuel) buf skipped f port = elim (read_media_header (some buf)) [
    | some m ↦ (Header.media m, skipped, f, port)
    | none ↦ elim (read_init (some buf)) [
      | some i ↦ (Header.init i, skipped, f, port)
      | none ↦
          let (r, f', port') = read_exact_prefetched f port 1 in
          elim r [
            | Read.got byte ↦ hunt fuel (drop 1 buf ++ byte) (u32 (skipped + 1)) f' port'
            | Read.closed ↦ (Header.ended, 0, f', port')
            | Read.failed ↦ (Header.lost, 0, f', port')
            | Read.unfinished ↦ (Header.unfinished, 0, f', port')
          ]
    ]
  ]

  unfoldable pub read_next_gateway_header : ℕ → Prefetch → Port → Header × ℕ × Prefetch × Port
  unfolding hunt
  read_next_gateway_header fuel f port =
      let (r, f', port') = read_exact_prefetched f port packet_header_size in
      elim r [
        | Read.got buf ↦ hunt fuel buf 0 f' port'
        | Read.closed ↦ (Header.ended, 0, f', port')
        | Read.failed ↦ (Header.lost, 0, f', port')
        | Read.unfinished ↦ (Header.unfinished, 0, f', port')
      ]

  -- the rest of a payload behind its first bytes
  unfoldable pub payload_rest : List ℕ → Prefetch → Port → ℕ → Payload × Prefetch × Port
  payload_rest prefix f port rest_len =
      if rest_len == 0
      then (Payload.got prefix, f, port)
      else let (r, f', port') = read_exact_prefetched f port rest_len in
        elim r [
          | Read.got rest ↦ (Payload.got (prefix ++ rest), f', port')
          | Read.closed ↦ (Payload.lost, f', port')
          | Read.failed ↦ (Payload.lost, f', port')
          | Read.unfinished ↦ (Payload.lost, f', port')
        ]

  unfoldable pub read_gateway_payload_resync : Prefetch → Port → ℕ → Payload × Prefetch × Port
  unfolding starts_gateway_magic prepend_prefetch payload_rest
  read_gateway_payload_resync f port payload_len =
      let prefix_len = min payload_len packet_header_size in
      let (r, f', port') = read_exact_prefetched f port prefix_len in
      if payload_len == 0 then (Payload.got [], f, port) else elim r [
        | Read.got prefix ↦
            if starts_gateway_magic prefix
            then (Payload.desync, prepend_prefetch f' prefix, port')
            else payload_rest prefix f' port' (payload_len - prefix_len)
        | Read.closed ↦ (Payload.lost, f', port')
        | Read.failed ↦ (Payload.lost, f', port')
        | Read.unfinished ↦ (Payload.lost, f', port')
      ]
