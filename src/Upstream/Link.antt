-- ===== src/Upstream/Link.antt =====
-- ameba_gateway/example_gateway_ameba.c: the state of the board's connection to the server, over attempts to connect
-- and polls, whatever lwIP answers.
use carplay_poc.Upstream.Connect.{
  Lwip, Uplink, Response, opened, gave_up, hang_up, start_audio_command, await_response,
  start_streams, upstream_response_size, start_stream_command, upstream_request_size, give_up,
  finish_connect, open_stream, upstream_connect, begin_attempt, established, settle, on_response,
  on_request,
}
use carplay_poc.Upstream.{upstream_close, upstream_write_all}
use carplay_poc.Base.{
  ◌-◌, suc, ◌+◌, inl, ◌∷◌, arith, [], ◌≡◌, inr, false, Bool, ◌++◌, ℕ, List, refl, Status, none,
  failed, zero, if◌then◌else◌, Bool-cases, Option-cases, length, ok, ◌∙◌, true, leb, if_both, ◌&&◌,
  not, ◌==◌,
}
use carplay_poc.Ws.{masked}
use carplay_poc.Upstream.Sockets.{CountsSockets, upstream_write_all_keeps}
use carplay_poc.Upstream.Frames.{
  fixed_mask, upstream_header, upstream_send_masked_frame, upstream_send_text,
}
use carplay_poc.Config.{UpstreamConfig}
use carplay_poc.Handshake.{upgrade_request}

module _ {Net : Type 0} (lwip : Lwip Net) (c : CountsSockets lwip) (base : ℕ) where
  -- One socket is open where the state has a connection and none where it has not; the two flags agree; and without a
  -- connection there are neither bytes of an old one nor a nonce.
  abbrev pub IsLinked : Uplink Net → Type 0
  IsLinked u =
      (c.sockets u.conn.stream.net ≡ base + (if u.conn.is_open then 1 else 0))
      × (u.conn.connected ≡ u.conn.is_open)
      × (u.stats.connected ≡ u.conn.is_open)
      × (if u.conn.is_open
          then Unit {0}
          else (u.conn.stream.prebuffer ≡ none) × (u.conn.have_nonce ≡ false))

  pub hang_up-IsLinked :
      (u : Uplink Net)
      → c.sockets u.conn.stream.net ≡ base + (if u.conn.is_open then 1 else 0)
      → IsLinked (hang_up lwip.lwip_close u)
  unfolding hang_up upstream_close
  hang_up-IsLinked u h = elim (Bool-cases u.conn.is_open) [
    | inl e ↦ ground (arith, c.close_closes u.conn.stream.net)
    | inr e ↦ ground arith
  ]

  -- What an attempt comes to: success exactly with a connection.
  abbrev pub Attempted : Status × Uplink Net → Type 0
  Attempted r =
      IsLinked r.1 × (r.1.conn.is_open ≡ elim r.0 as (λ _. Bool) [ ok ↦ true | failed ↦ false ])

  -- No connection, as an attempt begins; the network is that of the attempt.
  abbrev IsClosed : Uplink Net → Type 0
  IsClosed u =
      (u.conn.is_open ≡ false)
      × (u.conn.connected ≡ false)
      × (u.stats.connected ≡ false)
      × (u.conn.stream.prebuffer ≡ none)
      × (u.conn.have_nonce ≡ false)

  give_up_lem :
      (n : ℕ) (net : Net) (u : Uplink Net)
      → IsClosed u
      → c.sockets net ≡ base
      → Attempted (give_up n net u)
  give_up_lem n net u v h = ground arith

  module _ (fuel : ℕ) (allocated : ℕ → Bool) (undefined : List ℕ) where
    send_masked_frame_keeps :
        (opcode : ℕ) (payload : List ℕ) (net : Net)
        → c.sockets
            (upstream_send_masked_frame lwip.lwip_write fuel allocated undefined opcode payload
              net).1
          ≡ c.sockets net
    unfolding upstream_send_masked_frame
    send_masked_frame_keeps opcode payload net =
        let header = upstream_header undefined opcode (length payload) in
        let net' = (upstream_write_all lwip.lwip_write fuel header net).1 in
        ground (
          arith,
          upstream_write_all_keeps lwip c fuel header net,
          upstream_write_all_keeps lwip c fuel (masked fixed_mask 0 payload) net',
        )

    start_streams_keeps :
        (net : Net) → c.sockets (start_streams lwip fuel allocated undefined net).1 ≡ c.sockets net
    unfolding start_streams upstream_send_text
    start_streams_keeps net =
        let net' =
          (upstream_send_masked_frame lwip.lwip_write fuel allocated undefined 1
            start_stream_command net).1 in
        ground (
          arith,
          send_masked_frame_keeps 1 start_stream_command net,
          send_masked_frame_keeps 1 start_audio_command net',
        )

    await_response_keeps :
        (turns : ℕ) (response : List ℕ) (net : Net)
        → c.sockets (await_response lwip fuel allocated undefined turns response net).1
          ≡ c.sockets net
    unfolding await_response
    await_response_keeps zero response net = refl
    await_response_keeps (suc turns) response net =
        let len = upstream_response_size - length response - 1 in
        let net' = (lwip.lwip_read net len).1 in
        let keeps = c.read_keeps net len in
        elim (Option-cases (lwip.lwip_read net len).0) [
          | inl e ↦ ground arith
          | inr ([], e) ↦ ground arith
          | inr (b ∷ bs, e) ↦ ground (arith, await_response_keeps turns (response ++ b ∷ bs) net')
        ]

    settle_lem :
        (rc : Status) (extra : List ℕ) (net : Net) (u : Uplink Net)
        → IsClosed u
        → c.sockets net ≡ base + 1
        → Attempted (
            settle lwip fuel allocated undefined rc
              (established lwip fuel allocated undefined extra net u))
    unfolding settle established
    settle_lem ok extra net u v h = ground arith
    settle_lem failed extra net u v h =
        let u' = established lwip fuel allocated undefined extra net u in
        let (held, linked, shown, rest) = hang_up-IsLinked u' (ground arith) in
        unfold hang_up upstream_close in ((held, linked, shown, rest), refl)

    finish_connect_lem :
        (extra : List ℕ) (net : Net) (u : Uplink Net)
        → IsClosed u
        → c.sockets net ≡ base + 1
        → Attempted (finish_connect lwip fuel allocated undefined extra net u)
    unfolding finish_connect
    finish_connect_lem extra net u v h =
        let (rc, net') = start_streams lwip fuel allocated undefined net in
        if_both Attempted (not (length extra == 0) && not (allocated (length extra))) _ _
          (give_up_lem 8 (lwip.lwip_close net) u v (omega (arith, c.close_closes net)))
          (settle_lem rc extra net' u v (start_streams_keeps net ∙ h))

    on_response_lem :
        (r : Response × Net) (u : Uplink Net)
        → IsClosed u
        → c.sockets r.1 ≡ base + 1
        → Attempted (on_response lwip fuel allocated undefined r u)
    unfolding on_response
    on_response_lem (gave_up n, net) u v h =
        give_up_lem n (lwip.lwip_close net) u v (omega (arith, c.close_closes net))
    on_response_lem (opened extra, net) u v h = finish_connect_lem extra net u v h

    on_request_lem :
        (r : Status × Net) (u : Uplink Net)
        → IsClosed u
        → c.sockets r.1 ≡ base + 1
        → Attempted (on_request lwip fuel allocated undefined r u)
    unfolding on_request
    on_request_lem (failed, net) u v h =
        give_up_lem 5 (lwip.lwip_close net) u v (omega (arith, c.close_closes net))
    on_request_lem (ok, net) u v h =
        let r = await_response lwip fuel allocated undefined upstream_response_size [] net in
        on_response_lem r u v (await_response_keeps upstream_response_size [] net ∙ h)

    open_stream_lem :
        (config : UpstreamConfig) (net : Net) (u : Uplink Net)
        → IsClosed u
        → c.sockets net ≡ base + 1
        → Attempted (open_stream lwip fuel allocated undefined config net u)
    unfolding open_stream
    open_stream_lem config net u v h =
        let request = upgrade_request config.path config.host config.port in
        if_both Attempted (leb upstream_request_size (length request)) _ _
          (give_up_lem 4 (lwip.lwip_close net) u v (omega (arith, c.close_closes net)))
          (on_request_lem (upstream_write_all lwip.lwip_write fuel request net) u v
            (upstream_write_all_keeps lwip c fuel request net ∙ h))

    -- Whatever lwIP answers, an attempt to connect ends in success, with the connection there and one socket open, or it fails, and then no
    -- socket is open that was not, and nothing is left of the attempt.
    pub upstream_connect-IsLinked :
        (tick : ℕ) (snapshot : Bool × UpstreamConfig) (u : Uplink Net)
        → u.conn.is_open ≡ false
        → IsLinked u
        → Attempted (upstream_connect lwip fuel allocated undefined tick snapshot u)
    unfolding upstream_connect
    upstream_connect-IsLinked tick (valid, config) u e v =
        let net = u.conn.stream.net in
        let u₀ = begin_attempt tick u in
        let (has_socket, net₁) = lwip.lwip_socket net in
        let (is_up, net₂) = lwip.lwip_connect config.host config.port net₁ in
        let opens = c.socket_opens net in
        let keeps = c.connect_keeps config.host config.port net₁ in
        let closed : IsClosed u₀ = ground arith in
        let idle : c.sockets net ≡ base = ground arith in
        if_both Attempted (not valid) _ _ (ground arith) (elim (Bool-cases has_socket) [
          | inr none' ↦ rw none' (give_up_lem 1 net₁ u₀ closed (ground arith))
          | inl some' ↦
              let one : c.sockets net₁ ≡ base + 1 = ground arith in
              rw some' (
                if_both Attempted (not (lwip.inet_addr config.host)) _ _
                  (give_up_lem 2 (lwip.lwip_close net₁) u₀ closed
                    (omega (arith, c.close_closes net₁)))
                  (if_both Attempted (not is_up) _ _
                    (give_up_lem 3 (lwip.lwip_close net₂) u₀ closed
                      (omega (arith, c.close_closes net₂)))
                    (open_stream_lem config net₂ u₀ closed (keeps ∙ one))))
        ])
