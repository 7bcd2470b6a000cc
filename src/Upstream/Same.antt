-- ===== src/Upstream/Same.antt =====
-- ameba_gateway/example_gateway_ameba.c and gateway/ws_upstream_client.c: the board's frames are those of the gateway
-- program, over lwIP's calls read as the system's.
use carplay_poc.Base.{
  ℕ, zero, suc, ◌-◌, ◌≡◌, not, ◌∙◌, sym, ap, refl, arith, Bool, true, false, Option, none, some,
  List, [], ◌∷◌, length, drop, Option-cases, inl, inr, ◌==◌, if◌then◌else◌,
}
use carplay_poc.Net.{Received, Sent, Read, got_more, write_all}
use carplay_poc.Ws.{
  Client, Frame, on_bytes, buffered, take_prebuffer, read_some, recv_payload, recv_mask, write_ok,
}
use carplay_poc.Upstream.{upstream_read_some, upstream_write_all}
use carplay_poc.Upstream.Frames.{upstream_recv_payload, upstream_recv_mask}

-- `lwip_read` read as `recv`: a negative result is an error, and none is an interruption.
abbrev pub recv_of : {Net : Type 0} → (Net → ℕ → Option (List ℕ) × Net) → Net → ℕ → Received × Net
recv_of lwip_read net len =
    let (rc, net') = lwip_read net len in
    (elim rc as (λ _. Received) [ none ↦ Received.broken | some bs ↦ Received.received bs ], net')

-- `lwip_write` read as `send`: 0 is an error here.
abbrev pub send_of : {Net : Type 0} → (Net → List ℕ → Option ℕ × Net) → Net → List ℕ → Sent × Net
send_of lwip_write net bs =
    let (rc, net') = lwip_write net bs in
    (
      elim rc as (λ _. Sent) [
        | none ↦ Sent.broken
        | some zero ↦ Sent.broken
        | some (suc k) ↦ Sent.sent (suc k)
      ],
      net',
    )

-- The end of the stream and an error come to the same.
abbrev pub lost : Read → Read
lost (Read.got bs) = Read.got bs
lost Read.closed = Read.failed
lost Read.failed = Read.failed
lost Read.unfinished = Read.unfinished

lost-got_more :
    {S : Type 0} (bs : List ℕ) (r : Read × S)
    → (lost (got_more bs r).0, (got_more bs r).1) ≡ got_more bs (lost r.0, r.1)
lost-got_more bs (Read.got rest, s) = refl
lost-got_more bs (Read.closed, s) = refl
lost-got_more bs (Read.failed, s) = refl
lost-got_more bs (Read.unfinished, s) = refl

module _ {Net : Type 0} (lwip_read : Net → ℕ → Option (List ℕ) × Net) where
  abbrev as_lost : Read × Client Net → Read × Client Net
  as_lost r = (lost r.0, r.1)

  -- A read of the board is that of the gateway program, but that the end of the stream is an error.
  pub upstream_read_some-read_some :
      (fuel len : ℕ) (w : Client Net)
      → upstream_read_some lwip_read fuel len w ≡ as_lost (read_some (recv_of lwip_read) fuel len w)
  unfolding upstream_read_some read_some
  upstream_read_some-read_some fuel zero w = refl
  upstream_read_some-read_some zero (suc len) w = refl
  upstream_read_some-read_some (suc fuel) (suc len) w = elim (Option-cases (buffered w)) [
    | inl empty ↦
        let w' = record w { net = (lwip_read w.net (suc len)).1 } in
        elim (Option-cases (lwip_read w.net (suc len)).0) [
          | inl e ↦ ground arith
          | inr ([], e) ↦ ground arith
          | inr (b ∷ bs, e) ↦
              let rest = read_some (recv_of lwip_read) fuel (len - length bs) w' in
              let same = upstream_read_some-read_some fuel (len - length bs) w' in
              let left : upstream_read_some lwip_read (suc fuel) (suc len) w
                  ≡ got_more (b ∷ bs) (upstream_read_some lwip_read fuel (len - length bs) w') =
                ground arith in
              let right : read_some (recv_of lwip_read) (suc fuel) (suc len) w
                  ≡ got_more (b ∷ bs) rest =
                ground arith in
              left
              ∙ ap (got_more (b ∷ bs)) same
              ∙ sym (lost-got_more (b ∷ bs) rest)
              ∙ ap as_lost (sym right)
        ]
    | inr (buf, there) ↦
        let (bs, w') = take_prebuffer (suc len) buf w in
        let rest = read_some (recv_of lwip_read) fuel (suc len - length bs) w' in
        let same = upstream_read_some-read_some fuel (suc len - length bs) w' in
        let left : upstream_read_some lwip_read (suc fuel) (suc len) w
            ≡ got_more bs (upstream_read_some lwip_read fuel (suc len - length bs) w') =
          ground arith in
        let right : read_some (recv_of lwip_read) (suc fuel) (suc len) w ≡ got_more bs rest =
          ground arith in
        left ∙ ap (got_more bs) same ∙ sym (lost-got_more bs rest) ∙ ap as_lost (sym right)
  ]

  on_bytes-lost :
      (r : Read × Client Net) (k : List ℕ → Client Net → Option Frame × Client Net)
      → on_bytes (as_lost r) k ≡ on_bytes r k
  on_bytes-lost (Read.got bs, w) k = refl
  on_bytes-lost (Read.closed, w) k = refl
  on_bytes-lost (Read.failed, w) k = refl
  on_bytes-lost (Read.unfinished, w) k = refl

  on_bytes_read :
      (r : Read × Client Net) (k k' : List ℕ → Client Net → Option Frame × Client Net)
      → ((bs : List ℕ) (w' : Client Net) → r ≡ (Read.got bs, w') → k bs w' ≡ k' bs w')
      → on_bytes r k ≡ on_bytes r k'
  on_bytes_read (Read.got bs, w) k k' h = h bs w refl
  on_bytes_read (Read.closed, w) k k' h = refl
  on_bytes_read (Read.failed, w) k k' h = refl
  on_bytes_read (Read.unfinished, w) k k' h = refl

  -- What follows a read, in the one program and in the other.
  pub on_bytes_same :
      (fuel len : ℕ) (w : Client Net) (k k' : List ℕ → Client Net → Option Frame × Client Net)
      → ((bs : List ℕ) (w' : Client Net)
          → read_some (recv_of lwip_read) fuel len w ≡ (Read.got bs, w')
          → k bs w' ≡ k' bs w')
      → on_bytes (upstream_read_some lwip_read fuel len w) k
        ≡ on_bytes (read_some (recv_of lwip_read) fuel len w) k'
  on_bytes_same fuel len w k k' h =
      ap (λ r. on_bytes r k) (upstream_read_some-read_some fuel len w)
      ∙ on_bytes-lost (read_some (recv_of lwip_read) fuel len w) k
      ∙ on_bytes_read (read_some (recv_of lwip_read) fuel len w) k k' h

  module _ (fuel : ℕ) (allocated : ℕ → Bool) where
    pub upstream_recv_payload-recv_payload :
        (opcode len : ℕ) (mask : Option (List ℕ)) (w : Client Net)
        → upstream_recv_payload lwip_read fuel allocated opcode len mask w
          ≡ recv_payload (recv_of lwip_read) fuel allocated opcode len mask w
    unfolding upstream_recv_payload recv_payload
    upstream_recv_payload-recv_payload opcode len mask w =
        ap
          (λ r.
            if len == 0
            then (some (record { opcode = opcode; payload = [] }), w)
            else if not (allocated len)
            then (none, w)
            else r)
          (on_bytes_same fuel len w _ _ (λ bs w' e. refl))

    pub upstream_recv_mask-recv_mask :
        (has_mask : Bool) (opcode len : ℕ) (w : Client Net)
        → upstream_recv_mask lwip_read fuel allocated has_mask opcode len w
          ≡ recv_mask (recv_of lwip_read) fuel allocated has_mask opcode len w
    unfolding upstream_recv_mask recv_mask
    upstream_recv_mask-recv_mask false opcode len w =
        upstream_recv_payload-recv_payload opcode len none w
    upstream_recv_mask-recv_mask true opcode len w =
        on_bytes_same fuel 4 w _ _
          (λ mask w' e. upstream_recv_payload-recv_payload opcode len (some mask) w')

module _ {Net : Type 0} (lwip_write : Net → List ℕ → Option ℕ × Net) where
  pub upstream_write_all-write_ok :
      (fuel : ℕ) (bs : List ℕ) (net : Net)
      → upstream_write_all lwip_write fuel bs net ≡ write_ok (send_of lwip_write) fuel bs net
  unfolding upstream_write_all write_ok write_all
  upstream_write_all-write_ok fuel [] net = refl
  upstream_write_all-write_ok zero (b ∷ bs) net = refl
  upstream_write_all-write_ok (suc fuel) (b ∷ bs) net =
      let net' = (lwip_write net (b ∷ bs)).1 in
      elim (Option-cases (lwip_write net (b ∷ bs)).0) [
        | inl e ↦ ground arith
        | inr (zero, e) ↦ ground arith
        | inr (suc k, e) ↦ ground (arith, upstream_write_all-write_ok fuel (drop k bs) net')
      ]
