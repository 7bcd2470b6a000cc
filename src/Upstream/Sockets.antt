-- ===== src/Upstream/Sockets.antt =====
-- ameba_gateway/example_gateway_ameba.c: the sockets of the board's connection to the server.
use carplay_poc.Upstream.Connect.{Lwip}
use carplay_poc.Upstream.{upstream_write_all, upstream_read_some}
use carplay_poc.Ws.{Client, Frame, buffered, take_prebuffer, on_bytes}
use carplay_poc.Base.{
  Option, none, ap, ◌∙◌, inr, some, suc, Bool, ◌-◌, not, true, ◌≡◌, arith, refl, ℕ, ◌+◌, ◌∷◌, zero,
  List, inl, [], false, ◌==◌, if◌then◌else◌, Option-cases, if_both, length, drop,
}
use carplay_poc.Net.{Read, got_more}
use carplay_poc.Ws.Lengths.{has_mask}
use carplay_poc.Upstream.Frames.{
  upstream_recv_payload, upstream_recv_mask, upstream_recv_len, upstream_recv_frame,
}

-- What is asked of lwIP: `lwip_socket` opens a socket where it succeeds, `lwip_close` closes one, and the other calls
-- neither open nor close any.
pub record CountsSockets {Net : Type 0} (lwip : Lwip Net) : Type 0 where
  pub sockets : Net → ℕ
  pub socket_opens :
      (net : Net)
      → let (rc, net') = lwip.lwip_socket net in
        sockets net' ≡ (if rc then sockets net + 1 else sockets net)
  pub close_closes : (net : Net) → sockets (lwip.lwip_close net) ≡ sockets net - 1
  pub connect_keeps :
      (host : List ℕ) (port : ℕ) (net : Net)
      → sockets (lwip.lwip_connect host port net).1 ≡ sockets net
  pub read_keeps : (net : Net) (len : ℕ) → sockets (lwip.lwip_read net len).1 ≡ sockets net
  pub write_keeps : (net : Net) (bs : List ℕ) → sockets (lwip.lwip_write net bs).1 ≡ sockets net

module _ {Net : Type 0} (lwip : Lwip Net) (c : CountsSockets lwip) where
  pub upstream_write_all_keeps :
      (fuel : ℕ) (bs : List ℕ) (net : Net)
      → c.sockets (upstream_write_all lwip.lwip_write fuel bs net).1 ≡ c.sockets net
  unfolding upstream_write_all
  upstream_write_all_keeps fuel [] net = refl
  upstream_write_all_keeps zero (b ∷ bs) net = refl
  upstream_write_all_keeps (suc fuel) (b ∷ bs) net =
      let net' = (lwip.lwip_write net (b ∷ bs)).1 in
      let keeps = c.write_keeps net (b ∷ bs) in
      elim (Option-cases (lwip.lwip_write net (b ∷ bs)).0) [
        | inl e ↦ ground arith
        | inr (zero, e) ↦ ground arith
        | inr (suc k, e) ↦ ground (arith, upstream_write_all_keeps fuel (drop k bs) net')
      ]

  got_more-net : (bs : List ℕ) (r : Read × Client Net) → (got_more bs r).1 ≡ r.1
  got_more-net bs (Read.got rest, w) = refl
  got_more-net bs (Read.closed, w) = refl
  got_more-net bs (Read.failed, w) = refl
  got_more-net bs (Read.unfinished, w) = refl

  -- A read by the client leaves the sockets alone.
  upstream_read_some_keeps :
      (fuel len : ℕ) (w : Client Net)
      → c.sockets (upstream_read_some lwip.lwip_read fuel len w).1.net ≡ c.sockets w.net
  unfolding upstream_read_some take_prebuffer
  upstream_read_some_keeps fuel zero w = refl
  upstream_read_some_keeps zero (suc len) w = refl
  upstream_read_some_keeps (suc fuel) (suc len) w = elim (Option-cases (buffered w)) [
    | inl empty ↦
        let w' = record w { net = (lwip.lwip_read w.net (suc len)).1 } in
        let keeps = c.read_keeps w.net (suc len) in
        elim (Option-cases (lwip.lwip_read w.net (suc len)).0) [
          | inl e ↦ ground arith
          | inr ([], e) ↦ ground arith
          | inr (b ∷ bs, e) ↦
              let rest = upstream_read_some lwip.lwip_read fuel (len - length bs) w' in
              ground (
                arith,
                got_more-net (b ∷ bs) rest,
                upstream_read_some_keeps fuel (len - length bs) w',
              )
        ]
    | inr (buf, there) ↦
        let (bs, w') = take_prebuffer (suc len) buf w in
        let rest = upstream_read_some lwip.lwip_read fuel (suc len - length bs) w' in
        let same : w'.net ≡ w.net = ground arith in
        let step : upstream_read_some lwip.lwip_read (suc fuel) (suc len) w ≡ got_more bs rest =
          ground arith in
        ap (λ (r : Read × Client Net). c.sockets r.1.net) step
        ∙ ap (λ (x : Client Net). c.sockets x.net) (got_more-net bs rest)
        ∙ upstream_read_some_keeps fuel (suc len - length bs) w'
        ∙ ap c.sockets same
  ]

  abbrev Keeps : Client Net → Option Frame × Client Net → Type 0
  Keeps w r = c.sockets r.1.net ≡ c.sockets w.net

  on_bytes-Keeps :
      (w : Client Net) (r : Read × Client Net) (k : List ℕ → Client Net → Option Frame × Client Net)
      → c.sockets r.1.net ≡ c.sockets w.net
      → ((bs : List ℕ) (w' : Client Net) → Keeps w' (k bs w'))
      → Keeps w (on_bytes r k)
  on_bytes-Keeps w (Read.got bs, w') k e h = h bs w' ∙ e
  on_bytes-Keeps w (Read.closed, w') k e h = e
  on_bytes-Keeps w (Read.failed, w') k e h = e
  on_bytes-Keeps w (Read.unfinished, w') k e h = e

  module _ (fuel : ℕ) (allocated : ℕ → Bool) where
    read_then :
        (len : ℕ) (w : Client Net) (k : List ℕ → Client Net → Option Frame × Client Net)
        → ((bs : List ℕ) (w' : Client Net) → Keeps w' (k bs w'))
        → Keeps w (on_bytes (upstream_read_some lwip.lwip_read fuel len w) k)
    read_then len w k h =
        on_bytes-Keeps w (upstream_read_some lwip.lwip_read fuel len w) k
          (upstream_read_some_keeps fuel len w) h

    payload-Keeps :
        (opcode len : ℕ) (mask : Option (List ℕ)) (w : Client Net)
        → Keeps w (upstream_recv_payload lwip.lwip_read fuel allocated opcode len mask w)
    unfolding upstream_recv_payload
    payload-Keeps opcode len mask w =
        if_both (Keeps w) (len == 0) _ _ refl
          (if_both (Keeps w) (not (allocated len)) _ _ refl (read_then len w _ (λ bs w'. refl)))

    mask-Keeps :
        (has_mask : Bool) (opcode len : ℕ) (w : Client Net)
        → Keeps w (upstream_recv_mask lwip.lwip_read fuel allocated has_mask opcode len w)
    unfolding upstream_recv_mask
    mask-Keeps false opcode len w = payload-Keeps opcode len none w
    mask-Keeps true opcode len w =
        read_then 4 w _ (λ mask w'. payload-Keeps opcode len (some mask) w')

    len-Keeps :
        (has_mask : Bool) (opcode len : ℕ) (w : Client Net)
        → Keeps w (upstream_recv_len lwip.lwip_read fuel allocated has_mask opcode len w)
    unfolding upstream_recv_len
    len-Keeps has_mask opcode len w =
        if_both (Keeps w) (len == 126) _ _
          (read_then 2 w _ (λ ext w'. mask-Keeps has_mask opcode _ w'))
          (if_both (Keeps w) (len == 127) _ _
            (read_then 8 w _ (λ ext w'. mask-Keeps has_mask opcode _ w'))
            (mask-Keeps has_mask opcode len w))

    pub upstream_recv_frame-Keeps :
        (w : Client Net) → Keeps w (upstream_recv_frame lwip.lwip_read fuel allocated w)
    unfolding upstream_recv_frame
    upstream_recv_frame-Keeps w = read_then 2 w _ (λ header w'. len-Keeps _ _ _ w')
