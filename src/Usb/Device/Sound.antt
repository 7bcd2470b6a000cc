-- ===== src/Usb/Device/Sound.antt =====
-- ameba_gateway/example_gateway_ameba.c: setting the device up and taking it down.
use carplay_poc.Base.{
  ok, failed, ◌||◌, ◌==◌, inl, inr, ◌⊎◌, if◌then◌else◌, not, ◌≢◌, ℕ, ◌≡◌, refl, true, false, Option,
  none, some, arith, if_both, [],
}
use carplay_poc.Usb.Ring.{tx_reset}
use carplay_poc.Usb.Ring.Refine.{contents, tx_reset_refines}
use carplay_poc.Usb.State.{Usb}
use carplay_poc.Usb.Device.{
  Setup, Speed, queue_out_request, minus_one, function_disable, configure, function_set_alt,
  try_force_configure, disconnect, suspend,
}
use carplay_poc.Usb.Stream.Sound.{IsSound, idle-IsSound}

reset-IsSound :
    (s s' : Usb)
    → IsSound s
    → s'.tx ≡ tx_reset s.tx
    → s'.in_busy ≡ false
    → s'.in_flight_len ≡ s.in_flight_len
    → IsSound s'
reset-IsSound s s' v e idle same =
    idle-IsSound s' (rw e ((tx_reset_refines s.tx).1)) (rw same v.flight_small) idle

pub function_disable-IsSound : (s : Usb) → IsSound s → IsSound (function_disable s)
unfolding function_disable
function_disable-IsSound s v = reset-IsSound s _ v refl refl refl

pub disconnect-IsSound : (s : Usb) → IsSound s → IsSound (disconnect s)
unfolding disconnect
disconnect-IsSound s v = reset-IsSound s _ v refl refl refl

pub suspend-IsSound : (s : Usb) → IsSound s → IsSound (suspend s)
unfolding suspend
suspend-IsSound s v = reset-IsSound s _ v refl refl refl

configure-IsSound : (a : Setup) (s : Usb) → IsSound s → IsSound (configure a s).1
unfolding configure
configure-IsSound a s v =
    let s' = record s { in_req = s.in_req || a.alloc_in; out_req = s.out_req || a.alloc_out } in
    let v' : IsSound s' = record {
      ring_valid = v.ring_valid;
      flight_small = v.flight_small;
      flight_fits = v.flight_fits;
      flight_front = v.flight_front;
    } in
    let ready = record s' {
      configured = true;
      in_busy = false;
      host_ready = false;
      usb_configured = true;
      tx = tx_reset s.tx;
    } in
    let rc = elim (queue_out_request a.queue_out_rc ready) as (λ _. ℕ) [
      | ok ↦ 0
      | failed ↦ minus_one
    ] in
    if_both (λ (r : ℕ × Usb). IsSound r.1) (not s'.in_req || not s'.out_req)
      (minus_one, function_disable s') (rc, ready) (function_disable-IsSound s' v')
      (reset-IsSound s ready v refl refl refl)

pub function_set_alt-IsSound : (a : Setup) (s : Usb) → IsSound s → IsSound (function_set_alt a s).1
unfolding function_set_alt
function_set_alt-IsSound a s v =
    let s' = if s.configured then function_disable s else s in
    let v' : IsSound s' =
      if_both IsSound s.configured (function_disable s) s (function_disable-IsSound s v) v in
    let P = λ (r : ℕ × Usb). IsSound r.1 in
    if_both P (not (a.enable_in_rc == 0)) (a.enable_in_rc, s')
      (if not (a.enable_out_rc == 0) then (a.enable_out_rc, s') else configure a s') v'
      (if_both P (not (a.enable_out_rc == 0)) (a.enable_out_rc, s') (configure a s') v'
        (configure-IsSound a s' v'))

pub try_force_configure-IsSound :
    (speed : Option Speed) (a : Setup) (s : Usb)
    → IsSound s
    → IsSound (try_force_configure speed a s)
unfolding try_force_configure
try_force_configure-IsSound none a s v = if_both IsSound _ s s v v
try_force_configure-IsSound (some Speed.other) a s v =
    if_both IsSound (not s.started || s.configured) s s v v
try_force_configure-IsSound (some Speed.full) a s v =
    if_both IsSound (not s.started || s.configured) _ _ v (function_set_alt-IsSound a s v)
try_force_configure-IsSound (some Speed.high) a s v =
    if_both IsSound (not s.started || s.configured) _ _ v (function_set_alt-IsSound a s v)

-- Choosing the alternate setting successfully leaves the device configured and idle, with both
-- requests, an empty queue, no init packet sent and the host not heard yet.
pub function_set_alt-ok :
    (a : Setup) (s : Usb)
    → (function_set_alt a s).0 ≡ 0
    → let s' = (function_set_alt a s).1 in
      (s'.configured ≡ true)
      × (s'.usb_configured ≡ true)
      × (s'.in_busy ≡ false)
      × (s'.in_req ≡ true)
      × (s'.out_req ≡ true)
      × (s'.host_ready ≡ false)
      × (s'.tx.proto_init_sent ≡ false)
      × (contents s'.tx ≡ [])
unfolding function_set_alt configure function_disable tx_reset
function_set_alt-ok a s e = ground (arith, tx_reset_refines s.tx)

set_alt_failed_cases :
    (a : Setup) (s : Usb)
    → (function_set_alt a s).0 ≢ 0
    → let s' = (function_set_alt a s).1 in
      (s'.configured ≡ false)
      ⊎ ((a.enable_in_rc ≡ 0)
          × (a.enable_out_rc ≡ 0)
          × (s'.configured ≡ true)
          × ((s'.out_ep ≡ false) ⊎ (a.queue_out_rc ≢ 0)))
unfolding function_set_alt configure function_disable
set_alt_failed_cases a s h = ground arith

force_configured :
    (s : Usb) (speed : Option Speed) (again : Setup)
    → s.configured ≡ true
    → try_force_configure speed again s ≡ s
unfolding try_force_configure
force_configured s speed again c = ground arith

-- Choosing it unsuccessfully leaves the device not configured, except where only the queueing of the
-- OUT request failed: then it stays configured, and later attempts to configure it do nothing.
pub function_set_alt_failed :
    (a : Setup) (s : Usb)
    → (function_set_alt a s).0 ≢ 0
    → let s' = (function_set_alt a s).1 in
      (s'.configured ≡ false)
      ⊎ ((a.enable_in_rc ≡ 0)
          × (a.enable_out_rc ≡ 0)
          × (s'.configured ≡ true)
          × ((s'.out_ep ≡ false) ⊎ (a.queue_out_rc ≢ 0))
          × ((speed : Option Speed) (again : Setup) → try_force_configure speed again s' ≡ s'))
function_set_alt_failed a s h = elim (set_alt_failed_cases a s h) [
  | inl off ↦ inl off
  | inr (p, q, c, r) ↦
      inr (p, q, c, r, λ speed again. force_configured (function_set_alt a s).1 speed again c)
]
