-- ===== src/Usb/Events/Sound.antt =====
-- ameba_gateway/example_gateway_ameba.c: the invariant of the stream over all orders of events.
use carplay_poc.Base.{
  true, ℕ, refl, arith, Bool, not, ◌||◌, List, [], ◌∷◌, Status, ok, failed, if_both,
}
use Prim.Native.Nat.{zero-le}
use carplay_poc.Config.{ConfigState}
use carplay_poc.Usb.State.{Usb}
use carplay_poc.Usb.Stream.{retry_init_if_needed}
use carplay_poc.Usb.Stream.Sound.{IsSound, idle-IsSound, reset_stream_session-IsSound}
use carplay_poc.Usb.Stream.Complete.{in_complete-IsSound}
use carplay_poc.Usb.Host.Sound.{start_stream-IsSound, same-IsSound, out_complete-IsSound}
use carplay_poc.Usb.Host.{start_stream}
use carplay_poc.Usb.Device.{usb_start, function_bind, config_bind}
use carplay_poc.Usb.Device.Sound.{
  function_disable-IsSound, disconnect-IsSound, suspend-IsSound, function_set_alt-IsSound,
  try_force_configure-IsSound,
}
use carplay_poc.Usb.Relay.Sound.{relay_media-IsSound}
use carplay_poc.Usb.Events.{Event, watchdog_reset, step, run, boot}

pub retry_init_if_needed-IsSound :
    (rc : ℕ) (s : Usb) → IsSound s → IsSound (retry_init_if_needed rc s)
unfolding retry_init_if_needed start_stream
retry_init_if_needed-IsSound rc s v =
    if_both IsSound (not s.started || not s.usb_configured) s _ v
      (if_both IsSound (not s.host_ready) s _ v (start_stream-IsSound rc s v))

pub watchdog_reset-IsSound :
    (rc : ℕ) (can_flush : Bool) (s : Usb) → IsSound s → IsSound (watchdog_reset rc can_flush s)
unfolding watchdog_reset
watchdog_reset-IsSound rc can_flush s v =
    if_both IsSound s.in_busy _ s
      (reset_stream_session-IsSound rc can_flush _ (same-IsSound s _ v refl refl refl refl)) v

config_bind-IsSound : (s : Usb) → IsSound s → IsSound (config_bind s)
unfolding config_bind
config_bind-IsSound s v = idle-IsSound (config_bind s) v.ring_valid zero-le refl

function_bind-IsSound : (i a b : Bool) (s : Usb) → IsSound s → IsSound (function_bind i a b s).1
unfolding function_bind
function_bind-IsSound i a b s v =
    let s' = record s { in_ep = a; out_ep = b } in
    let v' : IsSound s' = same-IsSound s s' v refl refl refl refl in
    let P = λ (r : Status × Usb). IsSound r.1 in
    if_both P (not i) (failed, s) _ v (if_both P (not a || not b) (failed, s') (ok, s') v' v')

usb_start-IsSound : (i p : Bool) (s : Usb) → IsSound s → IsSound (usb_start i p s).1
unfolding usb_start
usb_start-IsSound i p s v =
    let s' = record s { started = true } in
    let P = λ (r : Status × Usb). IsSound r.1 in
    if_both P s.started (ok, s) _ v
      (if_both P (not i) (failed, s) _ v
        (if_both P (not p) (failed, s) (ok, s') v (same-IsSound s s' v refl refl refl refl)))

pub boot-IsSound : IsSound boot
boot-IsSound =
    idle-IsSound boot (record { count_fits = zero-le; tail_in = omega arith; head_at = refl })
      zero-le refl

module _ (inet_aton : List ℕ → Bool) (xor : List ℕ → List ℕ → ℕ → List ℕ → List ℕ) where
  pub step-IsSound :
      (e : Event) (s : Usb) (c : ConfigState) → IsSound s → IsSound (step inet_aton xor e (s, c)).0
  unfolding step
  step-IsSound (Event.in_completed q d f req) s c v = in_complete-IsSound q d f req s v
  step-IsSound (Event.out_completed a r raw) s c v = out_complete-IsSound inet_aton a r raw s c v
  step-IsSound (Event.usb_started i p) s c v = usb_start-IsSound i p s v
  step-IsSound Event.config_bound s c v = config_bind-IsSound s v
  step-IsSound (Event.function_bound i a b) s c v = function_bind-IsSound i a b s v
  step-IsSound (Event.alt_set a) s c v = function_set_alt-IsSound a s v
  step-IsSound Event.disabled s c v = function_disable-IsSound s v
  step-IsSound Event.disconnected s c v = disconnect-IsSound s v
  step-IsSound Event.suspended s c v = suspend-IsSound s v
  step-IsSound (Event.force_configured speed a) s c v = try_force_configure-IsSound speed a s v
  step-IsSound (Event.init_retried rc) s c v = retry_init_if_needed-IsSound rc s v
  step-IsSound (Event.stalled rc f) s c v = watchdog_reset-IsSound rc f s v
  step-IsSound (Event.media_arrived ok' k i q p) s c v = relay_media-IsSound xor ok' k i q p s v

  pub run_from-IsSound :
      (es : List Event) (s : Usb) (c : ConfigState)
      → IsSound s
      → IsSound (run inet_aton xor es (s, c)).0
  unfolding run
  run_from-IsSound [] s c v = v
  run_from-IsSound (e ∷ es) s c v =
      let (s', c') = step inet_aton xor e (s, c) in run_from-IsSound es s' c' (step-IsSound e s c v)

  -- Whatever happens after the start, in whatever order, the ring stays a valid queue of at most
  -- 131072 bytes, and while the IN endpoint is busy, what it was given of the stream is the front of
  -- that queue.
  pub run-IsSound : (es : List Event) (c : ConfigState) → IsSound (run inet_aton xor es (boot, c)).0
  run-IsSound es c = run_from-IsSound es boot c boot-IsSound
