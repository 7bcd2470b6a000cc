-- ===== src/Usb/Device.antt =====
-- ameba_gateway/example_gateway_ameba.c: the callbacks by which the USB stack sets the device up and
-- takes it down. Each takes the answers of the stack's calls that it makes.
pub mod Sound
use carplay_poc.Base.{
  ℕ, ◌^◌, ◌-◌, Bool, true, false, not, ◌&&◌, ◌||◌, Option, none, some, ◌==◌, if◌then◌else◌, Status,
  ok, failed, replicate, List,
}
use carplay_poc.Usb.Ring.{tx_reset}
use carplay_poc.Usb.State.{Usb, in_chunk_size}

abbrev pub minus_one : ℕ
minus_one = 2 ^ 32 - 1

-- `enum usb_device_speed`: only these two are asked about
pub data Speed : Type 0 where
  full high other : Speed

-- What `usb_ep_enable`, `usb_ep_alloc_request` and `usb_ep_queue` answer to `set_alt`.
pub record Setup : Type 0 where
  pub enable_in_rc : ℕ
  pub enable_out_rc : ℕ
  pub alloc_in : Bool
  pub alloc_out : Bool
  pub queue_out_rc : ℕ

-- `gateway_usb_queue_out_request`
unfoldable pub queue_out_request : ℕ → Usb → Status
queue_out_request queue_rc s =
    if not s.out_ep || not s.out_req || not s.configured
    then failed
    else if not (queue_rc == 0)
    then failed
    else ok

-- `gateway_usb_function_disable`
unfoldable pub function_disable : Usb → Usb
function_disable s = record s {
  usb_configured = false;
  configured = false;
  in_busy = false;
  tx = tx_reset s.tx;
}

-- `gateway_usb_function_set_alt` once the endpoints are enabled
unfoldable pub configure : Setup → Usb → ℕ × Usb
unfolding queue_out_request
configure a s =
    let s' = record s { in_req = s.in_req || a.alloc_in; out_req = s.out_req || a.alloc_out } in
    if not s'.in_req || not s'.out_req
    then (minus_one, function_disable s')
    else let ready = record s' {
      configured = true;
      in_busy = false;
      host_ready = false;
      usb_configured = true;
      tx = tx_reset s.tx;
    } in
      (elim (queue_out_request a.queue_out_rc ready) [ ok ↦ 0 | failed ↦ minus_one ], ready)

-- `gateway_usb_function_set_alt`: its result and the state
unfoldable pub function_set_alt : Setup → Usb → ℕ × Usb
function_set_alt a s =
    let s' = if s.configured then function_disable s else s in
    if not (a.enable_in_rc == 0)
    then (a.enable_in_rc, s')
    else if not (a.enable_out_rc == 0)
    then (a.enable_out_rc, s')
    else configure a s'

-- `gateway_usb_try_force_configure`: the speed is `none` where the function is not bound to a gadget
unfoldable pub try_force_configure : Option Speed → Setup → Usb → Usb
try_force_configure speed a s = if not s.started || s.configured then s else elim speed [
  | none ↦ s
  | some other ↦ s
  | some full ↦ (function_set_alt a s).1
  | some high ↦ (function_set_alt a s).1
]

-- `gateway_usb_function_bind`: the interface id (negative for an error), and which endpoints were
-- found
unfoldable pub function_bind : Bool → Bool → Bool → Usb → Status × Usb
function_bind has_interface found_in found_out s =
    if not has_interface
    then (failed, s)
    else let s' = record s { in_ep = found_in; out_ep = found_out } in
      if not found_in || not found_out then (failed, s') else (ok, s')

-- `gateway_usb_config_bind`: the context cleared, before `usb_add_function` calls `function_bind`
unfoldable pub config_bind : Usb → Usb
config_bind s = record s {
  in_ep = false;
  out_ep = false;
  in_req = false;
  out_req = false;
  in_req_length = 0;
  configured = false;
  in_busy = false;
  in_flight_len = 0;
}

-- `gateway_usb_disconnect`
unfoldable pub disconnect : Usb → Usb
disconnect s = record s {
  usb_configured = false;
  configured = false;
  in_busy = false;
  tx = tx_reset s.tx;
}

-- `gateway_usb_suspend`
unfoldable pub suspend : Usb → Usb
suspend s = record s {
  usb_configured = false;
  configured = false;
  in_busy = false;
  tx = tx_reset s.tx;
}

-- `gateway_usb_start`: whether the controller got ready, and whether the driver was taken. The variables
-- that only record the attempt are left out.
unfoldable pub usb_start : Bool → Bool → Usb → Status × Usb
usb_start is_ready is_probed s =
    if s.started
    then (ok, s)
    else if not is_ready
    then (failed, s)
    else if not is_probed
    then (failed, s)
    else (ok, record s { started = true })
