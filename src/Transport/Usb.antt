-- ===== src/Transport/Usb.antt =====
-- gateway_client/transport_libusb.c: the device found and opened. What libusb answers stands in the arguments:
-- each turn of the wait sees a list of devices, and the turns end when a stop is requested.
use carplay_poc.Base.{
  failed, false, not, ℕ, ok, some, ◌-◌, none, ◌∷◌, Status, [], true, ◌+◌, List, Bool, Option,
  bit_and, ◌&&◌, ◌==◌, if◌then◌else◌,
}
use carplay_poc.Transport.{usb, tcp, Options, Transport, Held, prepared}

pub record Endpoint : Type 0 where
  pub attributes : ℕ
  pub address : ℕ

-- an alternate setting of an interface
pub record Setting : Type 0 where
  pub interface_number : ℕ
  pub endpoints : List Endpoint

-- the interfaces of a configuration, each with its alternate settings
abbrev pub Config : Type 0
Config = List (List Setting)

-- What libusb says about a device, and what it answers where the device is opened.
pub record Device : Type 0 where
  pub descriptor : Option (ℕ × ℕ)
  pub handle : Option ℕ
  pub active_config : Option Config
  pub first_config : Option Config

-- an interface number with the IN and the OUT endpoint
pub record Found : Type 0 where
  pub interface_number : ℕ
  pub ep_in : ℕ
  pub ep_out : ℕ

abbrev pub is_bulk : Endpoint → Bool
is_bulk ep = bit_and ep.attributes 3 == 2

abbrev pub is_in : Endpoint → Bool
is_in ep = bit_and ep.address 0x80 == 0x80

-- the loop over the endpoints: the last bulk IN and the last bulk OUT
unfoldable pub scan_endpoints : List Endpoint → ℕ → ℕ → ℕ × ℕ
scan_endpoints [] found_in found_out = (found_in, found_out)
scan_endpoints (ep ∷ eps) found_in found_out =
    scan_endpoints eps (if is_bulk ep && is_in ep then ep.address else found_in)
      (if is_bulk ep && not (is_in ep) then ep.address else found_out)

unfoldable pub scan_settings : List Setting → Option Found
unfolding scan_endpoints
scan_settings [] = none
scan_settings (alt ∷ alts) =
    let rest = scan_settings alts in
    let (found_in, found_out) = scan_endpoints alt.endpoints 0 0 in
    if not (found_in == 0) && not (found_out == 0)
    then some
        (record { interface_number = alt.interface_number; ep_in = found_in; ep_out = found_out })
    else rest

unfoldable pub scan_interfaces : Config → Option Found
unfolding scan_settings
scan_interfaces [] = none
scan_interfaces (settings ∷ interfaces) =
    let rest = scan_interfaces interfaces in
    elim (scan_settings settings) [ none ↦ rest | some f ↦ some f ]

-- `gateway_client_transport_usb_find_interface`
unfoldable pub find_interface : Device → Held → Option Found × Held
unfolding scan_interfaces
find_interface d h =
    let config : Option Config = elim d.active_config [ some c ↦ some c | none ↦ d.first_config ] in
    elim config [
      | none ↦ (none, h)
      | some c ↦
          let got = record h { configs = h.configs + 1 } in
          (scan_interfaces c, record got { configs = got.configs - 1 })
    ]

-- the loop over the devices
unfoldable pub open_first : ℕ → ℕ → List Device → Held → Option (ℕ × Found) × Held
unfolding find_interface
open_first vid pid [] h = (none, h)
open_first vid pid (d ∷ ds) h = elim d.descriptor [
  | none ↦ open_first vid pid ds h
  | some (v, p) ↦ elim (v == vid && p == pid) [
    | false ↦ open_first vid pid ds h
    | true ↦ elim d.handle [
      | none ↦ open_first vid pid ds h
      | some handle ↦
          let (found, h₁) = find_interface d (record h { handles = h.handles + 1 }) in
          elim found [
            | some f ↦ (some (handle, f), h₁)
            | none ↦ open_first vid pid ds (record h₁ { handles = h₁.handles - 1 })
          ]
    ]
  ]
]

-- `gateway_client_transport_usb_open_matching`; `none` where the devices cannot be listed
unfoldable pub open_matching : ℕ → ℕ → Option (List Device) → Held → Option (ℕ × Found) × Held
unfolding open_first
open_matching vid pid none h = (none, h)
open_matching vid pid (some devices) h =
    let (found, h₁) = open_first vid pid devices (record h { lists = h.lists + 1 }) in
    (found, record h₁ { lists = h₁.lists - 1 })

-- the wait for the device
unfoldable pub wait_for_device :
    ℕ → ℕ → List (Option (List Device)) → Held → Option (ℕ × Found) × Held
unfolding open_matching
wait_for_device vid pid [] h = (none, h)
wait_for_device vid pid (scan ∷ scans) h =
    let (found, h₁) = open_matching vid pid scan h in
    elim found [ some f ↦ (some f, h₁) | none ↦ wait_for_device vid pid scans h₁ ]

-- `gateway_client_transport_usb_open`; `init_ok`, `claim_ok` and `alt_ok` say which calls succeed
unfoldable pub usb_open :
    Bool
    → Bool
    → Bool
    → List (Option (List Device))
    → Options
    → Transport
    → Held
    → Status × Transport × Held
unfolding wait_for_device
usb_open init_ok claim_ok alt_ok scans o t h =
    let (found, h₁) =
      wait_for_device o.usb_vid o.usb_pid scans (record h { contexts = h.contexts + 1 }) in
    if not init_ok then (failed, t, h) else elim found [
      | none ↦ (failed, t, record h₁ { contexts = h₁.contexts - 1 })
      | some (handle, f) ↦
          let claimed = record h₁ { claims = h₁.claims + 1 } in
          if not claim_ok
          then (failed, t, record h₁ { handles = h₁.handles - 1; contexts = h₁.contexts - 1 })
          else if not alt_ok
          then (
            failed,
            t,
            record claimed {
              claims = claimed.claims - 1;
              handles = claimed.handles - 1;
              contexts = claimed.contexts - 1;
            },
          )
          else (
            ok,
            record t {
              usb_ctx = true;
              usb_handle = some handle;
              usb_interface_number = some f.interface_number;
              usb_ep_in = f.ep_in;
              usb_ep_out = f.ep_out;
            },
            claimed,
          )
    ]

-- `gateway_client_transport_open`; `fd` is what `tcp_transport_connect` gives
unfoldable pub open_transport :
    Bool
    → Bool
    → Bool
    → List (Option (List Device))
    → Option ℕ
    → Options
    → Held
    → Status × Transport × Held
unfolding prepared usb_open
open_transport init_ok claim_ok alt_ok scans fd o h = elim o.kind [
  | usb ↦ usb_open init_ok claim_ok alt_ok scans o (prepared o) h
  | tcp ↦ elim fd [
    | none ↦ (failed, prepared o, h)
    | some s ↦ (ok, record (prepared o) { tcp_fd = some s }, record h { sockets = h.sockets + 1 })
  ]
]
