-- ===== src/Transport.antt =====
-- gateway_client/transport.c and transport_libusb.c: the client's transport, TCP or USB. Sockets and libusb are
-- parameters; a null pointer is never passed for a transport here. Transport/Usb.antt finds and opens the
-- device, Transport/Bulk.antt reads and writes.
pub mod Usb
pub mod Bulk
pub mod Balance
pub mod Transfers
use carplay_poc.Base.{[], none, ◌-◌, List, false, ℕ, Option, true, Bool, some, ◌∷◌, if◌then◌else◌}

pub data Kind : Type 0 where
  tcp usb : Kind

-- `gateway_client_transport_options_t`
pub record Options : Type 0 where
  pub kind : Kind
  pub host : List ℕ
  pub port : ℕ
  pub usb_vid : ℕ
  pub usb_pid : ℕ
  pub usb_poll_ms : ℕ
  pub usb_transfer_timeout_ms : ℕ

-- `gateway_client_transport_t`; an invalid socket, a null context or handle and interface -1 are `none`
pub record Transport : Type 0 where
  pub kind : Kind
  pub stop_requested : Bool
  pub tcp_fd : Option ℕ
  pub usb_ctx : Bool
  pub usb_handle : Option ℕ
  pub usb_interface_number : Option ℕ
  pub usb_ep_in : ℕ
  pub usb_ep_out : ℕ
  pub usb_transfer_timeout_ms : ℕ
  pub usb_vid : ℕ
  pub usb_pid : ℕ

-- What the process holds of libusb and the sockets: contexts, open handles, claimed interfaces, device lists,
-- configuration descriptors, and open sockets.
pub record Held : Type 0 where
  pub contexts : ℕ
  pub handles : ℕ
  pub claims : ℕ
  pub lists : ℕ
  pub configs : ℕ
  pub sockets : ℕ

-- `gateway_client_transport_options_default`
unfoldable pub options_default : Options
options_default = record {
  kind = usb;
  host = b'1' ∷ b'2' ∷ b'7' ∷ b'.' ∷ b'0' ∷ b'.' ∷ b'0' ∷ b'.' ∷ b'1' ∷ [];
  port = 19000;
  usb_vid = 0x0BDA;
  usb_pid = 0x8195;
  usb_poll_ms = 250;
  usb_transfer_timeout_ms = 100;
}

-- the transport as `gateway_client_transport_open` prepares it
unfoldable pub prepared : Options → Transport
prepared o = record {
  kind = o.kind;
  stop_requested = false;
  tcp_fd = none;
  usb_ctx = false;
  usb_handle = none;
  usb_interface_number = none;
  usb_ep_in = 0;
  usb_ep_out = 0;
  usb_transfer_timeout_ms = o.usb_transfer_timeout_ms;
  usb_vid = o.usb_vid;
  usb_pid = o.usb_pid;
}

-- `tcp_transport_shutdown_close` of a socket that is open
unfoldable pub drop_socket : Transport → Held → Transport × Held
drop_socket t h = elim t.tcp_fd [
  | none ↦ (t, h)
  | some fd ↦ (record t { tcp_fd = none }, record h { sockets = h.sockets - 1 })
]

-- `gateway_client_transport_usb_close`
unfoldable pub usb_close : Transport → Held → Transport × Held
usb_close t h =
    let h₁ : Held = elim t.usb_handle [
      | none ↦ h
      | some handle ↦ elim t.usb_interface_number [
        | none ↦ record h { handles = h.handles - 1 }
        | some n ↦ record h { claims = h.claims - 1; handles = h.handles - 1 }
      ]
    ] in
    (
      record t {
        usb_handle = none;
        usb_ctx = false;
        usb_interface_number = none;
        usb_ep_in = 0;
        usb_ep_out = 0;
      },
      if t.usb_ctx then record h₁ { contexts = h₁.contexts - 1 } else h₁,
    )

-- `gateway_client_transport_close`
unfoldable pub close : Transport → Held → Transport × Held
unfolding drop_socket usb_close
close t h = elim t.kind [ usb ↦ usb_close t h | tcp ↦ drop_socket t h ]

-- `gateway_client_transport_request_stop`; its USB part does nothing
unfoldable pub request_stop : Transport → Held → Transport × Held
unfolding drop_socket
request_stop t h =
    let t' = record t { stop_requested = true } in
    elim t.kind [ usb ↦ (t', h) | tcp ↦ drop_socket t' h ]

-- `gateway_client_transport_name`
unfoldable pub name : Option Transport → List ℕ
name none = b'u' ∷ b'n' ∷ b'k' ∷ b'n' ∷ b'o' ∷ b'w' ∷ b'n' ∷ []
name (some t) = elim t.kind [ usb ↦ b'u' ∷ b's' ∷ b'b' ∷ [] | tcp ↦ b't' ∷ b'c' ∷ b'p' ∷ [] ]
