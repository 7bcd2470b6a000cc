-- ===== src/Bridge.antt =====
-- wsh264/src/ws_wsfs_compat.c: the server's WebSocket interface on top of the wsfs library. The library, in a
-- submodule, is a parameter: a connection, a server and the address of a record are numbers, `server_of`
-- is `wsfs_connection_get_impl (conn)->server`, and what its calls answer stands in the arguments. The
-- registry's lock makes each of its operations one step.
pub mod Life
use carplay_poc.Base.{
  Option, some, ◌∷◌, ℕ, ◌||◌, [], Status, failed, none, Bool, not, List, ◌==◌, if◌then◌else◌, take,
}
use carplay_poc.Streamer.{op_text, op_binary}
use carplay_poc.Ws.{send_text}

-- What the wsfs library passes as an opcode.
pub data Opcode : Type 0 where
  text binary close_op ping_op pong_op other_op : Opcode

-- `WS_STATE_OPEN`, `WS_STATE_CLOSING` and `WS_STATE_CLOSED`
pub data ConnState : Type 0 where
  is_open is_closing is_closed : ConnState

-- `ws_server_bridge_t`: which callbacks the application has set
pub record Server : Type 0 where
  pub impl : ℕ
  pub has_onopen : Bool
  pub has_onmessage : Bool
  pub has_onclose : Bool

-- `struct ws_connection`, with its address
pub record Peer : Type 0 where
  pub address : ℕ
  pub conn : ℕ
  pub server_impl : ℕ
  pub user_data : Option ℕ
  pub peer_ip : List ℕ
  pub state : ConnState

-- the two lists of the bridge
pub record Registry : Type 0 where
  pub servers : List Server
  pub clients : List Peer

-- The application's callbacks, as they are called.
pub data Call : Type 0 where
  onopen : ℕ → Call
  onmessage : ℕ → List ℕ → ℕ → Call
  onclose : ℕ → Call

-- `WS_FR_OP_CLSE`, `WS_FR_OP_PING`, `WS_FR_OP_PONG` and `WS_FR_OP_UNSUPPORTED`
abbrev pub op_close : ℕ
op_close = 8

abbrev pub op_ping : ℕ
op_ping = 9

abbrev pub op_pong : ℕ
op_pong = 0xA

abbrev pub op_unsupported : ℕ
op_unsupported = 0xF

unfoldable pub find_server : ℕ → List Server → Option Server
find_server impl [] = none
find_server impl (s ∷ servers) =
    let rest = find_server impl servers in if s.impl == impl then some s else rest

unfoldable pub find_client : ℕ → List Peer → Option Peer
find_client conn [] = none
find_client conn (c ∷ clients) =
    let rest = find_client conn clients in if c.conn == conn then some c else rest

unfoldable pub register_server : Server → Registry → Registry
register_server s r = record r { servers = s ∷ r.servers }

abbrev pub drop_server : ℕ → List Server → List Server
drop_server impl [] = []
drop_server impl (s ∷ servers) = if s.impl == impl then servers else s ∷ drop_server impl servers

-- a bridge is known by its server
unfoldable pub unregister_server : ℕ → Registry → Registry
unregister_server impl r = record r { servers = drop_server impl r.servers }

unfoldable pub register_client : Peer → Registry → Registry
register_client c r = record r { clients = c ∷ r.clients }

abbrev pub drop_client : ℕ → List Peer → List Peer
drop_client address [] = []
drop_client address (c ∷ clients) =
    if c.address == address then clients else c ∷ drop_client address clients

unfoldable pub unregister_client : ℕ → Registry → Registry
unregister_client address r = record r { clients = drop_client address r.clients }

-- a change of the record at an address
abbrev pub change_client : ℕ → (Peer → Peer) → List Peer → List Peer
change_client address f [] = []
change_client address f (c ∷ clients) =
    if c.address == address then f c ∷ clients else c ∷ change_client address f clients

unfoldable pub msg_type : Opcode → ℕ
msg_type text = op_text
msg_type binary = op_binary
msg_type close_op = op_close
msg_type ping_op = op_ping
msg_type pong_op = op_pong
msg_type other_op = op_unsupported

module _ (server_of : ℕ → Option ℕ) where
  unfoldable pub server_for_conn : ℕ → Registry → Option Server
  unfolding find_server
  server_for_conn conn r = elim (server_of conn) [
    | none ↦ none
    | some impl ↦ find_server impl r.servers
  ]

  -- `wsfs_bridge_on_open`; `memory` is the address that `calloc` gives
  unfoldable pub on_open : Option ℕ → Option (List ℕ) → ℕ → Registry → List Call × Registry
  unfolding server_for_conn register_client
  on_open memory ip conn r = elim (server_for_conn conn r) [
    | none ↦ ([], r)
    | some s ↦ elim memory [
      | none ↦ ([], r)
      | some address ↦
          let client : Peer = record {
            address = address;
            conn = conn;
            server_impl = s.impl;
            user_data = none;
            peer_ip = elim ip [ none ↦ [] | some chars ↦ take 63 chars ];
            state = is_open;
          } in
          ((if s.has_onopen then onopen address ∷ [] else []), register_client client r)
    ]
  ]

  -- `wsfs_bridge_on_message`
  unfoldable pub on_message : ℕ → Option (Opcode × List ℕ) → Registry → List Call
  unfolding server_for_conn find_client msg_type
  on_message conn none r = []
  on_message conn (some (opcode, payload)) r = elim (server_for_conn conn r) [
    | none ↦ []
    | some s ↦ elim (find_client conn r.clients) [
      | none ↦ []
      | some c ↦
          if msg_type opcode == op_unsupported || not s.has_onmessage
          then []
          else onmessage c.address payload (msg_type opcode) ∷ []
    ]
  ]

  -- `wsfs_bridge_on_close`
  unfoldable pub on_close : ℕ → Registry → List Call × Registry
  unfolding server_for_conn find_client unregister_client
  on_close conn r = elim (find_client conn r.clients) [
    | none ↦ ([], r)
    | some c ↦
        let r' = record r {
          clients = change_client c.address (λ p. record p { state = is_closed }) r.clients;
        } in
        let calls : List Call = elim (server_for_conn conn r) [
          | none ↦ []
          | some s ↦ if s.has_onclose then onclose c.address ∷ [] else []
        ] in
        (calls, unregister_client c.address r')
  ]

-- `set_userdata` and `get_userdata`
unfoldable pub set_userdata : ℕ → Option ℕ → Registry → Registry
set_userdata address data' r = record r {
  clients = change_client address (λ p. record p { user_data = data' }) r.clients;
}

unfoldable pub get_userdata : Option Peer → Option ℕ
get_userdata none = none
get_userdata (some c) = c.user_data

-- `ws_get_state`
unfoldable pub ws_get_state : Option Peer → ConnState
ws_get_state none = is_closed
ws_get_state (some c) = c.state

-- `ws_sendframe` and `ws_close_client`, over a state `Net` of the library's connections
module _ {Net : Type 0} (send_text send_binary : Net → ℕ → List ℕ → Status × Net)
    (close_conn : Net → ℕ → ℕ → Status × Net) where
  unfoldable pub ws_sendframe : Option Peer → List ℕ → ℕ → Net → Status × Option Peer × Net
  ws_sendframe none msg type net = (failed, none, net)
  ws_sendframe (some c) msg type net =
      let (rc, net₁) = send_text net c.conn msg in
      let (rc₂, net₂) = send_binary net c.conn msg in
      let (rc₃, net₃) = close_conn net c.conn 1000 in
      if type == op_text
      then (rc, some c, net₁)
      else if type == op_binary
      then (rc₂, some c, net₂)
      else if type == op_close
      then (rc₃, some (record c { state = is_closing }), net₃)
      else (failed, some c, net)

  unfoldable pub ws_close_client : Option Peer → Net → Status × Option Peer × Net
  ws_close_client none net = (failed, none, net)
  ws_close_client (some c) net =
      let (rc, net') = close_conn net c.conn 1000 in
      (rc, some (record c { state = is_closing }), net')

-- `ws_socket`: `run` is `wsfs_server_run`, which calls back as long as it runs
unfoldable pub ws_socket :
    Bool → Server → (Registry → Status × Registry) → Registry → Status × Registry
unfolding register_server unregister_server
ws_socket init_ok bridge run r =
    if not init_ok
    then (failed, r)
    else let (rc, r') = run (register_server bridge r) in (rc, unregister_server bridge.impl r')
