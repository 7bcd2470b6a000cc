-- ===== src/Bridge/Life.antt =====
-- wsh264/src/ws_wsfs_compat.c: connections come and go.
use carplay_poc.Base.{
  some, ◌∷◌, List, [], ℕ, inl, none, refl, ◌≡◌, sym, arith, inr, ◌≢◌, ◌==◌, Bool-cases, All, Option,
  if◌then◌else◌, Option-cases, take,
}
use carplay_poc.Bridge.{
  is_open, is_closed, onclose, Peer, find_client, drop_client, change_client, Opcode, Server,
  Registry, server_for_conn, on_message, on_close, on_open, register_client,
}

-- No two records of the registry are for one connection, or at one address.
abbrev pub IsDistinct : List Peer → Type 0
IsDistinct [] = Unit
IsDistinct (c ∷ cs) =
    All (λ (d : Peer). (d.conn ≢ c.conn) × (d.address ≢ c.address)) cs × IsDistinct cs

found-All :
    (P : Peer → Type 0) (conn : ℕ) (cs : List Peer) (c : Peer)
    → All P cs
    → find_client conn cs ≡ some c
    → P c × (c.conn ≡ conn)
unfolding find_client
found-All P conn [] c all e = absurd (ground (arith, e))
found-All P conn (d ∷ cs) c all e = elim (Bool-cases (d.conn == conn)) [
  | inl y ↦
      let same : d ≡ c = ground (arith, y, e) in
      let here : d.conn ≡ conn = ground (arith, y) in (rw (← same) all.0, rw (← same) here)
  | inr n ↦ found-All P conn cs c all.1 (ground (arith, n, e))
]

none-found :
    (conn : ℕ) (cs : List Peer) → All (λ (d : Peer). d.conn ≢ conn) cs → find_client conn cs ≡ none
unfolding find_client
none-found conn [] all = refl
none-found conn (d ∷ cs) all = ground (arith, all.0, none-found conn cs all.1)

weaken :
    (x a : ℕ) (cs : List Peer)
    → All (λ (d : Peer). (d.conn ≢ x) × (d.address ≢ a)) cs
    → All (λ (d : Peer). d.conn ≢ x) cs
weaken x a [] all = tt
weaken x a (d ∷ cs) all = (all.0.0, weaken x a cs all.1)

-- the registry without the record at an address, which was marked as closed before
abbrev pub without : ℕ → List Peer → List Peer
without address cs =
    drop_client address (change_client address (λ p. record p { state = is_closed }) cs)

without-other :
    (address : ℕ) (d : Peer) (cs : List Peer)
    → d.address ≢ address
    → without address (d ∷ cs) ≡ d ∷ without address cs
without-other address d cs h = ground (arith, h)

without-All :
    (P : Peer → Type 0) (address : ℕ) (cs : List Peer) → All P cs → All P (without address cs)
without-All P address [] all = tt
without-All P address (d ∷ cs) all = elim (Bool-cases (d.address == address)) [
  | inl y ↦ let step : without address (d ∷ cs) ≡ cs = ground (arith, y) in rw step all.1
  | inr n ↦
      let step : without address (d ∷ cs) ≡ d ∷ without address cs = ground (arith, n) in
      rw step (all.0, without-All P address cs all.1)
]

-- Removing the record that was found for a connection.
without_lem :
    (conn : ℕ) (cs : List Peer) (c : Peer)
    → IsDistinct cs
    → find_client conn cs ≡ some c
    → (find_client conn (without c.address cs) ≡ none)
      × ((other : ℕ)
          → other ≢ conn
          → find_client other (without c.address cs) ≡ find_client other cs)
      × IsDistinct (without c.address cs)
unfolding find_client
without_lem conn [] c v e = absurd (ground (arith, e))
without_lem conn (d ∷ cs) c (apart, v) e = elim (Bool-cases (d.conn == conn)) [
  | inl y ↦
      let same : d ≡ c = ground (arith, y, e) in
      let here : d.conn ≡ conn = ground (arith, y) in
      let step : without c.address (d ∷ cs) ≡ cs = ground (arith, same) in
      let gone = none-found d.conn cs (weaken d.conn d.address cs apart) in
      rw step (rw (← here) gone, λ other o. ground (arith, here, o), v)
  | inr n ↦
      let found : find_client conn cs ≡ some c = ground (arith, n, e) in
      let apart_c = (found-All _ conn cs c apart found).0 in
      let step = without-other c.address d cs (λ k. apart_c.1 (sym k)) in
      let (gone, kept, v') = without_lem conn cs c v found in
      rw step (
        ground (arith, n, gone),
        λ other o. ground (arith, kept other o),
        (without-All _ c.address cs apart, v'),
      )
]

on_message-gone :
    (server_of : ℕ → Option ℕ) (conn : ℕ) (msg : Option (Opcode × List ℕ)) (r : Registry)
    → find_client conn r.clients ≡ none
    → on_message server_of conn msg r ≡ []
unfolding on_message
on_message-gone server_of conn none r e = refl
on_message-gone server_of conn (some (opcode, payload)) r e =
    elim (Option-cases (server_for_conn server_of conn r)) [
      | inl n ↦ ground (arith, n)
      | inr (s, k) ↦ ground (arith, k, e)
    ]

same_server :
    (server_of : ℕ → Option ℕ) (conn : ℕ) (r : Registry) (cs : List Peer)
    → server_for_conn server_of conn (record r { clients = cs }) ≡ server_for_conn server_of conn r
unfolding server_for_conn
same_server server_of conn r cs = refl

on_message-same :
    (server_of : ℕ → Option ℕ) (conn : ℕ) (msg : Option (Opcode × List ℕ)) (r : Registry)
    (cs : List Peer)
    → find_client conn cs ≡ find_client conn r.clients
    → on_message server_of conn msg (record r { clients = cs }) ≡ on_message server_of conn msg r
unfolding on_message
on_message-same server_of conn none r cs e = refl
on_message-same server_of conn (some (opcode, payload)) r cs e =
    let r' : Registry = record r { clients = cs } in
    let same : server_for_conn server_of conn r' ≡ server_for_conn server_of conn r =
      same_server server_of conn r cs in
    elim (Option-cases (server_for_conn server_of conn r)) [
      | inl n ↦ ground (arith, n, same)
      | inr (s, k) ↦ elim (Option-cases (find_client conn r.clients)) [
        | inl n ↦ ground (arith, n, k, e, same)
        | inr (c, f) ↦ ground (arith, f, k, e, same)
      ]
    ]

module _ (server_of : ℕ → Option ℕ) where
  -- Where the records of the registry are for different connections, at different addresses, closing one that is
  -- registered, and whose server is, tells the application once, if it asked, and removes its record and no other: messages of
  -- this connection are dropped from then on, those of any other reach the application as before.
  pub on_close_lem :
      (conn other : ℕ) (c : Peer) (s : Server) (r : Registry) (msg : Option (Opcode × List ℕ))
      → IsDistinct r.clients
      → find_client conn r.clients ≡ some c
      → server_for_conn server_of conn r ≡ some s
      → other ≢ conn
      → let (calls, r') = on_close server_of conn r in
        (calls ≡ (if s.has_onclose then onclose c.address ∷ [] else []))
        × (on_message server_of conn msg r' ≡ [])
        × (on_message server_of other msg r' ≡ on_message server_of other msg r)
        × IsDistinct r'.clients
  unfolding on_close
  on_close_lem conn other c s r msg v found served differs =
      let r' : Registry = record r { clients = without c.address r.clients } in
      let step : on_close server_of conn r
          ≡ ((if s.has_onclose then onclose c.address ∷ [] else []), r') =
        ground (arith, found, served) in
      let (gone, kept, v') = without_lem conn r.clients c v found in
      rw step (
        refl,
        on_message-gone server_of conn msg r' gone,
        on_message-same server_of other msg r (without c.address r.clients) (kept other differs),
        v',
      )

  -- Opening a connection that is not registered, with a record at a new address, keeps the records apart.
  pub on_open-IsDistinct :
      (address conn : ℕ) (ip : Option (List ℕ)) (r : Registry)
      → IsDistinct r.clients
      → All (λ (d : Peer). (d.conn ≢ conn) × (d.address ≢ address)) r.clients
      → let (calls, r') = on_open server_of (some address) ip conn r in IsDistinct r'.clients
  unfolding on_open register_client
  on_open-IsDistinct address conn ip r v fresh =
      elim (Option-cases (server_for_conn server_of conn r)) [
        | inl n ↦
            let same : (on_open server_of (some address) ip conn r).1 ≡ r = ground (arith, n) in
            rw same v
        | inr (s, k) ↦
            let client : Peer = record {
              address = address;
              conn = conn;
              server_impl = s.impl;
              user_data = none;
              peer_ip = elim ip [ none ↦ [] | some chars ↦ take 63 chars ];
              state = is_open;
            } in
            let more : (on_open server_of (some address) ip conn r).1
                ≡ record r { clients = client ∷ r.clients } =
              ground (arith, k) in
            rw more (fresh, v)
      ]
