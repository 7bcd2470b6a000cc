-- ===== src/Ws/Reads.antt =====
-- gateway/ws_upstream_client.c: reading over the bytes that came with the handshake's answer.
use carplay_poc.Base.{
  Bool-cases, ℕ, zero, suc, ◌+◌, ◌-◌, ◌≤◌, ◌<◌, ◌≡◌, ◌⊎◌, inl, inr, refl, sym, ap, ◌∙◌, arith,
  Option, none, some, List, [], ◌∷◌, ◌++◌, length, take, drop, ltb, ◌==◌, if◌then◌else◌,
  length-drop, length-take, take-append-drop, drop-drop, append_assoc, drop_all,
}
use carplay_poc.Net.{Received, Read, got_more}
use carplay_poc.Net.Connection.{IsReceiving}
use carplay_poc.Net.Reads.{outcome, got_more-outcome, got_more-rest, drop-append_more}
use carplay_poc.Ws.{Client, buffered, take_prebuffer, read_some}

-- What of the prebuffer is unread.
abbrev pub unread : {Net : Type 0} → Client Net → List ℕ
unread c = elim c.prebuffer [ none ↦ [] | some buf ↦ drop c.prebuffer_off buf ]

-- A prebuffer that is there holds something unread.
abbrev pub IsOpen : {Net : Type 0} → Client Net → Type 0
IsOpen c =
    (c.prebuffer ≡ none)
    ⊎ ((buf : List ℕ) × (c.prebuffer ≡ some buf)
        × (c.prebuffer_len ≡ length buf)
        × (c.prebuffer_off < c.prebuffer_len))

take_prebuffer_lem :
    {Net : Type 0} (len : ℕ) (buf : List ℕ) (c : Client Net)
    → c.prebuffer ≡ some buf
    → c.prebuffer_len ≡ length buf
    → c.prebuffer_off < c.prebuffer_len
    → 0 < len
    → let (bs, c') = take_prebuffer len buf c in
      IsOpen c'
      × (c'.net ≡ c.net)
      × (unread c ≡ bs ++ unread c')
      × (0 < length bs)
      × (length bs ≤ len)
unfolding take_prebuffer
take_prebuffer_lem len buf c e full off pos =
    let rest = drop c.prebuffer_off buf in
    let avail = c.prebuffer_len - c.prebuffer_off in
    let size = if ltb len avail then len else avail in
    let (some', within, fits) : (0 < size) × (size ≤ len) × (size ≤ avail) = ground arith in
    let taken : length (take size rest) ≡ size =
      omega (arith, length-take size rest, length-drop c.prebuffer_off buf) in
    let split : rest ≡ take size rest ++ drop (c.prebuffer_off + size) buf =
      sym (take-append-drop size rest)
      ∙ ap (λ l. take size rest ++ l) (drop-drop size c.prebuffer_off buf) in
    let all = drop_all (c.prebuffer_off + size) buf in
    let whole : unread c ≡ rest = ground (arith, e) in
    elim (Bool-cases (c.prebuffer_off + size == c.prebuffer_len)) [
      | inl yes' ↦ rw yes' (
        inl refl,
        refl,
        whole ∙ split ∙ ap (λ l. take size rest ++ l) (all (ground (arith, yes', full))),
        omega arith,
        omega arith,
      )
      | inr no' ↦ rw no' (
        inr (buf, e, full, ground (arith, no')),
        refl,
        whole
            ∙ split
            ∙ ap
                (λ (p : Option (List ℕ)). take size rest ++ elim p as (λ _. List ℕ) [
                  | none ↦ []
                  | some buf' ↦ drop (c.prebuffer_off + size) buf'
                ])
                (sym e),
        omega arith,
        omega arith,
      )
    ]

module _ {Net : Type 0} (recv : Net → ℕ → Received × Net) where
  -- The bytes that the client will read, those of the prebuffer first.
  abbrev pub pending : IsReceiving recv → Client Net → List ℕ
  pending c w = unread w ++ c.incoming w.net

  -- What a read of `len` bytes by the client `w` comes to.
  abbrev pub HasRead : IsReceiving recv → ℕ → Client Net → Read × Client Net → Type 0
  HasRead c len w r =
      (r.0 ≡ outcome len (pending c w))
      × (pending c r.1 ≡ drop len (pending c w))
      × IsOpen r.1
      × (c.patience r.1.net ≤ c.patience w.net)

  -- A turn that moved `bs`, before the rest of the loop.
  moved :
      (c : IsReceiving recv) (len : ℕ) (bs : List ℕ) (w w' : Client Net) (r : Read × Client Net)
      → pending c w ≡ bs ++ pending c w'
      → length bs ≤ len
      → c.patience w'.net ≤ c.patience w.net
      → HasRead c (len - length bs) w' r
      → HasRead c len w (got_more bs r)
  moved c len bs w w' r e le p (out, rest, open', q) = rw (got_more-rest bs r) (
    got_more-outcome bs (pending c w') len r le out ∙ ap (outcome len) (sym e),
    rest ∙ sym (drop-append_more bs (pending c w') len le) ∙ ap (drop len) (sym e),
    open',
    omega arith,
  )

  -- On a connection that does not break, a read of `len` bytes gives the next `len` bytes, those of the
  -- prebuffer before those of the network, where there are as many, and reports the end of the stream
  -- where there are fewer; either way those behind the first `len` bytes, and no others, are left. As many turns are enough as bytes are
  -- asked for, and interruptions to come, and one more.
  pub read_some_reads :
      (c : IsReceiving recv) (fuel len : ℕ) (w : Client Net)
      → IsOpen w
      → len + c.patience w.net < fuel
      → HasRead c len w (read_some recv fuel len w)
  unfolding read_some buffered
  read_some_reads c fuel zero w v h = (ground arith, refl, v, omega arith)
  read_some_reads c zero (suc len) w v h = absurd (omega arith)
  read_some_reads c (suc fuel) (suc len) w (inr (buf, e, full, off)) h =
      let (bs, w') = take_prebuffer (suc len) buf w in
      let (open', same, split, some', le) =
        take_prebuffer_lem (suc len) buf w e full off (omega arith) in
      let r = read_some recv fuel (suc len - length bs) w' in
      let step : read_some recv (suc fuel) (suc len) w ≡ got_more bs r = ground (arith, e, off) in
      let rest = read_some_reads c fuel (suc len - length bs) w' open' (rw same (omega arith)) in
      rw step (
        moved c (suc len) bs w w' r
          (ap (λ l. l ++ c.incoming w.net) split
            ∙ append_assoc bs (unread w') (c.incoming w.net)
            ∙ ap (λ n. bs ++ (unread w' ++ c.incoming n)) (sym same))
          le (rw same (omega arith)) rest)
  read_some_reads c (suc fuel) (suc len) w (inl empty) h =
      let net' = (recv w.net (suc len)).1 in
      let w' = record w { net = net' } in
      let still : IsOpen w' = inl empty in
      let nothing : unread w ≡ [] = ground (arith, empty) in
      elim (c.receives w.net (suc len) (omega arith)) [
        | inl ([], e, le, none', all, p) ↦
            let step : read_some recv (suc fuel) (suc len) w ≡ (Read.closed, w') =
              ground (arith, e, empty) in
            rw (step, nothing, none' refl) (ground arith, sym all ∙ none' refl, still, p)
        | inl (b ∷ bs, e, le, none', all, p) ↦
            let r = read_some recv fuel (len - length bs) w' in
            let step : read_some recv (suc fuel) (suc len) w ≡ got_more (b ∷ bs) r =
              ground (arith, e, empty) in
            let rest = read_some_reads c fuel (len - length bs) w' still (omega arith) in
            let less : suc len - length (b ∷ bs) ≡ len - length bs = omega arith in
            rw step (moved c (suc len) (b ∷ bs) w w' r (rw nothing all) le p (rw less rest))
        | inr (e, same, p) ↦
            let step : read_some recv (suc fuel) (suc len) w ≡ read_some recv fuel (suc len) w' =
              ground (arith, e, empty) in
            let as_before : pending c w' ≡ pending c w = rw nothing same in
            let (out, rest, open', q) = read_some_reads c fuel (suc len) w' still (omega arith) in
            rw (step, ← as_before) (out, rest, open', omega arith)
      ]
