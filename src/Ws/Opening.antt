-- ===== src/Ws/Opening.antt =====
-- gateway/ws_upstream_client.c: a connection opened, and the frames behind the answer.
use carplay_poc.Base.{
  ℕ, zero, suc, ◌+◌, ◌-◌, ◌≤◌, ◌<◌, ◌^◌, ◌≡◌, ◌∙◌, sym, ap, refl, arith, Bool, true, Option, some,
  List, [], ◌∷◌, ◌++◌, length, append_assoc, length-append, Bool-cases, inl, inr, ok, ltb→lt, ltb,
}
use carplay_poc.Handshake.{read_answer, upgrade_request, accepted}
use carplay_poc.Handshake.Reply.{IsUpgrade, read_answer_early, read_answer_whole, cut_cases}
use carplay_poc.Net.{Received, Sent}
use carplay_poc.Net.Connection.{IsReceiving}
use carplay_poc.Ws.{Client, write_ok}
use carplay_poc.Ws.{recv_frame}
use carplay_poc.Ws.Lengths.{IsMask}
use carplay_poc.Ws.Receive.{HasReceived, recv_frame-wire}
use carplay_poc.Ws.Wire.{wire}
use carplay_poc.Ws.Reads.{IsOpen, pending}
use carplay_poc.Ws.Connect.{Reached, opened, await_answer, keep_extra, ws_connect, cleared}

module _ {Net : Type 0} (recv : Net → ℕ → Received × Net) (c : IsReceiving recv)
    (reply rest : List ℕ) (u : IsUpgrade reply) (short : length reply < 4096) where
  -- Waiting has reached the end of the header, and lost none of what follows.
  abbrev HasOpened : Net → Reached × Net → Type 0
  HasOpened net r =
      (extra : List ℕ) × (r.0 ≡ opened extra)
      × (extra ++ c.incoming r.1 ≡ rest)
      × (c.patience r.1 ≤ c.patience net)

  await_answer-opened :
      (fuel : ℕ) (response : List ℕ) (net : Net)
      → response ++ c.incoming net ≡ reply ++ rest
      → length response < length reply
      → length reply - length response + c.patience net < fuel
      → HasOpened net (await_answer recv fuel response net)
  unfolding await_answer
  await_answer-opened zero response net e h enough = absurd (omega arith)
  await_answer-opened (suc fuel) response net e h enough =
      let room : ltb (length response + 1) 4096 ≡ true = ground arith in
      elim (c.receives net (4096 - length response - 1) (omega arith)) [
        | inl ([], got, le, none', all, p) ↦ absurd (
            omega (
              arith,
              ap length e,
              ap length (none' refl),
              length-append response (c.incoming net),
              length-append reply rest,
            ))
        | inl (b ∷ bs, got, le, none', all, p) ↦
            let net' = (recv net (4096 - length response - 1)).1 in
            let response' = response ++ b ∷ bs in
            let longer = length-append response (b ∷ bs) in
            let e' : response' ++ c.incoming net' ≡ reply ++ rest =
              append_assoc response (b ∷ bs) (c.incoming net')
              ∙ ap (λ l. response ++ l) (sym all)
              ∙ e in
            elim (Bool-cases (ltb (length response') (length reply))) [
              | inl early ↦
                  let (extra, none'', whole) =
                    cut_cases reply rest response' (c.incoming net') (sym e') (ground arith) in
                  let wait =
                    read_answer_early response' extra reply u (sym none'') (ground arith) in
                  let step : await_answer recv (suc fuel) response net
                      ≡ await_answer recv fuel response' net' =
                    ground (arith, wait) in
                  let (extra', out, left, q) =
                    await_answer-opened fuel response' net' e' (ground arith)
                      (omega (arith, ltb→lt (length response') (length reply) early)) in
                  rw step (extra', out, left, omega arith)
              | inr late ↦
                  let (extra, e'', left) =
                    cut_cases response' (c.incoming net') reply rest e' (ground arith) in
                  let found : read_answer response' ≡ accepted extra =
                    ap read_answer e'' ∙ read_answer_whole reply extra u in
                  let step : await_answer recv (suc fuel) response net ≡ (opened extra, net') =
                    ground (arith, found) in
                  rw step (extra, refl, left, p)
            ]
        | inr (got, same, p) ↦
            let net' = (recv net (4096 - length response - 1)).1 in
            let step : await_answer recv (suc fuel) response net
                ≡ await_answer recv fuel response net' =
              ground arith in
            let (extra, out, left, q) =
              await_answer-opened fuel response net' (ap (λ l. response ++ l) same ∙ e) h
                (omega arith) in
            rw step (extra, out, left, omega arith)
      ]

module _ {Net : Type 0} (recv : Net → ℕ → Received × Net) (c : IsReceiving recv)
    (send : Net → List ℕ → Sent × Net) (tcp_connect : List ℕ → ℕ → Net → Bool × Net)
    (shutdown_close : Net → Net) (fuel : ℕ) (allocated : ℕ → Bool) where
  keep_extra_lem :
      (extra rest : List ℕ) (net : Net)
      → ((n : ℕ) → allocated n ≡ true)
      → extra ++ c.incoming net ≡ rest
      → let r = keep_extra recv send tcp_connect shutdown_close fuel allocated extra net in
        (r.0 ≡ ok) × (pending recv c r.1 ≡ rest) × IsOpen r.1 × (r.1.net ≡ net)
  unfolding keep_extra
  keep_extra_lem [] rest net a e = (refl, e, inl refl, refl)
  keep_extra_lem (b ∷ bs) rest net a e =
      let n = suc (length bs) in
      let w = record (cleared net) { prebuffer = some (b ∷ bs); prebuffer_len = n } in
      let step : keep_extra recv send tcp_connect shutdown_close fuel allocated (b ∷ bs) net
          ≡ (ok, w) =
        ground (arith, a n) in
      rw step (refl, e, inr (b ∷ bs, refl, refl, omega arith), refl)

  -- Where the socket is there, the request fits and is sent, and the server's answer has a header of less
  -- than 4096 bytes that accepts, opening the connection succeeds, in however many pieces the answer
  -- comes; and exactly the bytes behind the header are left to read, those that came with it first.
  pub ws_connect-upgrade :
      (host path reply rest : List ℕ) (port : ℕ) (w : Client Net) (net net₁ : Net)
      → tcp_connect host port w.net ≡ (true, net)
      → length (upgrade_request path host port) < 512
      → write_ok send fuel (upgrade_request path host port) net ≡ (ok, net₁)
      → IsUpgrade reply
      → length reply < 4096
      → c.incoming net₁ ≡ reply ++ rest
      → length reply + c.patience net₁ < fuel
      → ((n : ℕ) → allocated n ≡ true)
      → let r =
          ws_connect recv send tcp_connect shutdown_close fuel allocated
            (some host)
            port
            (some path)
            w in
        (r.0 ≡ ok)
        × (pending recv c r.1 ≡ rest)
        × IsOpen r.1
        × (c.patience r.1.net ≤ c.patience net₁)
  unfolding ws_connect
  ws_connect-upgrade host path reply rest port w net net₁ up fits sent' u short e enough a =
      let some' : 0 < length reply = omega (arith, u.end_last) in
      let (extra, out, left, p) =
        await_answer-opened recv c reply rest u short fuel [] net₁ e some' (omega arith) in
      let net₂ = (await_answer recv fuel [] net₁).1 in
      let step : ws_connect recv send tcp_connect shutdown_close fuel allocated (some host) port
            (some path) w
          ≡ keep_extra recv send tcp_connect shutdown_close fuel allocated extra net₂ =
        ground arith in
      let (done, behind, open', same) = keep_extra_lem extra rest net₂ a left in
      rw step (done, behind, open', rw same p)

  -- The first frame after the handshake is received whole, with its opcode and its payload, even where the
  -- server's answer and the frame come in pieces that are cut anywhere, and the bytes behind the frame are left. The
  -- conditions are those of `ws_connect-upgrade` and of `recv_frame-wire`.
  pub recv_frame-ws_connect :
      (host path reply payload rest : List ℕ) (port opcode : ℕ) (mask : Option (List ℕ))
      (w : Client Net) (net net₁ : Net)
      → tcp_connect host port w.net ≡ (true, net)
      → length (upgrade_request path host port) < 512
      → write_ok send fuel (upgrade_request path host port) net ≡ (ok, net₁)
      → IsUpgrade reply
      → length reply < 4096
      → IsMask mask
      → opcode < 16
      → length payload < 2 ^ 64
      → c.incoming net₁ ≡ reply ++ (wire mask opcode payload ++ rest)
      → length reply + (12 + length payload) + c.patience net₁ < fuel
      → ((n : ℕ) → allocated n ≡ true)
      → let (rc, w') =
          ws_connect recv send tcp_connect shutdown_close fuel allocated
            (some host)
            port
            (some path)
            w in
        (rc ≡ ok)
        × HasReceived recv c fuel allocated opcode payload rest (recv_frame recv fuel allocated w')
  recv_frame-ws_connect host path reply payload rest port opcode mask w net net₁ up fits sent' u
        short m op small e enough a =
      let (done, behind, open', p) =
        ws_connect-upgrade host path reply (wire mask opcode payload ++ rest) port w net net₁ up
          fits sent' u short e (omega arith) a in
      let w' =
        (ws_connect recv send tcp_connect shutdown_close fuel allocated (some host) port (some path)
          w).1 in
      (
        done,
        recv_frame-wire recv c fuel allocated mask opcode payload rest w' m open' op
            (a (length payload)) small behind (omega arith),
      )
