-- ===== src/Streamer/Split.antt =====
-- wsh264/app/wsh264.cpp: the fragments of a large frame, all of them, in the order they are sent.
use carplay_poc.Base.{
  ℕ, zero, suc, ◌+◌, ◌≡◌, ◌∙◌, sym, ap, refl, arith, true, List, [], ◌∷◌, ◌++◌, append_assoc,
  append-nil, take, drop, Status, ok,
}
use carplay_poc.Streamer.{App}
use carplay_poc.Streamer.Fragments.{fragment, fragment_data_size, send_fragments}

-- `left` fragments of `rest`, from an index on
abbrev pub fragments : ℕ → ℕ → ℕ → ℕ → ℕ → List ℕ → List (List ℕ)
fragments zero frag_index flags frag_count frame_id rest = []
fragments (suc left) frag_index flags frag_count frame_id rest =
    fragment flags frag_index frag_count frame_id (take fragment_data_size rest)
    ∷ fragments left (frag_index + 1) flags frag_count frame_id (drop fragment_data_size rest)

-- A connection that takes every packet: `sent` are those it has taken.
pub record IsTaking {Conn : Type 0} (send : List ℕ → App Conn → Status × App Conn) : Type 0 where
  pub sent : Conn → List (List ℕ)
  pub takes :
      (p : List ℕ) (app : App Conn)
      → let (rc, app') = send p app in (rc ≡ ok) × (sent app'.conn ≡ sent app.conn ++ p ∷ [])

module _ {Conn : Type 0} (send : List ℕ → App Conn → Status × App Conn) (t : IsTaking send) where
  pub send_fragments-fragments :
      (left i flags count frame_id : ℕ) (rest : List ℕ) (app : App Conn)
      → let (rc, app') = send_fragments send (λ k. true) left i flags count frame_id rest app in
        (rc ≡ ok)
        × (t.sent app'.conn ≡ t.sent app.conn ++ fragments left i flags count frame_id rest)
  unfolding send_fragments
  send_fragments-fragments zero i flags count frame_id rest app =
      (refl, sym (append-nil (t.sent app.conn)))
  send_fragments-fragments (suc left) i flags count frame_id rest app =
      let p = fragment flags i count frame_id (take fragment_data_size rest) in
      let (good, took) = t.takes p app in
      let app' = (send p app).1 in
      let rest' = drop fragment_data_size rest in
      let step : send_fragments send (λ k. true) (suc left) i flags count frame_id rest app
          ≡ send_fragments send (λ k. true) left (i + 1) flags count frame_id rest' app' =
        ground (arith, good) in
      let (fine, all) = send_fragments-fragments left (i + 1) flags count frame_id rest' app' in
      rw step (
        fine,
        all
            ∙ ap (λ l. l ++ fragments left (i + 1) flags count frame_id rest') took
            ∙ append_assoc (t.sent app.conn) (p ∷ [])
                (fragments left (i + 1) flags count frame_id rest'),
      )
