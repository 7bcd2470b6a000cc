-- ===== src/Net/Writes.antt =====
-- gateway/tcp_transport.c: a write passes on the whole buffer.
use carplay_poc.Base.{
  ℕ, zero, suc, ◌+◌, ◌≤◌, ◌≡◌, inl, inr, refl, sym, ap, ◌∙◌, arith, List, [], ◌∷◌, ◌++◌, length,
  take, drop, length-drop, take-append-drop, append-nil, append_assoc,
}
use carplay_poc.Net.{Sent, Written, write_all}
use carplay_poc.Net.Connection.{IsSending}

module _ {Net : Type 0} (send : Net → List ℕ → Sent × Net) where
  -- On a connection that does not break, a write of a buffer ends with success, and the connection has
  -- then taken its bytes, all of them, once and in order. As many turns are enough as there are bytes,
  -- and interruptions to come.
  pub write_all_sends :
      (c : IsSending send) (fuel : ℕ) (bs : List ℕ) (net : Net)
      → length bs + c.patience net ≤ fuel
      → let (r, net') = write_all send fuel bs net in
        (r ≡ Written.done)
        × (c.outgoing net' ≡ c.outgoing net ++ bs)
        × (c.patience net' ≤ c.patience net)
  unfolding write_all
  write_all_sends c fuel [] net h = (refl, sym (append-nil (c.outgoing net)), omega arith)
  write_all_sends c zero (b ∷ bs) net h = absurd (omega arith)
  write_all_sends c (suc fuel) (b ∷ bs) net h =
      let net' = (send net (b ∷ bs)).1 in
      elim (c.sends net (b ∷ bs) (omega arith)) [
        | inl (k, e, le, out, p, z) ↦
            let step : write_all send (suc fuel) (b ∷ bs) net
                ≡ write_all send fuel (drop k (b ∷ bs)) net' =
              ground (arith, e) in
            let (r, all, q) =
              write_all_sends c fuel (drop k (b ∷ bs)) net'
                (ground (arith, z, p, length-drop k (b ∷ bs))) in
            rw step (
              r,
              all
                  ∙ ap (λ l. l ++ drop k (b ∷ bs)) out
                  ∙ append_assoc (c.outgoing net) (take k (b ∷ bs)) (drop k (b ∷ bs))
                  ∙ ap (λ l. c.outgoing net ++ l) (take-append-drop k (b ∷ bs)),
              omega arith,
            )
        | inr (e, out, p) ↦
            let step : write_all send (suc fuel) (b ∷ bs) net ≡ write_all send fuel (b ∷ bs) net' =
              ground (arith, e) in
            let (r, all, q) = write_all_sends c fuel (b ∷ bs) net' (omega arith) in
            rw step (r, all ∙ ap (λ l. l ++ (b ∷ bs)) out, omega arith)
      ]
