-- ===== src/Net/Reads.antt =====
-- gateway/tcp_transport.c: what a read of a whole buffer comes to.
use carplay_poc.Base.{
  ℕ, zero, suc, ◌+◌, ◌-◌, ◌≤◌, ◌<◌, ◌≡◌, inl, inr, refl, sym, ap, ◌∙◌, arith, List, [], ◌∷◌, ◌++◌,
  length, take, drop, leb, if◌then◌else◌, length-append,
}
use carplay_poc.Net.{Received, Read, got_more, read_exact}
use carplay_poc.Net.Connection.{IsReceiving}

-- What a read of `n` bytes comes to where `xs` are all the bytes to come.
abbrev pub outcome : ℕ → List ℕ → Read
outcome n xs = if leb n (length xs) then Read.got (take n xs) else Read.closed

pub take-append_more :
    (bs xs : List ℕ) (n : ℕ) → length bs ≤ n → take n (bs ++ xs) ≡ bs ++ take (n - length bs) xs
take-append_more [] xs n h = ap (λ k. take k xs) (omega arith)
take-append_more (b ∷ bs) xs zero h = absurd (omega arith)
take-append_more (b ∷ bs) xs (suc n) h =
    ap (λ l. b ∷ l)
      (take-append_more bs xs n (omega arith)
        ∙ ap (λ k. bs ++ take k xs) {x = n - length bs} {y = suc n - length (b ∷ bs)} (omega arith))

pub drop-append_more :
    (bs xs : List ℕ) (n : ℕ) → length bs ≤ n → drop n (bs ++ xs) ≡ drop (n - length bs) xs
drop-append_more [] xs n h = ap (λ k. drop k xs) (omega arith)
drop-append_more (b ∷ bs) xs zero h = absurd (omega arith)
drop-append_more (b ∷ bs) xs (suc n) h =
    drop-append_more bs xs n (omega arith)
    ∙ ap (λ k. drop k xs) {x = n - length bs} {y = suc n - length (b ∷ bs)} (omega arith)

-- A turn that moved `bs`, before a rest with a known outcome.
pub got_more-outcome :
    {S : Type 0} (bs xs : List ℕ) (n : ℕ) (r : Read × S)
    → length bs ≤ n
    → r.0 ≡ outcome (n - length bs) xs
    → (got_more bs r).0 ≡ outcome n (bs ++ xs)
got_more-outcome bs xs n (Read.got ys, s) h e =
    ground (arith, e, length-append bs xs, take-append_more bs xs n h)
got_more-outcome bs xs n (Read.closed, s) h e =
    ground (arith, e, length-append bs xs, take-append_more bs xs n h)
got_more-outcome bs xs n (Read.failed, s) h e = ground (arith, e)
got_more-outcome bs xs n (Read.unfinished, s) h e = ground (arith, e)

pub got_more-rest : {S : Type 0} (bs : List ℕ) (r : Read × S) → (got_more bs r).1 ≡ r.1
got_more-rest bs (Read.got ys, s) = refl
got_more-rest bs (Read.closed, s) = refl
got_more-rest bs (Read.failed, s) = refl
got_more-rest bs (Read.unfinished, s) = refl

module _ {Net : Type 0} (recv : Net → ℕ → Received × Net) where
  -- On a connection that does not break, a read of `len` bytes succeeds with the next `len` bytes, where
  -- there are as many, and reports the end of the stream where there are fewer; either way those
  -- behind the first `len` bytes, and no others, are left. As many turns are enough as bytes are asked for, and interruptions to come, and one more.
  pub read_exact_reads :
      (c : IsReceiving recv) (fuel len : ℕ) (net : Net)
      → len + c.patience net < fuel
      → let (r, net') = read_exact recv fuel len net in
        (r ≡ outcome len (c.incoming net))
        × (c.incoming net' ≡ drop len (c.incoming net))
        × (c.patience net' ≤ c.patience net)
  unfolding read_exact
  read_exact_reads c fuel zero net h = (ground arith, refl, omega arith)
  read_exact_reads c zero (suc len) net h = absurd (omega arith)
  read_exact_reads c (suc fuel) (suc len) net h =
      let net' = (recv net (suc len)).1 in
      elim (c.receives net (suc len) (omega arith)) [
        | inl ([], e, le, none', all, p) ↦
            let step : read_exact recv (suc fuel) (suc len) net ≡ (Read.closed, net') =
              ground (arith, e) in
            rw (step, none' refl) (ground arith, sym all ∙ none' refl, p)
        | inl (b ∷ bs, e, le, none', all, p) ↦
            let r = read_exact recv fuel (len - length bs) net' in
            let step : read_exact recv (suc fuel) (suc len) net ≡ got_more (b ∷ bs) r =
              ground (arith, e) in
            let (out, rest, q) = read_exact_reads c fuel (len - length bs) net' (omega arith) in
            let less : suc len - length (b ∷ bs) ≡ len - length bs = omega arith in
            rw (step, all, got_more-rest (b ∷ bs) r)
              (
                got_more-outcome (b ∷ bs) (c.incoming net') (suc len) r le (rw less out),
                rest
                    ∙ ap (λ k. drop k (c.incoming net')) (sym less)
                    ∙ sym (drop-append_more (b ∷ bs) (c.incoming net') (suc len) le),
                omega arith,
              )
        | inr (e, same, p) ↦
            let step : read_exact recv (suc fuel) (suc len) net
                ≡ read_exact recv fuel (suc len) net' =
              ground (arith, e) in
            let (out, rest, q) = read_exact_reads c fuel (suc len) net' (omega arith) in
            rw (step, ← same) (out, rest, omega arith)
      ]
