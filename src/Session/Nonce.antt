-- ===== src/Session/Nonce.antt =====
-- gateway/gateway.c: when a session has a nonce.
use carplay_poc.Base.{ℕ, ◌≡◌, ◌⊎◌, arith, Bool, true, Option, some, List, [], ◌∷◌, ◌++◌, length, ok}
use carplay_poc.Session.{SessionNonce, is_crypto_init, nonce_text, parse_crypto_init}

module _ {Json : Type 0} (get_item : Json → List ℕ → Option Json)
    (valuestring : Json → Option (List ℕ)) (parse : List ℕ → Option Json)
    (base64_decode : List ℕ → Option (List ℕ)) where
  -- A text frame either leaves the session's nonce as it was, or it was a `crypto_init` message whose
  -- nonce decodes to twelve bytes, and then those are the session's nonce from then on.
  pub parse_crypto_init_cases :
      (allocated : Bool) (payload : List ℕ) (s : SessionNonce)
      → let (rc, s') =
          parse_crypto_init get_item valuestring parse base64_decode allocated payload s in
        (s' ≡ s)
        ⊎ ((root : Json) × (text : List ℕ) × (parse (payload ++ 0 ∷ []) ≡ some root)
            × (is_crypto_init get_item valuestring root ≡ true)
            × (nonce_text get_item valuestring root ≡ some text)
            × (base64_decode text ≡ some s'.session_nonce)
            × (length s'.session_nonce ≡ 12)
            × (s'.have_nonce ≡ true)
            × (rc ≡ ok))
  unfolding parse_crypto_init
  parse_crypto_init_cases allocated payload s = ground arith
