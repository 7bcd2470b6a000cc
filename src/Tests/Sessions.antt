-- ===== src/Tests/Sessions.antt =====
-- gateway/gateway.c at concrete inputs. A message is the list of its strings: type, then nonce.
use carplay_poc.Base.{ℕ, ◌≡◌, refl, true, false, Option, some, List, [], ◌∷◌, replicate}
use carplay_poc.Session.{SessionNonce, parse_crypto_init, crypto_init}
use carplay_poc.Session.Accept.{
  Happening, client, ended, IsExclusive, happen_all, started, happen_all-IsExclusive,
}

abbrev Message : Type 0
Message = List ℕ

-- Every text is a `crypto_init` message with the same nonce.
abbrev parse_any : List ℕ → Option Message
parse_any text = some crypto_init

abbrev get_itself : Message → List ℕ → Option Message
get_itself m key = some m

abbrev its_text : Message → Option (List ℕ)
its_text m = some m

abbrev decode_any : List ℕ → Option (List ℕ)
decode_any text = some (replicate 12 7)

abbrev no_nonce : SessionNonce
no_nonce = record { session_nonce = []; have_nonce = false }

parse_crypto_init_run :
    (parse_crypto_init get_itself its_text parse_any decode_any true (1 ∷ []) no_nonce).1.have_nonce
    ≡ true
unfolding parse_crypto_init replicate
parse_crypto_init_run = refl

abbrev two_clients : List Happening
two_clients = client true true true ∷ client true true true ∷ ended ∷ client true true false ∷ []

happen_all-IsExclusive_example : IsExclusive (happen_all two_clients started)
happen_all-IsExclusive_example = happen_all-IsExclusive two_clients
