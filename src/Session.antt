-- ===== src/Session.antt =====
-- gateway/gateway.c: the session nonce that the server announces in a text frame (the board's firmware has
-- the same function). cJSON and base64 are other projects' libraries and are parameters; a C string
-- is the list of its characters, without the terminator.
pub mod Whole
pub mod Served
pub mod Nonce
pub mod Accept
pub mod Relay
pub mod Forward
use carplay_poc.Base.{
  ℕ, Bool, true, false, not, ◌&&◌, Option, none, some, List, [], ◌∷◌, ◌++◌, ◌==◌, if◌then◌else◌,
  length, Status, ok, failed,
}
use carplay_poc.Crypto.{nonce_size}

-- `session_nonce` and `have_nonce`
pub record SessionNonce : Type 0 where
  pub session_nonce : List ℕ
  pub have_nonce : Bool

-- `strcmp (a, b) == 0`
abbrev pub same_text : List ℕ → List ℕ → Bool
same_text [] [] = true
same_text [] (d ∷ b) = false
same_text (c ∷ a) [] = false
same_text (c ∷ a) (d ∷ b) = c == d && same_text a b

-- "type", "crypto_init", "result" and "session_nonce"
abbrev pub key_type : List ℕ
key_type = b't' ∷ b'y' ∷ b'p' ∷ b'e' ∷ []

abbrev pub crypto_init : List ℕ
crypto_init = b'c' ∷ b'r' ∷ b'y' ∷ b'p' ∷ b't' ∷ b'o' ∷ b'_' ∷ b'i' ∷ b'n' ∷ b'i' ∷ b't' ∷ []

abbrev pub key_result : List ℕ
key_result = b'r' ∷ b'e' ∷ b's' ∷ b'u' ∷ b'l' ∷ b't' ∷ []

abbrev pub key_session_nonce : List ℕ
key_session_nonce =
    b's' ∷ b'e' ∷ b's' ∷ b's' ∷ b'i' ∷ b'o' ∷ b'n' ∷ b'_' ∷ b'n' ∷ b'o' ∷ b'n' ∷ b'c' ∷ b'e' ∷ []

module _ {Json : Type 0} (get_item : Json → List ℕ → Option Json)
    (valuestring : Json → Option (List ℕ)) where
  -- the string under a key, where there is one
  abbrev pub string_at : List ℕ → Json → Option (List ℕ)
  string_at key object = elim (get_item object key) [ none ↦ none | some item ↦ valuestring item ]

  -- the text of the nonce
  abbrev pub nonce_text : Json → Option (List ℕ)
  nonce_text root = elim (get_item root key_result) [
    | none ↦ none
    | some result ↦ string_at key_session_nonce result
  ]

  -- whether the message is a `crypto_init`
  abbrev pub is_crypto_init : Json → Bool
  is_crypto_init root = elim (string_at key_type root) [
    | none ↦ false
    | some text ↦ same_text text crypto_init
  ]

  module _ (parse : List ℕ → Option Json) (base64_decode : List ℕ → Option (List ℕ)) where
    -- `gateway_parse_crypto_init`; the text that is parsed is the payload with a terminator behind it
    unfoldable pub parse_crypto_init : Bool → List ℕ → SessionNonce → Status × SessionNonce
    parse_crypto_init allocated payload s =
        if not allocated then (failed, s) else elim (parse (payload ++ 0 ∷ [])) [
          | none ↦ (ok, s)
          | some root ↦ if not (is_crypto_init root) then (ok, s) else elim (nonce_text root) [
            | none ↦ (failed, s)
            | some text ↦ elim (base64_decode text) [
              | none ↦ (failed, s)
              | some decoded ↦
                  if not (length decoded == nonce_size)
                  then (failed, s)
                  else (ok, record { session_nonce = decoded; have_nonce = true })
            ]
          ]
        ]
