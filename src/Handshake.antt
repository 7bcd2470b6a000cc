-- ===== src/Handshake.antt =====
-- gateway/ws_upstream_client.c and ameba_gateway/example_gateway_ameba.c: the request that opens the
-- WebSocket, and how its answer is read. Both programs have the same texts and tests. The formats %s and %u and strstr are C's.
pub mod Find
pub mod Reply
use Prim.Native.Char.{code}
use Prim.Native.String.{String}
use carplay_poc.Base.{
  ℕ, zero, suc, ◌+◌, ◌/◌, ◌%◌, Bool, true, false, ◌&&◌, Option, none, some, List, [], ◌∷◌, ◌++◌,
  ◌==◌, ltb, if◌then◌else◌, drop,
}

-- the characters of a literal
abbrev pub codes : String → List ℕ
codes String.[] = []
codes (String.◌∷◌ c s) = code c ∷ codes s

-- the text up to the terminator
unfoldable pub c_string : List ℕ → List ℕ
c_string [] = []
c_string (c ∷ s) = let rest = c ∷ c_string s in if c == 0 then [] else rest

unfoldable pub starts_with : List ℕ → List ℕ → Bool
starts_with [] s = true
starts_with (p ∷ pat) [] = false
starts_with (p ∷ pat) (c ∷ s) = p == c && starts_with pat s

-- `strstr`: where in the text the pattern stands first
unfoldable pub strstr : List ℕ → List ℕ → Option ℕ
unfolding starts_with
strstr [] pat = if starts_with pat [] then some 0 else none
strstr (c ∷ s) pat =
    let later = elim (strstr s pat) as (λ _. Option ℕ) [ none ↦ none | some i ↦ some (suc i) ] in
    if starts_with pat (c ∷ s) then some 0 else later

-- %u of a number of at most `digits` digits
unfoldable pub decimal : ℕ → ℕ → List ℕ
decimal zero n = []
decimal (suc digits) n =
    let front = decimal digits (n / 10) in (if ltb n 10 then [] else front) ++ (48 + n % 10) ∷ []

-- `request`, as long as it needs to be; a `uint16_t` port has at most five digits
unfoldable pub upgrade_request : List ℕ → List ℕ → ℕ → List ℕ
unfolding decimal
upgrade_request path host port =
    codes "GET "
    ++ path
    ++ codes " HTTP/1.1\r\nHost: "
    ++ host
    ++ codes ":"
    ++ decimal 5 port
    ++ codes
        "\r\nUpgrade: websocket\r\nConnection: Upgrade\r\nSec-WebSocket-Key: dGhlIHNhbXBsZSBub25jZQ==\r\nSec-WebSocket-Version: 13\r\n\r\n"

abbrev pub header_end : List ℕ
header_end = 13 ∷ 10 ∷ 13 ∷ 10 ∷ []

abbrev pub switching : List ℕ
switching = b'1' ∷ b'0' ∷ b'1' ∷ []

-- What the bytes so far amount to: no end of the header yet, an answer without the text 101, or one with it
-- and the bytes behind the header.
pub data Answer : Type 0 where
  incomplete refused : Answer
  accepted : List ℕ → Answer

unfoldable pub read_answer : List ℕ → Answer
unfolding c_string strstr
read_answer response = elim (strstr (c_string response) header_end) [
  | none ↦ incomplete
  | some i ↦ elim (strstr (c_string response) switching) [
    | none ↦ refused
    | some _ ↦ accepted (drop (i + 4) response)
  ]
]
