-- ===== src/Handshake/Reply.antt =====
-- The handshake's answer while it comes in: the header is found when its last byte is there, not before.
use carplay_poc.Base.{
  ℕ, ◌+◌, ◌≤◌, ◌<◌, ◌≡◌, ◌∙◌, sym, ap, refl, arith, some, List, [], ◌∷◌, ◌++◌, length, take, drop,
  take-append-drop, take-append, drop-append, drop-append_le, take-append_le, Option-cases, inl,
  inr,
}
use carplay_poc.Config.Apply.{IsText}
use carplay_poc.Handshake.{
  incomplete, accepted, c_string, strstr, read_answer, header_end, switching,
}
use carplay_poc.Handshake.Find.{c_string-append, strstr_fits, strstr-append}

-- The header of an answer that accepts: it ends with its first empty line, and has the text 101 somewhere.
pub record IsUpgrade (reply : List ℕ) : Type 0 where
  pub is_text : IsText reply
  pub end_at : ℕ
  pub end_found : strstr reply header_end ≡ some end_at
  pub end_last : length reply ≡ end_at + 4
  pub code_at : ℕ
  pub code_found : strstr reply switching ≡ some code_at

c_string_front : (s t : List ℕ) → IsText (s ++ t) → c_string s ≡ s
unfolding c_string
c_string_front [] t h = refl
c_string_front (c ∷ s) t h = ground (arith, c_string_front s t)

-- A part of the header that lacks its end.
pub read_answer_early :
    (part rest reply : List ℕ)
    → IsUpgrade reply
    → part ++ rest ≡ reply
    → length part < length reply
    → read_answer part ≡ incomplete
unfolding read_answer
read_answer_early part rest reply u e h =
    let text = c_string_front part rest (rw e u.is_text) in
    elim (Option-cases (strstr part header_end)) [
      | inl none' ↦ ground arith
      | inr (i, found) ↦
          let fits = strstr_fits part header_end i found in
          let same : strstr reply header_end ≡ some i =
            ap (λ l. strstr l header_end) (sym e) ∙ strstr-append part rest header_end i found in
          let last = u.end_last in let ended = u.end_found in absurd (ground arith)
    ]

pub read_answer_whole :
    (reply extra : List ℕ) → IsUpgrade reply → read_answer (reply ++ extra) ≡ accepted extra
unfolding read_answer
read_answer_whole reply extra u =
    let text = c_string-append reply extra u.is_text in
    let ended = strstr-append reply (c_string extra) header_end u.end_at u.end_found in
    let coded = strstr-append reply (c_string extra) switching u.code_at u.code_found in
    let behind = drop-append (u.end_at + 4) reply extra u.end_last in ground arith

-- Two ways to cut the same bytes.
pub cut_cases :
    (xs ys zs ws : List ℕ)
    → xs ++ ys ≡ zs ++ ws
    → length zs ≤ length xs
    → (extra : List ℕ) × (xs ≡ zs ++ extra) × (extra ++ ys ≡ ws)
cut_cases xs ys zs ws e h = (
  drop (length zs) xs,
  sym (take-append-drop (length zs) xs)
      ∙ ap (λ l. l ++ drop (length zs) xs)
          (sym (take-append_le (length zs) xs ys h)
            ∙ ap (take (length zs)) e
            ∙ take-append (length zs) zs ws refl),
  sym (drop-append_le (length zs) xs ys h)
      ∙ ap (drop (length zs)) e
      ∙ drop-append (length zs) zs ws refl,
)
