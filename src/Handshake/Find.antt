-- ===== src/Handshake/Find.antt =====
-- The search of the handshake's answer: what is found in the first bytes is found in all.
use carplay_poc.Base.{
  ℕ, suc, ◌+◌, ◌≤◌, ◌≡◌, ◌⊎◌, ◌∙◌, refl, arith, true, false, some, List, [], ◌∷◌, ◌++◌, length,
  Bool-cases, Option-cases, inl, inr,
}
use carplay_poc.Config.Apply.{IsText}
use carplay_poc.Handshake.{c_string, starts_with, strstr}

pub c_string-append : (s t : List ℕ) → IsText s → c_string (s ++ t) ≡ s ++ c_string t
unfolding c_string
c_string-append [] t h = refl
c_string-append (c ∷ s) t h = ground (arith, c_string-append s t)

-- What begins a text begins its continuations, and nothing else of its length does.
starts_with-append :
    (pat s t : List ℕ) → length pat ≤ length s → starts_with pat (s ++ t) ≡ starts_with pat s
unfolding starts_with
starts_with-append [] s t h = refl
starts_with-append (p ∷ pat) [] t h = absurd (omega arith)
starts_with-append (p ∷ pat) (c ∷ s) t h = ground (arith, starts_with-append pat s t)

starts_with_fits : (pat s : List ℕ) → starts_with pat s ≡ true → length pat ≤ length s
unfolding starts_with
starts_with_fits [] s h = omega arith
starts_with_fits (p ∷ pat) [] h = ground arith
starts_with_fits (p ∷ pat) (c ∷ s) h = ground (arith, starts_with_fits pat s)

-- A text is found at its front, or further on.
strstr_cases :
    (c : ℕ) (s pat : List ℕ) (i : ℕ)
    → strstr (c ∷ s) pat ≡ some i
    → ((starts_with pat (c ∷ s) ≡ true) × (i ≡ 0))
      ⊎ ((j : ℕ) × (starts_with pat (c ∷ s) ≡ false) × (strstr s pat ≡ some j) × (i ≡ suc j))
unfolding strstr
strstr_cases c s pat i h = elim (Bool-cases (starts_with pat (c ∷ s))) [
  | inl here ↦ inl (here, ground arith)
  | inr not_here ↦ elim (Option-cases (strstr s pat)) [
    | inl e ↦ absurd (ground arith)
    | inr (j, e) ↦ inr (j, not_here, e, ground arith)
  ]
]

strstr-nil : (s : List ℕ) → strstr s [] ≡ some 0
unfolding strstr
strstr-nil [] = refl
strstr-nil (c ∷ s) = refl

-- The pattern stands within the text.
pub strstr_fits : (s pat : List ℕ) (i : ℕ) → strstr s pat ≡ some i → i + length pat ≤ length s
strstr_fits [] pat i h = unfold strstr in ground (arith, starts_with_fits pat [])
strstr_fits (c ∷ s) pat i h = elim (strstr_cases c s pat i h) [
  | inl (here, e) ↦ omega (arith, starts_with_fits pat (c ∷ s) here)
  | inr (j, _, e, e') ↦ omega (arith, strstr_fits s pat j e)
]

-- What is found in a text is found at the same place in its continuations.
pub strstr-append :
    (s t pat : List ℕ) (i : ℕ) → strstr s pat ≡ some i → strstr (s ++ t) pat ≡ some i
unfolding strstr
strstr-append [] t [] i h = strstr-nil t ∙ h
strstr-append [] t (p ∷ pat) i h = cc
strstr-append (c ∷ s) t pat i h = elim (strstr_cases c s pat i h) [
  | inl (here, e) ↦
      let within = starts_with_fits pat (c ∷ s) here in
      ground (arith, starts_with-append pat (c ∷ s) t within)
  | inr (j, not_here, e, e') ↦
      let within : length pat ≤ length (c ∷ s) = omega (arith, strstr_fits s pat j e) in
      let same = starts_with-append pat (c ∷ s) t within in
      let later = strstr-append s t pat j e in ground arith
]
