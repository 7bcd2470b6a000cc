-- ===== src/Base/Tabulate.antt =====
-- Lists given by a function of the index.
use Prim.Native.Nat.{ℕ, zero, suc, ◌+◌, ◌-◌, ◌<◌}
use mathlib.Core.Path.{◌≡◌, refl, ap, ap₂, ◌∙◌}
use mathlib.Core.List.{List, [], ◌∷◌, ◌++◌}
use native.Mathlib.Omega.{arith}
use carplay_poc.Base.Lists.{length, get_or, take, drop}

-- The first `n` values of a function.
abbrev pub tabulate {ℓ} : {A : Type ℓ} → ℕ → (ℕ → A) → List A
tabulate zero f = []
tabulate (suc n) f = f 0 ∷ tabulate n (λ i. f (suc i))

module _ {ℓ} {A : Type ℓ} where
  pub length-tabulate : (n : ℕ) (f : ℕ → A) → length (tabulate n f) ≡ n
  length-tabulate zero f = refl
  length-tabulate (suc n) f = ap suc (length-tabulate n (λ i. f (suc i)))

  pub tabulate_ext :
      (n : ℕ) (f g : ℕ → A) → ((i : ℕ) → i < n → f i ≡ g i) → tabulate n f ≡ tabulate n g
  tabulate_ext zero f g h = refl
  tabulate_ext (suc n) f g h =
      ap₂ ◌∷◌ (h 0 (omega arith))
        (tabulate_ext n (λ i. f (suc i)) (λ i. g (suc i)) (λ i p. h (suc i) (omega arith)))

  pub tabulate-add :
      (n m : ℕ) (f : ℕ → A) → tabulate (n + m) f ≡ tabulate n f ++ tabulate m (λ i. f (n + i))
  tabulate-add zero m f =
      ap (λ k. tabulate k f) (omega arith)
      ∙ tabulate_ext m f (λ i. f (0 + i)) (λ i p. ap f (omega arith))
  tabulate-add (suc n) m f =
      ap (λ k. tabulate k f) (shift n)
      ∙ ap (λ l. f 0 ∷ l) (tabulate-add n m (λ i. f (suc i)))
      ∙ ap (λ l. f 0 ∷ (tabulate n (λ i. f (suc i)) ++ l))
          (tabulate_ext m (λ i. f (suc (n + i))) (λ i. f (suc n + i)) (λ i p. ap f (omega arith)))
    where
      shift : (n : ℕ) → suc n + m ≡ suc (n + m)
      shift n = omega arith

  pub tabulate-get_or : (xs : List A) (d : A) → tabulate (length xs) (λ i. get_or xs i d) ≡ xs
  tabulate-get_or [] d = refl
  tabulate-get_or (x ∷ xs) d = ap (λ l. x ∷ l) (tabulate-get_or xs d)

  pub get_or-take :
      (n : ℕ) (xs : List A) (i : ℕ) (d : A) → i < n → get_or (take n xs) i d ≡ get_or xs i d
  get_or-take zero xs i d h = absurd (omega arith)
  get_or-take (suc n) [] i d h = refl
  get_or-take (suc n) (x ∷ xs) zero d h = refl
  get_or-take (suc n) (x ∷ xs) (suc i) d h = get_or-take n xs i d (omega arith)

  pub get_or-drop :
      (n : ℕ) (xs : List A) (i : ℕ) (d : A) → get_or (drop n xs) i d ≡ get_or xs (n + i) d
  get_or-drop zero xs i d = ap (λ k. get_or xs k d) (omega arith)
  get_or-drop (suc n) [] i d = refl
  get_or-drop (suc n) (x ∷ xs) i d = get_or-drop n xs i d ∙ ap (λ k. get_or (x ∷ xs) k d) (shift n)
    where
      shift : (n : ℕ) → suc (n + i) ≡ suc n + i
      shift n = omega arith

-- `n` copies of one value.
unfoldable pub replicate {ℓ} : {A : Type ℓ} → ℕ → A → List A
replicate zero a = []
replicate (suc n) a = a ∷ replicate n a

pub length-replicate {ℓ} : {A : Type ℓ} (n : ℕ) (a : A) → length (replicate n a) ≡ n
unfolding replicate
length-replicate zero a = refl
length-replicate (suc n) a = ap suc (length-replicate n a)

pub replicate-suc {ℓ} :
    {A : Type ℓ} (n : ℕ) (a : A) → 0 < n → replicate n a ≡ a ∷ replicate (n - 1) a
unfolding replicate
replicate-suc zero a h = absurd (omega arith)
replicate-suc (suc n) a h = ap (λ k. a ∷ replicate k a) (omega arith)
