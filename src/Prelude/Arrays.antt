-- ===== src/Prelude/Arrays.antt =====
-- A C array is a function of its index; a use keeps the index in range or is undefined behaviour.
use Prim.Native.Nat.{ℕ, zero, suc, ◌+◌, ◌≤◌, ◌<◌}
use mathlib.Core.Path.{◌≡◌, refl, ap, ap₂, ◌∙◌}
use mathlib.Core.Bool.{false}
use mathlib.Core.List.{List, [], ◌∷◌, ◌++◌}
use native.Mathlib.Omega.{arith}
use imr_dedupe.Prelude.Tests.{◌==◌, if◌then◌else◌}

module _ {ℓ} {A : Type ℓ} where
  abbrev pub update : (ℕ → A) → ℕ → A → ℕ → A
  update f i v j = if i == j then v else f j

  pub update_self : (f : ℕ → A) (i : ℕ) (v : A) → update f i v i ≡ v
  update_self f i v = ground arith

  pub update_ne : (f : ℕ → A) (i j : ℕ) (v : A) → (i == j) ≡ false → update f i v j ≡ f j
  update_ne f i j v h = rw h refl

  abbrev pub length : List A → ℕ
  length [] = 0
  length (x ∷ xs) = suc (length xs)

  pub length-append : (xs ys : List A) → length (xs ++ ys) ≡ length xs + length ys
  length-append [] ys = omega arith
  length-append (x ∷ xs) ys = omega (arith, length-append xs ys)

  -- `f[i], f[i + 1], ..., f[i + n - 1]`
  abbrev pub slice : (ℕ → A) → ℕ → ℕ → List A
  slice f i zero = []
  slice f i (suc n) = f i ∷ slice f (i + 1) n

  pub length-slice : (f : ℕ → A) (i n : ℕ) → length (slice f i n) ≡ n
  length-slice f i zero = refl
  length-slice f i (suc n) = ap suc (length-slice f (i + 1) n)

  pub slice_congr :
      (f g : ℕ → A) (i n : ℕ)
      → ((j : ℕ) → i ≤ j → j < i + n → f j ≡ g j)
      → slice f i n ≡ slice g i n
  slice_congr f g i zero h = refl
  slice_congr f g i (suc n) h =
      ap₂ ◌∷◌ (h i (omega arith) (omega arith))
        (slice_congr f g (i + 1) n (λ j a b. h j (omega arith) (omega arith)))

  pub slice-suc : (f : ℕ → A) (i n : ℕ) → slice f i (suc n) ≡ slice f i n ++ (f (i + n) ∷ [])
  slice-suc f i zero = ap (λ (k : ℕ). f k ∷ []) (omega arith)
  slice-suc f i (suc n) =
      ap (λ l. f i ∷ l)
        (slice-suc f (i + 1) n ∙ ap (λ (k : ℕ). slice f (i + 1) n ++ (f k ∷ [])) (omega arith))

  pub slice-update_above :
      (f : ℕ → A) (i n k : ℕ) (v : A) → i + n ≤ k → slice (update f k v) i n ≡ slice f i n
  slice-update_above f i n k v h = slice_congr (update f k v) f i n (λ j a b. ground arith)

  -- appending at the end of the used part
  pub slice-update_end :
      (f : ℕ → A) (n : ℕ) (v : A) → slice (update f n v) 0 (suc n) ≡ slice f 0 n ++ (v ∷ [])
  slice-update_end f n v =
      slice-suc (update f n v) 0 n
      ∙ ap₂ (λ (l : List A) (x : A). l ++ (x ∷ [])) (slice-update_above f 0 n n v (omega arith))
          (ground arith)

  pub slice_shift : (f : ℕ → A) (i n : ℕ) → slice f (i + 1) n ≡ slice (λ j. f (j + 1)) i n
  slice_shift f i zero = refl
  slice_shift f i (suc n) = ap (λ l. f (i + 1) ∷ l) (slice_shift f (i + 1) n)

  abbrev pub replicate : ℕ → A → List A
  replicate zero a = []
  replicate (suc n) a = a ∷ replicate n a
