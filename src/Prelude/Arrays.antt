-- ===== src/Prelude/Arrays.antt =====
-- C arrays as functions of the index. A store changes one entry; no length is kept.
use Prim.Native.Nat.{ℕ, zero, suc, ◌+◌, ◌≤◌, ◌<◌}
use mathlib.Core.Path.{◌≡◌, refl, sym, ap, ap₂, ◌∙◌}
use mathlib.Core.List.{List, [], ◌∷◌, ◌++◌}
use mathlib.Core.Logic.{◌≢◌}
use native.Mathlib.Nat.{zero-add, add-zero, suc-add}
use native.Mathlib.Omega.{arith}
use rpi_pico_card_reader.Prelude.Tests.{◌==◌, if◌then◌else◌}
use rpi_pico_card_reader.Prelude.Lists.{length, get_or}

abbrev pub Array {ℓ} : Type ℓ → Type ℓ
Array A = ℕ → A

module _ {ℓ} {A : Type ℓ} where
  -- a[i] = v
  abbrev pub store : Array A → ℕ → A → Array A
  store a i v j = if j == i then v else a j

  -- memcpy(&a[i], xs, ...)
  abbrev pub store_list : Array A → ℕ → List A → Array A
  store_list a i [] = a
  store_list a i (x ∷ xs) = store_list (store a i x) (i + 1) xs

  -- The n entries from a[i] on.
  abbrev pub window : Array A → ℕ → ℕ → List A
  window a i zero = []
  window a i (suc n) = a i ∷ window a (i + 1) n

  pub store_self : (a : Array A) (i : ℕ) (v : A) → store a i v i ≡ v
  store_self a i v = ground arith

  pub store-ne : (a : Array A) (i : ℕ) (v : A) {j : ℕ} → j ≢ i → store a i v j ≡ a j
  store-ne a i v h = ground arith

  pub length-window : (a : Array A) (i n : ℕ) → length (window a i n) ≡ n
  length-window a i zero = refl
  length-window a i (suc n) = ap suc (length-window a (i + 1) n)

  pub window_ext :
      (a b : Array A) (i n : ℕ)
      → ((j : ℕ) → i ≤ j → j < i + n → a j ≡ b j)
      → window a i n ≡ window b i n
  window_ext a b i zero h = refl
  window_ext a b i (suc n) h =
      ap₂ (λ x xs. x ∷ xs) (h i (omega arith) (omega arith))
        (window_ext a b (i + 1) n (λ j p q. h j (omega arith) (omega arith)))

  pub window_shift : (a : Array A) (k i n : ℕ) → window (λ j. a (k + j)) i n ≡ window a (k + i) n
  window_shift a k i zero = refl
  window_shift a k i (suc n) =
      ap (λ xs. a (k + i) ∷ xs)
        (window_shift a k (i + 1) n
          ∙ ap (λ j. window a j n) {x = k + (i + 1)} {y = k + i + 1} (omega arith))

  pub window-get_or : (xs : List A) (d : A) → window (λ i. get_or xs i d) 0 (length xs) ≡ xs
  window-get_or [] d = refl
  window-get_or (x ∷ xs) d =
      let f : Array A = λ i. get_or (x ∷ xs) i d in
      ap (λ ys. x ∷ ys)
        (ap (λ k. window f k (length xs)) {x = 0 + 1} {y = 1 + 0} (omega arith)
          ∙ sym (window_shift f 1 0 (length xs))
          ∙ window_ext (λ j. f (1 + j)) (λ i. get_or xs i d) 0 (length xs)
              (λ j p q. ap f {x = 1 + j} {y = suc j} (omega arith))
          ∙ window-get_or xs d)

  pub window-append :
      (a : Array A) (i m n : ℕ) → window a i (m + n) ≡ window a i m ++ window a (i + m) n
  window-append a i zero n = simp (zero-add, add-zero)
  window-append a i (suc m) n =
      simp (suc-add, window-append a (i + 1) m n)
        (ap (λ k. a i ∷ (window a (i + 1) m ++ window a k n)) (omega arith))

  pub store_list_below :
      (a : Array A) (i : ℕ) (xs : List A) (j : ℕ) → j < i → store_list a i xs j ≡ a j
  store_list_below a i [] j h = refl
  store_list_below a i (x ∷ xs) j h = ground (arith, store_list_below (store a i x) (i + 1) xs j)

  pub window-store_list :
      (a : Array A) (i : ℕ) (xs : List A) → window (store_list a i xs) i (length xs) ≡ xs
  window-store_list a i [] = refl
  window-store_list a i (x ∷ xs) =
      ap₂ (λ y ys. y ∷ ys) (ground (arith, store_list_below (store a i x) (i + 1) xs i))
        (window-store_list (store a i x) (i + 1) xs)

  -- A store just past a window extends it.
  pub window-store_end :
      (a : Array A) (i n : ℕ) (v : A)
      → window (store a (i + n) v) i (n + 1) ≡ window a i n ++ v ∷ []
  window-store_end a i n v =
      window-append (store a (i + n) v) i n 1
      ∙ ap₂ (λ xs y. xs ++ y ∷ [])
          (window_ext (store a (i + n) v) a i n (λ j p q. store-ne a (i + n) v (omega arith)))
          (store_self a (i + n) v)
