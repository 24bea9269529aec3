-- ===== src/Base/Lists.antt =====
-- Lists measured and indexed by native numbers, under the library's names.
use Prim.Native.Nat.{ℕ, zero, suc, ◌+◌, ◌<◌}
use mathlib.Core.Path.{◌≡◌, refl, sym, ap}
use mathlib.Core.Logic.{◌≢◌, ◌⊎◌, inl, inr}
use mathlib.Core.List.{List, [], ◌∷◌, ◌++◌}
use mathlib.Core.Option.{Option, none, some}
use native.Mathlib.Omega.{arith}

module _ {ℓ} {A : Type ℓ} where
  abbrev pub length : List A → ℕ
  length [] = 0
  length (x ∷ xs) = suc (length xs)

  abbrev pub get_elem? : List A → ℕ → Option A
  get_elem? [] i = none
  get_elem? (x ∷ xs) zero = some x
  get_elem? (x ∷ xs) (suc i) = get_elem? xs i

  abbrev pub get_or : List A → ℕ → A → A
  get_or [] i d = d
  get_or (x ∷ xs) zero d = x
  get_or (x ∷ xs) (suc i) d = get_or xs i d

  -- A write out of bounds changes nothing.
  abbrev pub set : List A → ℕ → A → List A
  set [] i v = []
  set (x ∷ xs) zero v = v ∷ xs
  set (x ∷ xs) (suc i) v = x ∷ set xs i v

  -- Every element has the property.
  abbrev pub All {κ} : (A → Type κ) → List A → Type κ
  All P [] = Unit
  All P (x ∷ xs) = P x × All P xs

module _ {ℓ} {A : Type ℓ} where
  pub length-append : (xs ys : List A) → length (xs ++ ys) ≡ length xs + length ys
  length-append [] ys = omega arith
  length-append (x ∷ xs) ys = omega (arith, length-append xs ys)

  pub length-set : (xs : List A) (i : ℕ) (v : A) → length (set xs i v) ≡ length xs
  length-set [] i v = refl
  length-set (x ∷ xs) zero v = refl
  length-set (x ∷ xs) (suc i) v = ap suc (length-set xs i v)

  pub get_elem?-set_self :
      (xs : List A) (i : ℕ) (v : A) → i < length xs → get_elem? (set xs i v) i ≡ some v
  get_elem?-set_self [] i v h = elim h [ ]
  get_elem?-set_self (x ∷ xs) zero v h = refl
  get_elem?-set_self (x ∷ xs) (suc i) v h = get_elem?-set_self xs i v (omega arith)

  pub get_elem?-set_ne :
      (xs : List A) {i j : ℕ} (v : A) → i ≢ j → get_elem? (set xs i v) j ≡ get_elem? xs j
  get_elem?-set_ne [] v h = refl
  get_elem?-set_ne (x ∷ xs) {i = zero} {j = zero} v h = absurd (h refl)
  get_elem?-set_ne (x ∷ xs) {i = zero} {j = suc j} v h = refl
  get_elem?-set_ne (x ∷ xs) {i = suc i} {j = zero} v h = refl
  get_elem?-set_ne (x ∷ xs) {i = suc i} {j = suc j} v h = get_elem?-set_ne xs v (λ e. h (ap suc e))

  pub get_elem?_below : (xs : List A) (i : ℕ) → i < length xs → (x : A) × (get_elem? xs i ≡ some x)
  get_elem?_below [] i h = elim h [ ]
  get_elem?_below (x ∷ xs) zero h = (x, refl)
  get_elem?_below (x ∷ xs) (suc i) h = get_elem?_below xs i (omega arith)

  -- An index with an element is within the list.
  pub get_elem?_bound : (xs : List A) (i : ℕ) (x : A) → get_elem? xs i ≡ some x → i < length xs
  get_elem?_bound [] i x at = cc
  get_elem?_bound (y ∷ xs) zero x at = omega arith
  get_elem?_bound (y ∷ xs) (suc i) x at = omega (arith, get_elem?_bound xs i x at)

  -- Writing what is there changes nothing.
  pub set_same : (xs : List A) (i : ℕ) (x : A) → get_elem? xs i ≡ some x → set xs i x ≡ xs
  set_same [] i x at = refl
  set_same (y ∷ xs) zero x at = let same : y ≡ x = cc in ap (λ z. z ∷ xs) (sym same)
  set_same (y ∷ xs) (suc i) x at = ap (λ zs. y ∷ zs) (set_same xs i x at)

  -- What a list with one element written has at an index: the element written or what was there.
  pub get_elem?-set_cases :
      (xs : List A) (i j : ℕ) (v x : A)
      → get_elem? (set xs i v) j ≡ some x
      → (x ≡ v) ⊎ (get_elem? xs j ≡ some x)
  get_elem?-set_cases [] i j v x at = inr at
  get_elem?-set_cases (y ∷ xs) zero zero v x at = inl cc
  get_elem?-set_cases (y ∷ xs) zero (suc j) v x at = inr at
  get_elem?-set_cases (y ∷ xs) (suc i) zero v x at = inr at
  get_elem?-set_cases (y ∷ xs) (suc i) (suc j) v x at = get_elem?-set_cases xs i j v x at

  -- What a list with one element more has at an index.
  pub get_elem?-append_cases :
      (xs : List A) (v : A) (j : ℕ) (x : A)
      → get_elem? (xs ++ v ∷ []) j ≡ some x
      → (x ≡ v) ⊎ (get_elem? xs j ≡ some x)
  get_elem?-append_cases [] v zero x at = inl cc
  get_elem?-append_cases [] v (suc j) x at = cc
  get_elem?-append_cases (y ∷ xs) v zero x at = inr at
  get_elem?-append_cases (y ∷ xs) v (suc j) x at = get_elem?-append_cases xs v j x at
