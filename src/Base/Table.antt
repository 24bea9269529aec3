-- ===== src/Base/Table.antt =====
-- The source's maps with numbers as keys, as association lists. The order of the entries stands for
-- the order of iteration, which an `unordered_map` leaves open.
use Prim.Native.Nat.{ℕ}
use mathlib.Core.Path.{◌≡◌, refl, sym, ap, ◌∙◌}
use mathlib.Core.Logic.{◌⊎◌, inl, inr}
use mathlib.Core.Bool.{Bool, true, false, not, ◌&&◌, ◌||◌}
use mathlib.Core.List.{List, [], ◌∷◌}
use mathlib.Core.Option.{Option, none, some}
use native.Mathlib.Omega.{arith}
use nr5g_basic_scheduler.Base.Tests.{◌==◌, if◌then◌else◌, Bool-cases}

abbrev pub Table {ℓ} : Type ℓ → Type ℓ
Table V = List (ℕ × V)

module _ {ℓ} {V : Type ℓ} where
  -- `find`
  abbrev pub lookup : ℕ → Table V → Option V
  lookup k [] = none
  lookup k ((j, v) ∷ t) = if j == k then some v else lookup k t

  -- `count` of a key, as a test
  abbrev pub has : ℕ → Table V → Bool
  has k t = elim (lookup k t) [ none ↦ false | some v ↦ true ]

  -- `t[k] = v`
  abbrev pub insert : ℕ → V → Table V → Table V
  insert k v [] = (k, v) ∷ []
  insert k v ((j, w) ∷ t) = if j == k then (j, v) ∷ t else (j, w) ∷ insert k v t

  -- `erase` of a key
  abbrev pub erase : ℕ → Table V → Table V
  erase k [] = []
  erase k ((j, w) ∷ t) = if j == k then erase k t else (j, w) ∷ erase k t

  pub lookup-insert :
      (k j : ℕ) (v : V) (t : Table V)
      → lookup j (insert k v t) ≡ (if k == j then some v else lookup j t)
  lookup-insert k j v [] = refl
  lookup-insert k j v ((i, w) ∷ t) = ground (arith, lookup-insert k j v t)

  pub lookup-erase :
      (k j : ℕ) (t : Table V) → lookup j (erase k t) ≡ (if k == j then none else lookup j t)
  lookup-erase k j [] = ground arith
  lookup-erase k j ((i, w) ∷ t) = ground (arith, lookup-erase k j t)

  pub has-insert : (k j : ℕ) (v : V) (t : Table V) → has j (insert k v t) ≡ (k == j || has j t)
  has-insert k j v [] = ground arith
  has-insert k j v ((i, w) ∷ t) = ground (arith, has-insert k j v t)

  pub has-erase : (k j : ℕ) (t : Table V) → has j (erase k t) ≡ (not (k == j) && has j t)
  has-erase k j [] = ground arith
  has-erase k j ((i, w) ∷ t) = ground (arith, has-erase k j t)

  pub has-lookup : (k : ℕ) (v : V) (t : Table V) → lookup k t ≡ some v → has k t ≡ true
  has-lookup k v t e = rw (e, has) refl

  -- Writing what is there changes nothing.
  pub insert_same : (k : ℕ) (v : V) (t : Table V) → lookup k t ≡ some v → insert k v t ≡ t
  insert_same k v [] e = cc
  insert_same k v ((j, w) ∷ t) e = elim (Bool-cases (j == k)) [
    | inl here ↦ let same : w ≡ v = cc in rw here (ap (λ x. (j, x) ∷ t) (sym same))
    | inr other ↦ rw other (ap (λ x. (j, w) ∷ x) (insert_same k v t cc))
  ]

  -- What a table with one entry written has under a key.
  pub lookup-insert_cases :
      (k j : ℕ) (v w : V) (t : Table V)
      → lookup j (insert k v t) ≡ some w
      → (w ≡ v) ⊎ (lookup j t ≡ some w)
  lookup-insert_cases k j v w t e = elim (Bool-cases (k == j)) [
    | inl here ↦
        let both : some v ≡ some w = sym (lookup-insert k j v t ∙ rw here refl) ∙ e in inl cc
    | inr other ↦ inr (sym (lookup-insert k j v t ∙ rw other refl) ∙ e)
  ]

  pub lookup-erase-some :
      (k j : ℕ) (w : V) (t : Table V) → lookup j (erase k t) ≡ some w → lookup j t ≡ some w
  lookup-erase-some k j w t e = elim (Bool-cases (k == j)) [
    | inl here ↦ let both : none ≡ some w = sym (lookup-erase k j t ∙ rw here refl) ∙ e in cc
    | inr other ↦ sym (lookup-erase k j t ∙ rw other refl) ∙ e
  ]
