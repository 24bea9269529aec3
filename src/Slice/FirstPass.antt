-- ===== src/Slice/FirstPass.antt =====
-- `calculate_budgets` of slice_orchestrator.cpp: its first pass.
use nr5g_basic_scheduler.Base.{
  ℕ, ◌+◌, ◌%◌, ◌^◌, ◌≤◌, ◌<◌, min, ◌≡◌, refl, sym, ap, ap₂, subst, ◌∙◌, inl, inr, true, false, ◌==◌,
  none, some, [], ◌∷◌, arith, Bool-cases, Option-cases,
}
use nr5g_basic_scheduler.Base.Int.{pos}
use nr5g_basic_scheduler.Base.Table.{Table, lookup, has, insert, lookup-insert}
use nr5g_basic_scheduler.Slice.{SliceConfig, SliceResourceBudget}
use nr5g_basic_scheduler.Slice.Budgets.{sub_u16, guarantee}

-- No key stands twice.
abbrev pub Distinct {ℓ} : {V : Type ℓ} → Table V → Type 0
Distinct [] = Unit
Distinct ((k, v) ∷ t) = (has k t ≡ false) × Distinct t

-- The blocks that the slices are guaranteed, together.
unfoldable pub total_guaranteed : {D : Type 0} → Table (SliceConfig D) → ℕ
total_guaranteed [] = 0
total_guaranteed ((k, c) ∷ t) = c.sla.guaranteed_rbs + total_guaranteed t

abbrev pub guaranteed_budget : ℕ → ℕ → SliceResourceBudget
guaranteed_budget k n = record {
  slice_id = k;
  available_rbs_dl = n;
  available_rbs_ul = n;
  used_rbs_dl = 0;
  used_rbs_ul = 0;
  borrowed_rbs = pos 0;
}

has-false : {V : Type 0} (k : ℕ) (t : Table V) → has k t ≡ false → lookup k t ≡ none
has-false k t h = elim (Option-cases (lookup k t)) [
  | inl e ↦ e
  | inr (v, e) ↦ let u : true ≡ false = sym (rw (e, has) refl) ∙ h in cc
]

-- Where the guarantees fit the cell, the first pass gives each slice its own in full.
pub record IsGuaranteed {D : Type 0} (configs : Table (SliceConfig D)) (given : ℕ)
    (budgets : Table SliceResourceBudget) (r : Table SliceResourceBudget × ℕ × ℕ) : Type 0 where
  pub given_dl : r.1 ≡ given + total_guaranteed configs
  pub given_ul : r.2 ≡ given + total_guaranteed configs
  pub in_full :
      (k : ℕ) (c : SliceConfig D)
      → lookup k configs ≡ some c
      → lookup k (r.0) ≡ some (guaranteed_budget k c.sla.guaranteed_rbs)
  pub others : (k : ℕ) → lookup k configs ≡ none → lookup k (r.0) ≡ lookup k budgets

pub guarantee-IsGuaranteed :
    {D : Type 0} (total : ℕ) (configs : Table (SliceConfig D)) (given : ℕ)
    (budgets : Table SliceResourceBudget)
    → Distinct configs
    → given + total_guaranteed configs ≤ total
    → total < 2 ^ 16
    → IsGuaranteed configs given budgets (guarantee total configs given given budgets)
unfolding guarantee total_guaranteed
guarantee-IsGuaranteed total [] given budgets d fits top = record {
  given_dl = omega arith;
  given_ul = omega arith;
  in_full = λ k c e. cc;
  others = λ k e. refl;
}
guarantee-IsGuaranteed {D} total ((k, c) ∷ configs) given budgets (fresh, d) fits top =
    let g = c.sla.guaranteed_rbs in
    let full : min g (sub_u16 total given) ≡ g = omega arith in
    let sum : (given + g) % 2 ^ 16 ≡ given + g = omega arith in
    let new : Table SliceResourceBudget = insert k (guaranteed_budget k g) budgets in
    let rest = guarantee-IsGuaranteed total configs (given + g) new d (omega arith) top in
    let result : ℕ → ℕ → Type 0 = λ n s.
      IsGuaranteed {D = D} ((k, c) ∷ configs) given budgets
        (guarantee total configs s s (insert k (guaranteed_budget k n) budgets)) in
    let gone : lookup k configs ≡ none = has-false k configs fresh in
    subst (λ n. result n ((given + n) % 2 ^ 16)) (sym full)
      (subst (result g) (sym sum) (record {
        given_dl = let e = rest.given_dl in omega arith;
        given_ul = let e = rest.given_ul in omega arith;
        in_full = λ j b e. elim (Bool-cases (k == j)) [
          | inl here ↦
              let u : some c ≡ some b = sym (rw here refl) ∙ e in
              let v : c ≡ b = cc in
              let w : k ≡ j = ground arith in
              rest.others j (subst (λ n. lookup n configs ≡ none) w gone)
              ∙ lookup-insert k j (guaranteed_budget k g) budgets
              ∙ rw here (
                  ap some
                    (ap₂ (λ n (x : SliceConfig D). guaranteed_budget n x.sla.guaranteed_rbs) w v))
          | inr other ↦ rest.in_full j b (sym (rw other refl) ∙ e)
        ];
        others = λ j e. elim (Bool-cases (k == j)) [
          | inl here ↦ let u : some c ≡ none = sym (rw here refl) ∙ e in cc
          | inr other ↦
              rest.others j (sym (rw other refl) ∙ e)
              ∙ lookup-insert k j (guaranteed_budget k g) budgets
              ∙ rw other refl
        ];
      }))

pub guaranteed-le-total :
    {D : Type 0} (configs : Table (SliceConfig D)) (k : ℕ) (c : SliceConfig D)
    → lookup k configs ≡ some c
    → c.sla.guaranteed_rbs ≤ total_guaranteed configs
unfolding total_guaranteed
guaranteed-le-total [] k c e = cc
guaranteed-le-total {D} ((j, b) ∷ configs) k c e = elim (Bool-cases (j == k)) [
  | inl here ↦
      let u : some b ≡ some c = sym (rw here refl) ∙ e in
      let v : b ≡ c = cc in
      let w = ap (λ (x : SliceConfig D). x.sla.guaranteed_rbs) v in omega arith
  | inr other ↦ let rest = guaranteed-le-total configs k c (sym (rw other refl) ∙ e) in omega arith
]
