-- ===== src/Slice/Lending.antt =====
-- `request_resources` of slice_orchestrator.cpp: its loop over the other slices.
use nr5g_basic_scheduler.Base.{
  ℕ, ◌+◌, ◌-◌, ◌%◌, ◌^◌, ◌≤◌, ◌<◌, min, ◌≡◌, refl, inl, inr, Bool, true, false, ltb, leb, ◌==◌, [],
  ◌∷◌, arith, Bool-cases,
}
use nr5g_basic_scheduler.Base.Table.{Table, lookup}
use nr5g_basic_scheduler.Slice.{
  SliceConfig, SliceResourceBudget, remaining, remaining_dl, remaining_ul,
}
use nr5g_basic_scheduler.Slice.Borrow.{lend, receive, Loan, keep, is_lender, borrow}

abbrev pub available_of : Bool → SliceResourceBudget → ℕ
available_of true b = b.available_rbs_dl
available_of false b = b.available_rbs_ul

abbrev pub used_of : Bool → SliceResourceBudget → ℕ
used_of true b = b.used_rbs_dl
used_of false b = b.used_rbs_ul

-- No more is used than is available, in 16 bits.
pub record IsSound (dl : Bool) (b : SliceResourceBudget) : Type 0 where
  pub within : used_of dl b ≤ available_of dl b
  pub fits : available_of dl b < 2 ^ 16

abbrev pub AllSound : Bool → Table SliceResourceBudget → Type 0
AllSound dl [] = Unit
AllSound dl ((k, b) ∷ t) = IsSound dl b × AllSound dl t

-- The blocks that the slices may still use, together.
unfoldable pub total_remaining : Bool → Table SliceResourceBudget → ℕ
total_remaining dl [] = 0
total_remaining dl ((k, b) ∷ t) = remaining dl b + total_remaining dl t

pub remaining_lem :
    (dl : Bool) (b : SliceResourceBudget)
    → IsSound dl b
    → remaining dl b ≡ available_of dl b - used_of dl b
unfolding remaining remaining_dl remaining_ul
remaining_lem true b ok = let w = ok.within in let f = ok.fits in omega arith
remaining_lem false b ok = let w = ok.within in let f = ok.fits in omega arith

lend-IsSound :
    (dl : Bool) (b : SliceResourceBudget) (n : ℕ)
    → IsSound dl b
    → n ≤ remaining dl b
    → IsSound dl (lend dl b n) × (remaining dl (lend dl b n) + n ≡ remaining dl b)
unfolding lend remaining remaining_dl remaining_ul
lend-IsSound true b n ok small =
    let w = ok.within in
    let f = ok.fits in (record { within = omega arith; fits = omega arith }, omega arith)
lend-IsSound false b n ok small =
    let w = ok.within in
    let f = ok.fits in (record { within = omega arith; fits = omega arith }, omega arith)

receive-IsSound :
    (dl : Bool) (b : SliceResourceBudget) (n : ℕ)
    → IsSound dl b
    → available_of dl b + n < 2 ^ 16
    → IsSound dl (receive dl b n)
      × (remaining dl (receive dl b n) ≡ remaining dl b + n)
      × (available_of dl (receive dl b n) ≡ available_of dl b + n)
unfolding receive remaining remaining_dl remaining_ul
receive-IsSound true b n ok small =
    let w = ok.within in
    let f = ok.fits in
    (record { within = omega arith; fits = omega arith }, omega arith, omega arith)
receive-IsSound false b n ok small =
    let w = ok.within in
    let f = ok.fits in
    (record { within = omega arith; fits = omega arith }, omega arith, omega arith)

-- What the loop has done when it ends with `r`, from `own` and `borrowed` over `budgets` on.
pub record IsLent (dl : Bool) (id to_borrow : ℕ) (budgets : Table SliceResourceBudget)
    (own : SliceResourceBudget) (borrowed : ℕ) (r : Loan) : Type 0 where
  pub same_total :
      total_remaining dl r.others + remaining dl r.own
      ≡ total_remaining dl budgets + remaining dl own
  pub entry : lookup id r.others ≡ lookup id budgets
  pub bounded : r.borrowed ≤ to_borrow
  pub granted : remaining dl r.own + borrowed ≡ remaining dl own + r.borrowed
  pub own_sound : IsSound dl r.own
  pub others_sound : AllSound dl r.others

module _ (dl : Bool) (id to_borrow : ℕ) where
  IsLent-keep :
      (k : ℕ) (b : SliceResourceBudget) (budgets : Table SliceResourceBudget)
      (own : SliceResourceBudget) (borrowed : ℕ) (r : Loan)
      → IsSound dl b
      → IsLent dl id to_borrow budgets own borrowed r
      → IsLent dl id to_borrow ((k, b) ∷ budgets) own borrowed (keep k b r)
  unfolding total_remaining
  IsLent-keep k b budgets own borrowed r ok l = record {
    same_total = let s = l.same_total in omega arith;
    entry = let e = l.entry in ground arith;
    bounded = l.bounded;
    granted = l.granted;
    own_sound = l.own_sound;
    others_sound = (ok, l.others_sound);
  }

  IsLent-take :
      (k : ℕ) (b : SliceResourceBudget) (budgets : Table SliceResourceBudget)
      (own : SliceResourceBudget) (borrowed borrowed' n : ℕ) (r : Loan)
      → (k == id) ≡ false
      → IsSound dl b
      → IsSound dl own
      → n ≤ remaining dl b
      → available_of dl own + n < 2 ^ 16
      → borrowed' ≡ borrowed + n
      → IsLent dl id to_borrow budgets (receive dl own n) borrowed' r
      → IsLent dl id to_borrow ((k, b) ∷ budgets) own borrowed (keep k (lend dl b n) r)
  unfolding total_remaining
  IsLent-take k b budgets own borrowed borrowed' n r other ok mine small room same l =
      let (lent_ok, lent_rest) = lend-IsSound dl b n ok small in
      let (own_ok, own_rest, own_avail) = receive-IsSound dl own n mine room in
      record {
        same_total = let s = l.same_total in omega arith;
        entry = rw other l.entry;
        bounded = l.bounded;
        granted = let g = l.granted in omega arith;
        own_sound = l.own_sound;
        others_sound = (lent_ok, l.others_sound);
      }

  IsLent-refl :
      (budgets : Table SliceResourceBudget) (own : SliceResourceBudget) (borrowed events : ℕ)
      → IsSound dl own
      → AllSound dl budgets
      → borrowed ≤ to_borrow
      → IsLent dl id to_borrow budgets own borrowed
          (record { others = budgets; own = own; borrowed = borrowed; events = events })
  IsLent-refl budgets own borrowed events mine all small = record {
    same_total = refl;
    entry = refl;
    bounded = small;
    granted = refl;
    own_sound = mine;
    others_sound = all;
  }

is_lender-other :
    {D : Type 0} (configs : Table (SliceConfig D)) (config : SliceConfig D) (id k : ℕ)
    → is_lender configs config id k ≡ true
    → (k == id) ≡ false
unfolding is_lender
is_lender-other configs config id k h = ground arith

pub borrow-IsLent :
    {D : Type 0} (configs : Table (SliceConfig D)) (config : SliceConfig D) (dl : Bool)
    (id to_borrow : ℕ) (budgets : Table SliceResourceBudget) (own : SliceResourceBudget)
    (borrowed events : ℕ)
    → IsSound dl own
    → AllSound dl budgets
    → borrowed ≤ to_borrow
    → available_of dl own + (to_borrow - borrowed) < 2 ^ 16
    → to_borrow < 2 ^ 16
    → IsLent dl id to_borrow budgets own borrowed
        (borrow configs config dl id to_borrow budgets own borrowed events)
unfolding borrow
borrow-IsLent configs config dl id to_borrow [] own borrowed events mine all small room top =
    IsLent-refl dl id to_borrow [] own borrowed events mine all small
borrow-IsLent configs config dl id to_borrow ((k, b) ∷ budgets) own borrowed events mine (ok, all)
      small room top =
    let n = min (to_borrow - borrowed) (remaining dl b) in
    let kept = IsLent-keep dl id to_borrow k b budgets own borrowed _ ok (
      borrow-IsLent configs config dl id to_borrow budgets own borrowed events mine all small room
        top) in
    elim (Bool-cases (is_lender configs config id k)) [
      | inr e ↦ rw (e, borrow) kept
      | inl e ↦
          let other = is_lender-other configs config id k e in
          let sum : (borrowed + n) % 2 ^ 16 ≡ borrowed + n = omega arith in
          let mine' = receive-IsSound dl own n mine (omega arith) in
          elim (Bool-cases (ltb 0 n)) [
            | inr f ↦ rw (e, borrow) (rw (f, borrow) kept)
            | inl f ↦ elim (Bool-cases (leb to_borrow (borrowed + n))) [
              | inl g ↦
                  rw (e, borrow)
                    (rw (f, borrow)
                      (rw (g, borrow)
                        (IsLent-take dl id to_borrow k b budgets own borrowed _ n _ other ok mine
                          (omega arith) (omega arith) sum
                          (IsLent-refl dl id to_borrow budgets (receive dl own n) _
                            ((events + 1) % 2 ^ 64) mine'.0 all (omega arith)))))
              | inr g ↦
                  let more = mine'.2 in
                  rw (e, borrow)
                    (rw (f, borrow)
                      (rw (g, borrow)
                        (IsLent-take dl id to_borrow k b budgets own borrowed _ n _ other ok mine
                          (omega arith) (omega arith) sum
                          (borrow-IsLent configs config dl id to_borrow budgets (receive dl own n) _
                            ((events + 1) % 2 ^ 64) mine'.0 all (omega arith) (omega arith) top))))
            ]
          ]
    ]
