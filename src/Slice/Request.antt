-- ===== src/Slice/Request.antt =====
-- `request_resources` of slice_orchestrator.cpp: what it returns and changes.
use nr5g_basic_scheduler.Base.{
  ℕ, ◌+◌, ◌-◌, ◌%◌, ◌^◌, ◌≤◌, ◌<◌, min, ◌≡◌, refl, sym, ap, subst, ◌∙◌, inl, inr, Bool, true, leb,
  leb→le, leb_false→lt, ◌==◌, some, [], ◌∷◌, arith, Bool-cases,
}
use nr5g_basic_scheduler.Base.Table.{Table, lookup, insert, lookup-insert}
use nr5g_basic_scheduler.Slice.{SliceConfig, SliceResourceBudget, remaining, Orchestrator}
use nr5g_basic_scheduler.Slice.Borrow.{Loan, after_loan, request_resources}
use nr5g_basic_scheduler.Slice.Lending.{
  used_of, IsSound, AllSound, total_remaining, remaining_lem, IsLent, borrow-IsLent,
}

AllSound-lookup :
    (dl : Bool) (k : ℕ) (t : Table SliceResourceBudget) (b : SliceResourceBudget)
    → AllSound dl t
    → lookup k t ≡ some b
    → IsSound dl b
AllSound-lookup dl k [] b all e = cc
AllSound-lookup dl k ((j, c) ∷ t) b (ok, all) e = elim (Bool-cases (j == k)) [
  | inl here ↦
      let u : some c ≡ some b = sym (rw here refl) ∙ e in
      let v : c ≡ b = cc in subst (IsSound dl) v ok
  | inr other ↦ AllSound-lookup dl k t b all (sym (rw other refl) ∙ e)
]

AllSound-insert :
    (dl : Bool) (k : ℕ) (b : SliceResourceBudget) (t : Table SliceResourceBudget)
    → IsSound dl b
    → AllSound dl t
    → AllSound dl (insert k b t)
AllSound-insert dl k b [] new all = (new, tt)
AllSound-insert dl k b ((j, c) ∷ t) new (ok, all) = elim (Bool-cases (j == k)) [
  | inl here ↦ rw here (new, all)
  | inr other ↦ rw other (ok, AllSound-insert dl k b t new all)
]

total_remaining-insert :
    (dl : Bool) (k : ℕ) (old b : SliceResourceBudget) (t : Table SliceResourceBudget)
    → lookup k t ≡ some old
    → total_remaining dl (insert k b t) + remaining dl old ≡ total_remaining dl t + remaining dl b
unfolding total_remaining
total_remaining-insert dl k old b [] e = cc
total_remaining-insert dl k old b ((j, c) ∷ t) e = elim (Bool-cases (j == k)) [
  | inl here ↦
      let u : some c ≡ some old = sym (rw here refl) ∙ e in
      let v : c ≡ old = cc in
      let w : remaining dl c ≡ remaining dl old = ap (remaining dl) v in rw here (omega arith)
  | inr other ↦
      let rest = total_remaining-insert dl k old b t (sym (rw other refl) ∙ e) in
      rw other (omega arith)
]

-- What a request for `needed` blocks promises, from the state `o` to the result `r`.
pub record IsGranted {D : Type 0} (dl : Bool) (slice_id needed : ℕ) (budget : SliceResourceBudget)
    (o : Orchestrator D) (r : Orchestrator D × ℕ) : Type 0 where
  pub at_most : r.1 ≤ needed
  pub at_least : min needed (remaining dl budget) ≤ r.1
  pub spendable :
      (b : SliceResourceBudget) × (lookup slice_id (r.0.current_budgets) ≡ some b)
      × (r.1 ≤ remaining dl b)
  pub conserved : total_remaining dl (r.0.current_budgets) ≡ total_remaining dl o.current_budgets
  pub sound : AllSound dl (r.0.current_budgets)

module _ {D : Type 0} (o : Orchestrator D) (slice_id needed : ℕ) (dl : Bool)
    (budget : SliceResourceBudget) (config : SliceConfig D)
    (here : lookup slice_id o.current_budgets ≡ some budget)
    (all : AllSound dl o.current_budgets) where
  unchanged :
      (n : ℕ)
      → n ≤ needed
      → n ≤ remaining dl budget
      → min needed (remaining dl budget) ≤ n
      → IsGranted dl slice_id needed budget o (o, n)
  unchanged n small fits large = record {
    at_most = small;
    at_least = large;
    spendable = (budget, here, fits);
    conserved = refl;
    sound = all;
  }

  lent :
      (loan : Loan)
      → needed < 2 ^ 16
      → remaining dl budget ≤ needed
      → IsLent dl slice_id (needed - remaining dl budget) o.current_budgets budget 0 loan
      → IsGranted dl slice_id needed budget o
          (after_loan o slice_id loan, (remaining dl budget + loan.borrowed) % 2 ^ 16)
  unfolding after_loan
  lent loan top short l =
      let bounded = l.bounded in
      let granted = l.granted in
      let same = l.same_total in
      let total = total_remaining-insert dl slice_id budget loan.own loan.others (l.entry ∙ here) in
      record {
        at_most = omega arith;
        at_least = omega arith;
        spendable = (
          loan.own,
          lookup-insert slice_id slice_id loan.own loan.others ∙ rw (own_key slice_id) refl,
          omega arith,
        );
        conserved = omega arith;
        sound = AllSound-insert dl slice_id loan.own loan.others l.own_sound l.others_sound;
      }
    where
      own_key : (k : ℕ) → (k == k) ≡ true
      own_key k = ground arith

-- A slice with a configuration, and budgets of which none is overdrawn: the request returns no more
-- blocks than are needed, no fewer than the slice has of them, and no more than its budget then
-- allows; it creates no blocks and loses none, over all slices; and no budget is overdrawn then.
-- The blocks needed and those used by the slice fit a 16-bit number together.
pub request_resources-IsGranted :
    {D : Type 0} (o : Orchestrator D) (slice_id needed : ℕ) (dl : Bool)
    (budget : SliceResourceBudget) (config : SliceConfig D)
    → lookup slice_id o.current_budgets ≡ some budget
    → lookup slice_id o.slice_configs ≡ some config
    → AllSound dl o.current_budgets
    → used_of dl budget + needed < 2 ^ 16
    → IsGranted dl slice_id needed budget o (request_resources o slice_id needed dl)
unfolding request_resources
request_resources-IsGranted o slice_id needed dl budget config here known all room =
    let mine = AllSound-lookup dl slice_id o.current_budgets budget all here in
    let w = mine.within in
    let left = remaining_lem dl budget mine in
    rw (here, request_resources)
      (rw (known, request_resources)
        (elim (Bool-cases (leb needed (remaining dl budget))) [
          | inl enough ↦
              rw (enough, request_resources)
                (unchanged o slice_id needed dl budget config here all needed (omega arith)
                  (leb→le needed (remaining dl budget) enough) (omega arith))
          | inr short ↦
              let under = leb_false→lt needed (remaining dl budget) short in
              elim (Bool-cases (config.sla.strict_isolation)) [
                | inl strict ↦
                    rw (short, request_resources)
                      (rw (strict, request_resources)
                        (unchanged o slice_id needed dl budget config here all (remaining dl budget)
                          (omega arith) (omega arith) (omega arith)))
                | inr open_to ↦
                    rw (short, request_resources)
                      (rw (open_to, request_resources)
                        (lent o slice_id needed dl budget config here all _ (omega arith)
                          (omega arith)
                          (borrow-IsLent o.slice_configs config dl slice_id
                            (needed - remaining dl budget) o.current_budgets budget 0
                            o.stats.resource_borrowing_events mine all (omega arith) (omega arith)
                            (omega arith))))
              ]
        ]))
