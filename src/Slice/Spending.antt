-- ===== src/Slice/Spending.antt =====
-- `report_scheduling` and `is_scheduling_allowed` of slice_orchestrator.cpp.
use nr5g_basic_scheduler.Base.{
  ℕ, ◌+◌, ◌-◌, ◌%◌, ◌^◌, ◌≤◌, ◌≡◌, refl, ap, ◌∙◌, Bool, true, false, leb, ◌==◌, some, arith,
}
use nr5g_basic_scheduler.Base.Table.{Table, lookup, lookup-insert}
use nr5g_basic_scheduler.Slice.{
  SliceResourceBudget, remaining, remaining_dl, remaining_ul, Orchestrator,
}
use nr5g_basic_scheduler.Slice.Lending.{available_of, used_of, IsSound}
use nr5g_basic_scheduler.Slice.Watch.{
  is_scheduling_allowed, report_scheduling, modify, spend, note_scheduling,
}

own_key : (k : ℕ) → (k == k) ≡ true
own_key k = ground arith

lookup-modify :
    {V : Type 0} (k : ℕ) (f : V → V) (t : Table V) (v : V)
    → lookup k t ≡ some v
    → lookup k (modify k f t) ≡ some (f v)
unfolding modify
lookup-modify k f t v e = rw (e, modify) (lookup-insert k k (f v) t ∙ rw (own_key k) refl)

remaining-spend :
    (dl : Bool) (b : SliceResourceBudget) (rbs : ℕ)
    → remaining dl (spend dl b rbs)
      ≡ (available_of dl b + 2 ^ 16 - (used_of dl b + rbs) % 2 ^ 16) % 2 ^ 16
unfolding remaining remaining_dl remaining_ul spend
remaining-spend true b rbs = refl
remaining-spend false b rbs = refl

allowed_after :
    {D : Type 0} (o : Orchestrator D) (rnti slice_id rbs bytes next : ℕ) (dl : Bool)
    (budget : SliceResourceBudget)
    → lookup rnti o.ue_slice_map ≡ some slice_id
    → lookup slice_id o.current_budgets ≡ some budget
    → is_scheduling_allowed (report_scheduling o rnti rbs bytes dl) rnti next dl
      ≡ leb next ((available_of dl budget + 2 ^ 16 - (used_of dl budget + rbs) % 2 ^ 16) % 2 ^ 16)
unfolding is_scheduling_allowed report_scheduling
allowed_after {D} o rnti slice_id rbs bytes next dl budget ue here =
    let after : Orchestrator D = record o {
      current_budgets = modify slice_id (λ b. spend dl b rbs) o.current_budgets;
      slice_states = modify slice_id (λ s. note_scheduling dl s rbs bytes) o.slice_states;
    } in
    let reported : report_scheduling o rnti rbs bytes dl ≡ after =
      rw (ue, report_scheduling) refl in
    let spent = lookup-modify slice_id (λ b. spend dl b rbs) o.current_budgets budget here in
    ap (λ x. is_scheduling_allowed x rnti next dl) reported
    ∙ rw (ue, is_scheduling_allowed)
        (rw (spent, is_scheduling_allowed) (ap (leb next) (remaining-spend dl budget rbs)))

-- While the blocks reported stay within the budget of the UE's slice, a further request of the UE is
-- allowed exactly if it stays within the budget too.
is_scheduling_allowed-report_scheduling :
    {D : Type 0} (o : Orchestrator D) (rnti slice_id rbs bytes next : ℕ) (dl : Bool)
    (budget : SliceResourceBudget)
    → lookup rnti o.ue_slice_map ≡ some slice_id
    → lookup slice_id o.current_budgets ≡ some budget
    → IsSound dl budget
    → used_of dl budget + rbs ≤ available_of dl budget
    → is_scheduling_allowed (report_scheduling o rnti rbs bytes dl) rnti next dl
      ≡ leb (used_of dl budget + rbs + next) (available_of dl budget)
is_scheduling_allowed-report_scheduling o rnti slice_id rbs bytes next dl budget ue here ok within =
    let fits = ok.fits in
    let left : (available_of dl budget + 2 ^ 16 - (used_of dl budget + rbs) % 2 ^ 16) % 2 ^ 16
        ≡ available_of dl budget - (used_of dl budget + rbs) =
      omega arith in
    allowed_after o rnti slice_id rbs bytes next dl budget ue here
    ∙ ap (leb next) left
    ∙ moved next (used_of dl budget + rbs) (available_of dl budget) within
  where
    moved : (n u a : ℕ) → u ≤ a → leb n (a - u) ≡ leb (u + n) a
    moved n u a h = ground arith
