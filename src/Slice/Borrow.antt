-- ===== src/Slice/Borrow.antt =====
-- `request_resources` and `return_resources` of nr_scheduler/src/slice_orchestrator.cpp.
use nr5g_basic_scheduler.Base.{
  ℕ, ◌+◌, ◌-◌, ◌%◌, ◌^◌, min, Bool, true, false, not, ltb, leb, ◌==◌, if◌then◌else◌, none, some, [],
  ◌∷◌,
}
use nr5g_basic_scheduler.Base.Int.{ℤ, pos, sub_ℕ, ◌+ℤ◌, ◌-ℤ◌, pos_part, neg_part, ltb_ℤ}
use nr5g_basic_scheduler.Base.Table.{Table, lookup, insert}
use nr5g_basic_scheduler.Slice.{SliceConfig, SliceResourceBudget, remaining, Orchestrator}

-- A 16-bit word read as `int16_t`, and the cast of an integer to `int16_t`.
unfoldable pub int16 : ℕ → ℤ
int16 n = if ltb n (2 ^ 15) then pos n else sub_ℕ n (2 ^ 16)

unfoldable pub to_int16 : ℤ → ℤ
unfolding int16
to_int16 z = int16 ((pos_part z % 2 ^ 16 + 2 ^ 16 - neg_part z % 2 ^ 16) % 2 ^ 16)

unfoldable pub min_ℤ : ℤ → ℤ → ℤ
min_ℤ a b = if ltb_ℤ b a then b else a

-- `other_budget.used_rbs_* += to_take`
unfoldable pub lend : Bool → SliceResourceBudget → ℕ → SliceResourceBudget
lend true b n = record b { used_rbs_dl = (b.used_rbs_dl + n) % 2 ^ 16 }
lend false b n = record b { used_rbs_ul = (b.used_rbs_ul + n) % 2 ^ 16 }

-- `budget.available_rbs_* += to_take` and `budget.borrowed_rbs += to_take`
unfoldable pub receive : Bool → SliceResourceBudget → ℕ → SliceResourceBudget
unfolding ◌+ℤ◌ to_int16
receive true b n = record b {
  available_rbs_dl = (b.available_rbs_dl + n) % 2 ^ 16;
  borrowed_rbs = to_int16 (b.borrowed_rbs +ℤ pos n);
}
receive false b n = record b {
  available_rbs_ul = (b.available_rbs_ul + n) % 2 ^ 16;
  borrowed_rbs = to_int16 (b.borrowed_rbs +ℤ pos n);
}

-- What the loop changes: the other budgets, the slice's own one, and two counts.
pub record Loan : Type 0 where
  pub others : Table SliceResourceBudget
  pub own : SliceResourceBudget
  pub borrowed : ℕ
  pub events : ℕ

abbrev pub keep : ℕ → SliceResourceBudget → Loan → Loan
keep id b r = record r { others = (id, b) ∷ r.others }

-- Only a positive count of borrowed blocks is lowered.
unfoldable pub give_back : SliceResourceBudget → ℕ → SliceResourceBudget
unfolding ◌-ℤ◌ to_int16 int16 min_ℤ
give_back b rbs_unused =
    if ltb_ℤ (pos 0) b.borrowed_rbs
    then record b {
      borrowed_rbs = to_int16 (b.borrowed_rbs -ℤ min_ℤ b.borrowed_rbs (int16 rbs_unused));
    }
    else b

module _ {D : Type 0} where
  -- The tests before a budget is touched.
  unfoldable pub is_lender : Table (SliceConfig D) → SliceConfig D → (slice_id other_id : ℕ) → Bool
  is_lender configs config slice_id other_id =
      if other_id == slice_id then false else elim (lookup other_id configs) [
        | none ↦ false
        | some other ↦
            if not other.sla.preemptible
            then false
            else not (leb other.sla.slice_priority config.sla.slice_priority)
      ]

  -- The loop over the budgets, over those that are left.
  unfoldable pub borrow :
      Table (SliceConfig D)
      → SliceConfig D
      → (is_downlink : Bool) → (slice_id to_borrow : ℕ) → Table SliceResourceBudget
      → SliceResourceBudget
      → (borrowed events : ℕ) → Loan
  unfolding is_lender lend receive
  borrow configs config dl slice_id to_borrow [] own borrowed events = record {
    others = [];
    own = own;
    borrowed = borrowed;
    events = events;
  }
  borrow configs config dl slice_id to_borrow ((other_id, other) ∷ budgets) own borrowed events =
      let to_take = min (to_borrow - borrowed) (remaining dl other) in
      elim (is_lender configs config slice_id other_id) [
        | false ↦
            keep other_id other
              (borrow configs config dl slice_id to_borrow budgets own borrowed events)
        | true ↦ elim (ltb 0 to_take) [
          | false ↦
              keep other_id other
                (borrow configs config dl slice_id to_borrow budgets own borrowed events)
          | true ↦ elim (leb to_borrow (borrowed + to_take)) [
            | true ↦ record {
              others = (other_id, lend dl other to_take) ∷ budgets;
              own = receive dl own to_take;
              borrowed = (borrowed + to_take) % 2 ^ 16;
              events = (events + 1) % 2 ^ 64;
            }
            | false ↦ keep other_id (lend dl other to_take) (
                borrow configs config dl slice_id to_borrow budgets (receive dl own to_take)
                  ((borrowed + to_take) % 2 ^ 16) ((events + 1) % 2 ^ 64))
          ]
        ]
      ]

  -- Where the slice has to borrow: its entry is skipped by the loop, and written by it.
  unfoldable pub after_loan : Orchestrator D → (slice_id : ℕ) → Loan → Orchestrator D
  after_loan o slice_id loan = record o {
    current_budgets = insert slice_id loan.own loan.others;
    stats = record o.stats { resource_borrowing_events = loan.events };
  }

  unfoldable pub request_resources :
      Orchestrator D → (slice_id rbs_needed : ℕ) → (is_downlink : Bool) → Orchestrator D × ℕ
  unfolding borrow after_loan
  request_resources o slice_id rbs_needed dl = elim (lookup slice_id o.current_budgets) [
    | none ↦ (o, 0)
    | some budget ↦ elim (lookup slice_id o.slice_configs) [
      | none ↦ (o, 0)
      | some config ↦ elim (leb rbs_needed (remaining dl budget)) [
        | true ↦ (o, rbs_needed)
        | false ↦ elim config.sla.strict_isolation [
          | true ↦ (o, remaining dl budget)
          | false ↦
              let loan =
                borrow o.slice_configs config dl slice_id (rbs_needed - remaining dl budget)
                  o.current_budgets budget 0 o.stats.resource_borrowing_events in
              (after_loan o slice_id loan, (remaining dl budget + loan.borrowed) % 2 ^ 16)
        ]
      ]
    ]
  ]

  unfoldable pub return_resources :
      Orchestrator D → (slice_id rbs_unused : ℕ) → (is_downlink : Bool) → Orchestrator D
  unfolding give_back
  return_resources o slice_id rbs_unused dl = elim (lookup slice_id o.current_budgets) [
    | none ↦ o
    | some budget ↦ record o {
      current_budgets = insert slice_id (give_back budget rbs_unused) o.current_budgets;
      shared_pool_dl = if dl then (o.shared_pool_dl + rbs_unused) % 2 ^ 16 else o.shared_pool_dl;
      shared_pool_ul = if dl then o.shared_pool_ul else (o.shared_pool_ul + rbs_unused) % 2 ^ 16;
    }
  ]
