-- ===== src/Slice/Budgets.antt =====
-- `calculate_budgets` and `get_budget` of nr_scheduler/src/slice_orchestrator.cpp. The map is cleared
-- first, so that its order of iteration is taken to be that of the configurations.
use nr5g_basic_scheduler.Base.{
  ℕ, ◌+◌, ◌-◌, ◌%◌, ◌^◌, min, ltb, if◌then◌else◌, ◌||◌, ◌&&◌, none, some, [], ◌∷◌,
}
use nr5g_basic_scheduler.Base.Int.{pos}
use nr5g_basic_scheduler.Base.Table.{Table, lookup, insert}
use nr5g_basic_scheduler.Base.Floats.{Floats, number}
use nr5g_basic_scheduler.Slice.{SliceConfig, SliceResourceBudget, no_budget, Orchestrator}

-- `a - b` of two `uint16_t`, cast back.
unfoldable pub sub_u16 : ℕ → ℕ → ℕ
sub_u16 a b = (a + 2 ^ 16 - b) % 2 ^ 16

-- The pass over the configurations: each slice gets its guaranteed blocks as far as the cell has
-- them. Returns the budgets and the blocks given out.
unfoldable pub guarantee :
    {D : Type 0}
    → (total_rbs : ℕ) → Table (SliceConfig D)
    → (allocated_dl allocated_ul : ℕ) → Table SliceResourceBudget
    → Table SliceResourceBudget × ℕ × ℕ
unfolding sub_u16
guarantee total_rbs [] dl ul budgets = (budgets, dl, ul)
guarantee total_rbs ((slice_id, config) ∷ configs) dl ul budgets =
    let available_dl = min config.sla.guaranteed_rbs (sub_u16 total_rbs dl) in
    let available_ul = min config.sla.guaranteed_rbs (sub_u16 total_rbs ul) in
    guarantee total_rbs configs ((dl + available_dl) % 2 ^ 16) ((ul + available_ul) % 2 ^ 16) (
      insert slice_id
        (record {
          slice_id = slice_id;
          available_rbs_dl = available_dl;
          available_rbs_ul = available_ul;
          used_rbs_dl = 0;
          used_rbs_ul = 0;
          borrowed_rbs = pos 0;
        })
        budgets)

module _ (F : Floats) where
  unfoldable pub sum_shares : Table (SliceConfig F.D) → F.D → F.D
  sum_shares [] total = total
  sum_shares ((id, config) ∷ configs) total =
      sum_shares configs (F.add total config.sla.resource_share)

  -- The blocks of the shared pool for a slice, at most up to its maximum where it has one.
  unfoldable pub extra_rbs : SliceConfig F.D → F.D → (pool available : ℕ) → ℕ
  unfolding sub_u16
  extra_rbs config total_share pool available =
      let extra = F.to_u16 (F.mul (number F pool) (F.div config.sla.resource_share total_share)) in
      if ltb 0 config.sla.max_rbs then min extra (sub_u16 config.sla.max_rbs available) else extra

  unfoldable pub distribute :
      Table (SliceConfig F.D)
      → F.D
      → (pool_dl pool_ul : ℕ) → Table SliceResourceBudget
      → Table SliceResourceBudget
  unfolding extra_rbs
  distribute configs total_share pool_dl pool_ul [] = []
  distribute configs total_share pool_dl pool_ul ((slice_id, b) ∷ budgets) =
      (
        slice_id,
        elim (lookup slice_id configs) [
          | none ↦ b
          | some config ↦ record b {
            available_rbs_dl =
                (b.available_rbs_dl + extra_rbs config total_share pool_dl b.available_rbs_dl)
                % 2 ^ 16;
            available_rbs_ul =
                (b.available_rbs_ul + extra_rbs config total_share pool_ul b.available_rbs_ul)
                % 2 ^ 16;
          }
        ],
      )
      ∷ distribute configs total_share pool_dl pool_ul budgets

  -- The second pass, skipped where nothing is shared or no slice has a share.
  unfoldable pub share_out :
      Table (SliceConfig F.D)
      → (pool_dl pool_ul : ℕ) → Table SliceResourceBudget
      → Table SliceResourceBudget
  unfolding sum_shares distribute
  share_out configs pool_dl pool_ul budgets =
      let total_share = sum_shares configs (number F 0) in
      if (ltb 0 pool_dl || ltb 0 pool_ul) && F.gtb total_share (number F 0)
      then distribute configs total_share pool_dl pool_ul budgets
      else budgets

  -- Takes `cell.config().num_rbs` for the cell, and returns the budgets beside the new state.
  unfoldable pub calculate_budgets :
      Orchestrator F.D → ℕ → Orchestrator F.D × Table SliceResourceBudget
  unfolding guarantee sub_u16 share_out
  calculate_budgets o total_rbs =
      let (budgets, dl, ul) = guarantee total_rbs o.slice_configs 0 0 [] in
      let pool_dl = sub_u16 total_rbs dl in
      let pool_ul = sub_u16 total_rbs ul in
      let shared = share_out o.slice_configs pool_dl pool_ul budgets in
      (
        record o { current_budgets = shared; shared_pool_dl = pool_dl; shared_pool_ul = pool_ul },
        shared,
      )

unfoldable pub get_budget : {D : Type 0} → Orchestrator D → ℕ → SliceResourceBudget
get_budget o slice_id = elim (lookup slice_id o.current_budgets) [ none ↦ no_budget | some b ↦ b ]
