-- ===== src/Engine/Allocator/Keeping.antt =====
-- What `DefaultResourceAllocator::allocate` never changes.
use nr5g_basic_scheduler.Base.{
  ℕ, ◌≡◌, refl, sym, ◌∙◌, subst, inl, inr, Bool, true, false, ◌==◌, Option, some, none, Bool-cases,
  Option-cases, some_unique, none_some,
}
use nr5g_basic_scheduler.Resources.{ResourceBlockRange}
use nr5g_basic_scheduler.Tbs.{tbs_table_lookup}
use nr5g_basic_scheduler.Grid
use nr5g_basic_scheduler.Ue.{UeContext, mcs_from_cqi}
use nr5g_basic_scheduler.Cell.{CellContext}
use nr5g_basic_scheduler.Engine.Types.{SchedulingDecision, DecisionType, find_ue}
use nr5g_basic_scheduler.Engine.Allocator.{
  grid_of, with_grid, num_symbols, layers_of, required_rbs, choose_range, granted, resource_at,
  take_range, allocate_for, allocate,
}

-- What a decision is about.
abbrev pub subject : {D : Type 0} → SchedulingDecision D → ℕ × DecisionType × ℕ
subject d = (d.rnti, d.type, d.harq_id)

module _ {D : Type 0} (d : SchedulingDecision D) (cell : CellContext D) (dl : Bool) where
  abbrev pub Keeps : SchedulingDecision D × CellContext D × Bool → Type 0
  Keeps r =
      (subject (r.0) ≡ subject d)
      × ((r.1).config ≡ cell.config)
      × ((r.1).ue_repository ≡ cell.ue_repository)

  failed-Keeps :
      {o : Option (SchedulingDecision D × CellContext D × Bool)}
      (r : SchedulingDecision D × CellContext D × Bool)
      → o ≡ some (d, cell, false)
      → o ≡ some r
      → Keeps r
  failed-Keeps r f e = subst Keeps (some_unique f e) (refl, refl, refl)

  take_range-Keeps :
      (ue : UeContext D) (range : ResourceBlockRange)
      (r : SchedulingDecision D × CellContext D × Bool)
      → take_range ue cell d dl range ≡ some r
      → Keeps r
  unfolding take_range granted
  take_range-Keeps ue range r e =
      elim (Option-cases (Grid.allocate (grid_of dl cell.current_slot) (resource_at range))) [
        | inl undefined ↦ none_some (rw (undefined, take_range) refl) e
        | inr ((g, false), f) ↦ failed-Keeps r (rw (f, take_range) refl) e
        | inr ((g, true), f) ↦
            elim (Option-cases (
              tbs_table_lookup (mcs_from_cqi ue) range.num_rbs (layers_of ue cell) num_symbols
                12)) [
                  | inl undefined ↦
                      none_some (rw (f, take_range) (rw (undefined, take_range) refl)) e
                  | inr (tbs, sized) ↦
                      subst Keeps
                        (some_unique
                          {x = (
                            granted ue cell d (resource_at range) tbs,
                            record cell { current_slot = with_grid dl cell.current_slot g },
                            true,
                          )}
                          (rw (f, take_range) (rw (sized, take_range) refl)) e)
                        (refl, refl, refl)
                ]
      ]

  allocate_for-Keeps :
      (ue : UeContext D) (r : SchedulingDecision D × CellContext D × Bool)
      → allocate_for ue cell d dl ≡ some r
      → Keeps r
  unfolding allocate_for
  allocate_for-Keeps ue r e = elim (Option-cases (required_rbs ue cell d.buffer_bytes dl)) [
    | inl undefined ↦ none_some (rw (undefined, allocate_for) refl) e
    | inr (n, f) ↦ elim (Bool-cases (n == 0)) [
      | inl nothing ↦ failed-Keeps r (rw (f, allocate_for) (rw (nothing, allocate_for) refl)) e
      | inr positive ↦ elim (Option-cases (choose_range (grid_of dl cell.current_slot) n)) [
        | inl undefined ↦
            none_some
              (rw (f, allocate_for)
                (rw (positive, allocate_for) (rw (undefined, allocate_for) refl)))
              e
        | inr (none, g) ↦
            failed-Keeps r
              (rw (f, allocate_for) (rw (positive, allocate_for) (rw (g, allocate_for) refl))) e
        | inr (some range, g) ↦ take_range-Keeps ue range r (
            sym (rw (f, allocate_for) (rw (positive, allocate_for) (rw (g, allocate_for) refl)))
            ∙ e)
      ]
    ]
  ]

  -- The UE, the type and the process of the decision, the configuration of the cell and its UEs.
  pub allocate-Keeps :
      (r : SchedulingDecision D × CellContext D × Bool) → allocate d cell dl ≡ some r → Keeps r
  unfolding allocate
  allocate-Keeps r e = elim (Option-cases (find_ue cell.ue_repository d.rnti)) [
    | inl gone ↦ failed-Keeps r (rw (gone, allocate) refl) e
    | inr (ue, found) ↦ allocate_for-Keeps ue r (sym (rw (found, allocate) refl) ∙ e)
  ]
