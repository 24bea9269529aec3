-- ===== src/Engine/Schedule/Returning.antt =====
-- The loop of `schedule_dl` and `schedule_ul` that allocates returns, and serves the first decision, where
-- the UEs of the cell have a good channel.
use nr5g_basic_scheduler.Base.{
  ℕ, ◌≤◌, ◌≡◌, refl, sym, ap, ◌∙◌, subst, inl, inr, Bool, true, false, leb, some, List, [], ◌∷◌,
  length, length-append, get_elem?, arith, Bool-cases, Option-cases, some_unique, none_some,
}
use nr5g_basic_scheduler.Grid.{ResourceGrid, max_rbs}
use nr5g_basic_scheduler.Ue.{UeContext, UeRepository, effective_cqi, find_by_rnti}
use nr5g_basic_scheduler.Cell.{CellConfig, CellContext}
use nr5g_basic_scheduler.Engine.Types.{SchedulingDecision, find_ue}
use nr5g_basic_scheduler.Engine.Allocator.{grid_of, allocate}
use nr5g_basic_scheduler.Engine.Allocator.Choice.{HasRun}
use nr5g_basic_scheduler.Engine.Allocator.Serving.{IsServable, allocate-IsServed}
use nr5g_basic_scheduler.Engine.Schedule.{Progress, note_result, grant_all}
use nr5g_basic_scheduler.Engine.Schedule.Grants.{
  IsServing, grid_now, repository_now, round-IsServing,
}

-- A cell of 1 to 273 blocks, as its grid, and up to 8 layers, whose UEs all reported a CQI of 5 or
-- more.
pub record IsWorkable {D : Type 0} (cell : CellContext D) (dl : Bool) : Type 0 where
  pub good_channels :
      (p : ℕ) (ue : UeContext D)
      → get_elem? cell.ue_repository.heap p ≡ some ue
      → 5 ≤ effective_cqi ue
  pub layers_fit : cell.config.max_layers ≤ 8
  pub width : (grid_of dl cell.current_slot).num_rbs ≡ cell.config.num_rbs
  pub not_empty : 1 ≤ cell.config.num_rbs
  pub fits : cell.config.num_rbs ≤ 273

module _ {D : Type 0} where
  -- A UE that is found has an address.
  pub find_ue_address :
      (r : UeRepository D) (rnti : ℕ) (ue : UeContext D)
      → find_ue r rnti ≡ some ue
      → (p : ℕ) × (get_elem? r.heap p ≡ some ue)
  unfolding find_ue
  find_ue_address r rnti ue e = elim (Option-cases (find_by_rnti r rnti)) [
    | inl gone ↦ none_some (rw (gone, find_ue) refl) e
    | inr (p, here) ↦ (p, sym (rw (here, find_ue) refl) ∙ e)
  ]

  length-note_result :
      (now : ℕ) (p : Progress D) (r : SchedulingDecision D × CellContext D × Bool)
      → length p.successful ≤ length ((note_result now p r).successful)
  unfolding note_result
  length-note_result now p (d, cell, true) = omega (arith, length-append p.successful (d ∷ []))
  length-note_result now p (d, cell, false) = omega arith

  length-note_result-true :
      (now : ℕ) (p : Progress D) (d : SchedulingDecision D) (cell : CellContext D)
      → 1 ≤ length ((note_result now p (d, cell, true)).successful)
  unfolding note_result
  length-note_result-true now p d cell = omega (arith, length-append p.successful (d ∷ []))

module _ {D : Type 0} (clock : ℕ → ℕ) (dl : Bool) (limit : ℕ) (before : CellContext D)
    (ok : IsWorkable before dl) where
  pub narrow : (grid_of dl before.current_slot).num_rbs ≤ max_rbs
  narrow = subst (λ n. n ≤ max_rbs) (sym ok.width) ok.fits

  -- In every round each UE that is found is servable.
  IsServable-now :
      (p : Progress D) (rnti : ℕ) (ue : UeContext D)
      → IsServing dl limit before p
      → find_ue p.cell.ue_repository rnti ≡ some ue
      → IsServable ue p.cell dl
  IsServable-now p rnti ue serving found =
      let config : p.cell.config ≡ before.config =
        ap (λ (c : CellContext D). c.config) serving.cell in
      let (address, at) = find_ue_address p.cell.ue_repository rnti ue found in
      record {
        good_channel = ok.good_channels address ue (
            ap (λ (r : UeRepository D). get_elem? r.heap address)
              (sym (repository_now 0 dl limit before p serving))
            ∙ at);
        layers_fit = subst (λ (c : CellConfig). c.max_layers ≤ 8) (sym config) ok.layers_fit;
        width =
            ap (λ (g : ResourceGrid). g.num_rbs) (grid_now 0 dl limit before p serving)
            ∙ serving.width
            ∙ ok.width
            ∙ ap (λ (c : CellConfig). c.num_rbs) (sym config);
        not_empty = subst (λ (c : CellConfig). 1 ≤ c.num_rbs) (sym config) ok.not_empty;
        fits = subst (λ (c : CellConfig). c.num_rbs ≤ 273) (sym config) ok.fits;
      }

  allocate_returns :
      (d : SchedulingDecision D) (p : Progress D)
      → IsServing dl limit before p
      → (r : SchedulingDecision D × CellContext D × Bool) × (allocate d p.cell dl ≡ some r)
  unfolding allocate
  allocate_returns d p serving = elim (Option-cases (find_ue p.cell.ue_repository d.rnti)) [
    | inl gone ↦ ((d, p.cell, false), rw (gone, allocate) refl)
    | inr (ue, found) ↦
        elim (allocate-IsServed ue d p.cell dl found (IsServable-now p d.rnti ue serving found)) [
          | inl (_, e) ↦ ((d, p.cell, false), e)
          | inr (d', cell', e, _, _) ↦ ((d', cell', true), e)
        ]
  ]

  -- The loop returns, with no fewer decisions than before.
  pub grant_all_returns :
      (ds : List (SchedulingDecision D)) (p : Progress D)
      → IsServing dl limit before p
      → (p' : Progress D) × (grant_all clock limit dl ds p ≡ some p')
        × (length p.successful ≤ length p'.successful)
  unfolding grant_all
  grant_all_returns [] p serving = (p, refl, omega arith)
  grant_all_returns (d ∷ ds) p serving = elim (Bool-cases (leb limit (length p.successful))) [
    | inl full ↦ (p, rw (full, grant_all) refl, omega arith)
    | inr room ↦
        let now = clock (length p.successful) in
        let (r, e) = allocate_returns d p serving in
        let next = note_result now p r in
        let (p', f, grows) =
          grant_all_returns ds next
            (round-IsServing clock dl limit before narrow d p r serving (ground arith) e) in
        (
          p',
          rw (room, grant_all) (rw (e, grant_all) f),
          let grew = length-note_result now p r in omega arith,
        )
  ]

  -- With room for a decision and a block that is free, a first decision for a UE that is found is
  -- served.
  pub grant_all_serves :
      (d : SchedulingDecision D) (ds : List (SchedulingDecision D)) (p p' : Progress D)
      (ue : UeContext D)
      → IsServing dl limit before p
      → p.successful ≡ []
      → 1 ≤ limit
      → find_ue p.cell.ue_repository d.rnti ≡ some ue
      → HasRun (grid_of dl p.cell.current_slot) 1
      → grant_all clock limit dl (d ∷ ds) p ≡ some p'
      → 1 ≤ length p'.successful
  unfolding grant_all
  grant_all_serves d ds p p' ue serving empty some_room found free e =
      let none_yet : length p.successful ≡ 0 = ap length empty in
      let room : leb limit (length p.successful) ≡ false = ground arith in
      elim (allocate-IsServed ue d p.cell dl found (IsServable-now p d.rnti ue serving found)) [
        | inl (full, _) ↦ absurd (full free)
        | inr (d', cell', f, _, _) ↦
            let now = clock (length p.successful) in
            let next = note_result now p (d', cell', true) in
            let (p'', g, grows) = grant_all_returns ds next (
              round-IsServing clock dl limit before narrow d p (d', cell', true) serving
                (omega arith) f) in
            let same : p'' ≡ p' = some_unique (rw (room, grant_all) (rw (f, grant_all) g)) e in
            let one = length-note_result-true now p d' cell' in
            subst (λ (x : Progress D). 1 ≤ length x.successful) same (omega arith)
      ]
