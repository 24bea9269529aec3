-- ===== src/Engine/Schedule/Grants.antt =====
-- The loop of `schedule_dl` and `schedule_ul` that allocates: what holds after every round.
use nr5g_basic_scheduler.Base.{
  ℕ, suc, ◌≤◌, ◌≡◌, refl, sym, ap, ◌∙◌, subst, inl, inr, Bool, true, false, leb, some, none, List,
  [], ◌∷◌, ◌++◌, length, length-append, map, All, arith, Bool-cases, Option-cases,
}
use nr5g_basic_scheduler.Resources.{TimeFrequencyResource}
use nr5g_basic_scheduler.Grid.{ResourceGrid, max_rbs}
use nr5g_basic_scheduler.Grid.Cells.{filled}
use nr5g_basic_scheduler.Grid.Reserve.{held_free}
use nr5g_basic_scheduler.Ue.{UeContext}
use nr5g_basic_scheduler.Cell.{SlotContext, CellContext}
use nr5g_basic_scheduler.Engine.Types.{SchedulingDecision, find_ue}
use nr5g_basic_scheduler.Engine.Allocator.{grid_of, with_grid, granted, resource_at, allocate}
use nr5g_basic_scheduler.Engine.Allocator.Grants.{IsGranted, allocate_cases}
use nr5g_basic_scheduler.Engine.Schedule.{Progress, note_result, grant_all}
use nr5g_basic_scheduler.Engine.Schedule.Reservations.{Reserved, nothing, more}

pub grid_of-with_grid :
    (dl : Bool) (s : SlotContext) (g : ResourceGrid) → grid_of dl (with_grid dl s g) ≡ g
unfolding grid_of with_grid
grid_of-with_grid true s g = refl
grid_of-with_grid false s g = refl

with_grid-with_grid :
    (dl : Bool) (s : SlotContext) (g h : ResourceGrid)
    → with_grid dl (with_grid dl s g) h ≡ with_grid dl s h
unfolding with_grid
with_grid-with_grid true s g h = refl
with_grid-with_grid false s g h = refl

with_grid-grid_of : (dl : Bool) (s : SlotContext) → with_grid dl s (grid_of dl s) ≡ s
unfolding grid_of with_grid
with_grid-grid_of true s = refl
with_grid-grid_of false s = refl

module _ {ℓ κ} {A : Type ℓ} {B : Type κ} where
  map-append : (f : A → B) (xs : List A) (x : A) → map f (xs ++ x ∷ []) ≡ map f xs ++ f x ∷ []
  map-append f [] x = refl
  map-append f (y ∷ xs) x = ap (λ t. f y ∷ t) (map-append f xs x)

module _ {ℓ κ} {A : Type ℓ} where
  All-append : (P : A → Type κ) (xs : List A) (x : A) → All P xs → P x → All P (xs ++ x ∷ [])
  All-append P [] x all last = (last, tt)
  All-append P (y ∷ xs) x (first, all) last = (first, All-append P xs x all last)

module _ {D : Type 0} where
  -- The cell with another grid in its slot.
  abbrev pub with_cells : Bool → CellContext D → ResourceGrid → CellContext D
  with_cells dl cell g = record cell { current_slot = with_grid dl cell.current_slot g }

  abbrev pub resources_of : List (SchedulingDecision D) → List TimeFrequencyResource
  resources_of ds = map (λ d. d.resources) ds

  -- After some rounds: the cell differs from that before them in one grid only, whose cells were
  -- taken by the decisions so far, which are within the limit and all for UEs of the cell.
  pub record IsServing (dl : Bool) (limit : ℕ) (before : CellContext D) (p : Progress D)
      : Type 0 where
    pub grid : ResourceGrid
    pub cell : p.cell ≡ with_cells dl before grid
    pub width : grid.num_rbs ≡ (grid_of dl before.current_slot).num_rbs
    pub reserved :
        Reserved ((grid_of dl before.current_slot).taken) (resources_of p.successful) grid.taken
    pub bounded : length p.successful ≤ limit
    pub known :
        All (λ d. (ue : UeContext D) × (find_ue before.ue_repository d.rnti ≡ some ue)) p.successful

module _ {D : Type 0} (now : ℕ) (dl : Bool) (limit : ℕ) (before : CellContext D) (p : Progress D)
    (ok : IsServing dl limit before p) where
  pub grid_now : grid_of dl (p.cell.current_slot) ≡ ok.grid
  grid_now =
      ap (λ (c : CellContext D). grid_of dl c.current_slot) ok.cell
      ∙ grid_of-with_grid dl before.current_slot ok.grid

  pub repository_now : p.cell.ue_repository ≡ before.ue_repository
  repository_now = ap (λ (c : CellContext D). c.ue_repository) ok.cell

  -- A round that fails.
  failed-IsServing :
      (d : SchedulingDecision D) → IsServing dl limit before (note_result now p (d, p.cell, false))
  unfolding note_result
  failed-IsServing d = record {
    grid = ok.grid;
    cell = ok.cell;
    width = ok.width;
    reserved = ok.reserved;
    bounded = ok.bounded;
    known = ok.known;
  }

  -- A round that succeeds.
  granted-IsServing :
      (d d' : SchedulingDecision D) (ue : UeContext D) (cell' : CellContext D)
      → find_ue p.cell.ue_repository d.rnti ≡ some ue
      → IsGranted ue d p.cell dl d' cell'
      → suc (length p.successful) ≤ limit
      → IsServing dl limit before (note_result now p (d', cell', true))
  unfolding note_result granted
  granted-IsServing d d' ue cell' found got room =
      let res = resource_at got.range in
      let after = filled true ok.grid res in
      let is_res : d'.resources ≡ res =
        ap (λ (x : SchedulingDecision D). x.resources) got.decision in
      let same_ue : d'.rnti ≡ d.rnti = ap (λ (x : SchedulingDecision D). x.rnti) got.decision in
      record {
        grid = after;
        cell =
            got.slot
            ∙ ap
                (λ (c : CellContext D).
                  with_cells dl c (filled true (grid_of dl c.current_slot) res))
                ok.cell
            ∙ rw
                (
                  grid_of-with_grid dl before.current_slot ok.grid,
                  with_grid-with_grid dl before.current_slot ok.grid after,
                )
                refl;
        width = ok.width;
        reserved =
            subst (λ rs. Reserved ((grid_of dl before.current_slot).taken) rs after.taken)
              (ap (λ r. resources_of p.successful ++ r ∷ []) (sym is_res)
                ∙ sym (map-append (λ (x : SchedulingDecision D). x.resources) p.successful d'))
              (more res ok.reserved got.inside λ s b h.
                subst (λ (g : ResourceGrid). g.taken s b ≡ false) grid_now
                  (held_free (grid_of dl p.cell.current_slot) res s b got.free
                    (ground arith, ground arith)));
        bounded = subst (λ n. n ≤ limit) (sym (length-append p.successful (d' ∷ []))) (omega arith);
        known = All-append _ p.successful d' ok.known (
          ue,
          ap (find_ue before.ue_repository) same_ue
              ∙ ap (λ r. find_ue r d.rnti) (sym repository_now)
              ∙ found,
        );
      }

module _ {D : Type 0} (clock : ℕ → ℕ) (dl : Bool) (limit : ℕ) (before : CellContext D)
    (narrow : (grid_of dl before.current_slot).num_rbs ≤ max_rbs) where
  narrow_now :
      (p : Progress D)
      → IsServing dl limit before p
      → (grid_of dl p.cell.current_slot).num_rbs ≤ max_rbs
  narrow_now p ok =
      subst (λ (g : ResourceGrid). g.num_rbs ≤ max_rbs) (sym (grid_now 0 dl limit before p ok))
        (subst (λ n. n ≤ max_rbs) (sym ok.width) narrow)

  pub round-IsServing :
      (d : SchedulingDecision D) (p : Progress D) (r : SchedulingDecision D × CellContext D × Bool)
      → IsServing dl limit before p
      → suc (length p.successful) ≤ limit
      → allocate d p.cell dl ≡ some r
      → IsServing dl limit before (note_result (clock (length p.successful)) p r)
  round-IsServing d p r ok room e =
      let now = clock (length p.successful) in
      elim (allocate_cases d p.cell dl r (narrow_now p ok) e) [
        | inl same ↦
            subst (λ x. IsServing dl limit before (note_result now p x)) (sym same)
              (failed-IsServing now dl limit before p ok d)
        | inr (ue, found, d', cell', same, got) ↦
            subst (λ x. IsServing dl limit before (note_result now p x)) (sym same)
              (granted-IsServing now dl limit before p ok d d' ue cell' found got room)
      ]

  -- The loop keeps the invariant.
  pub grant_all-IsServing :
      (ds : List (SchedulingDecision D)) (p p' : Progress D)
      → IsServing dl limit before p
      → grant_all clock limit dl ds p ≡ some p'
      → IsServing dl limit before p'
  unfolding grant_all
  grant_all-IsServing [] p p' ok e =
      let same : p ≡ p' = cc in subst (IsServing dl limit before) same ok
  grant_all-IsServing (d ∷ ds) p p' ok e = elim (Bool-cases (leb limit (length p.successful))) [
    | inl full ↦
        let both : some p ≡ some p' = sym (rw (full, grant_all) refl) ∙ e in
        let same : p ≡ p' = cc in subst (IsServing dl limit before) same ok
    | inr room ↦ elim (Option-cases (allocate d p.cell dl)) [
      | inl undefined ↦
          let clash : none ≡ some p' =
            sym (rw (room, grant_all) (rw (undefined, grant_all) refl)) ∙ e in
          cc
      | inr (r, f) ↦
          grant_all-IsServing ds (note_result (clock (length p.successful)) p r) p'
            (round-IsServing d p r ok (ground arith) f)
            (sym (rw (room, grant_all) (rw (f, grant_all) refl)) ∙ e)
    ]
  ]

  -- What the loop starts with.
  pub start-IsServing :
      (p : Progress D) → p.cell ≡ before → p.successful ≡ [] → IsServing dl limit before p
  start-IsServing p here empty = record {
    grid = grid_of dl before.current_slot;
    cell =
        here
        ∙ ap (λ s. record before { current_slot = s })
            (sym (with_grid-grid_of dl before.current_slot));
    width = refl;
    reserved =
        subst
          (λ ds.
            Reserved ((grid_of dl before.current_slot).taken) (resources_of ds)
              ((grid_of dl before.current_slot).taken))
          (sym empty) nothing;
    bounded = subst (λ ds. length ds ≤ limit) (sym empty) (omega arith);
    known =
        subst (All (λ d. (ue : UeContext D) × (find_ue before.ue_repository d.rnti ≡ some ue)))
          (sym empty) tt;
  }
