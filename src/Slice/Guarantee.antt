-- ===== src/Slice/Guarantee.antt =====
-- `calculate_budgets` of slice_orchestrator.cpp: what it gives each slice.
use nr5g_basic_scheduler.Base.{
  ℕ, ◌+◌, ◌%◌, ◌^◌, ◌≤◌, ◌<◌, ◌≡◌, refl, sym, ap, subst, ◌∙◌, inl, inr, ltb, ◌==◌, ◌&&◌, ◌||◌,
  if-elim, some, [], ◌∷◌, arith, Bool-cases,
}
use nr5g_basic_scheduler.Base.Table.{Table, lookup}
use nr5g_basic_scheduler.Base.Floats.{Floats, number}
use nr5g_basic_scheduler.Slice.{SliceConfig, SliceResourceBudget, Orchestrator}
use nr5g_basic_scheduler.Slice.Budgets.{
  sub_u16, guarantee, sum_shares, extra_rbs, distribute, share_out, calculate_budgets,
}
use nr5g_basic_scheduler.Slice.FirstPass.{
  Distinct, total_guaranteed, guaranteed_budget, guarantee-IsGuaranteed, guaranteed-le-total,
}

module _ (F : Floats) where
  -- The share of a slice of any pool is at most the pool, as far as the arithmetic on `double` goes.
  abbrev pub SharesFit : Table (SliceConfig F.D) → SliceConfig F.D → Type 0
  SharesFit configs c =
      (pool : ℕ)
      → F.to_u16
          (F.mul (number F pool) (F.div c.sla.resource_share (sum_shares F configs (number F 0))))
        ≤ pool

  -- What a slice has when the slot begins.
  pub record IsServed (total : ℕ) (configs : Table (SliceConfig F.D)) (c : SliceConfig F.D)
      (b : SliceResourceBudget) : Type 0 where
    pub dl_at_least : c.sla.guaranteed_rbs ≤ b.available_rbs_dl
    pub ul_at_least : c.sla.guaranteed_rbs ≤ b.available_rbs_ul
    pub dl_at_most : b.available_rbs_dl + total_guaranteed configs ≤ c.sla.guaranteed_rbs + total
    pub ul_at_most : b.available_rbs_ul + total_guaranteed configs ≤ c.sla.guaranteed_rbs + total
    pub dl_unused : b.used_rbs_dl ≡ 0
    pub ul_unused : b.used_rbs_ul ≡ 0

  extra_rbs-le-pool :
      (configs : Table (SliceConfig F.D)) (c : SliceConfig F.D) (pool available : ℕ)
      → SharesFit configs c
      → extra_rbs F c (sum_shares F configs (number F 0)) pool available ≤ pool
  unfolding extra_rbs
  extra_rbs-le-pool configs c pool available fit =
      let small = fit pool in
      if-elim (λ n. n ≤ pool) (ltb 0 c.sla.max_rbs) _ _ (λ h. omega arith) (λ h. small)

  abbrev with_extra :
      F.D → (pool_dl pool_ul : ℕ) → SliceConfig F.D → SliceResourceBudget → SliceResourceBudget
  with_extra total_share pool_dl pool_ul c b = record b {
    available_rbs_dl =
        (b.available_rbs_dl + extra_rbs F c total_share pool_dl b.available_rbs_dl) % 2 ^ 16;
    available_rbs_ul =
        (b.available_rbs_ul + extra_rbs F c total_share pool_ul b.available_rbs_ul) % 2 ^ 16;
  }

  lookup-distribute :
      (configs : Table (SliceConfig F.D)) (total_share : F.D) (pool_dl pool_ul k : ℕ)
      (c : SliceConfig F.D) (budgets : Table SliceResourceBudget) (b : SliceResourceBudget)
      → lookup k configs ≡ some c
      → lookup k budgets ≡ some b
      → lookup k (distribute F configs total_share pool_dl pool_ul budgets)
        ≡ some (with_extra total_share pool_dl pool_ul c b)
  unfolding distribute
  lookup-distribute configs total_share pool_dl pool_ul k c [] b known e = cc
  lookup-distribute configs total_share pool_dl pool_ul k c ((j, a) ∷ budgets) b known e =
      elim (Bool-cases (j == k)) [
        | inl here ↦
            let u : some a ≡ some b = sym (rw here refl) ∙ e in
            let v : a ≡ b = cc in
            let w : k ≡ j = ground arith in
            let known' : lookup j configs ≡ some c =
              subst (λ n. lookup n configs ≡ some c) w known in
            rw here (rw known' (ap (λ x. some (with_extra total_share pool_dl pool_ul c x)) v))
        | inr other ↦ rw other (
            lookup-distribute configs total_share pool_dl pool_ul k c budgets b known
              (sym (rw other refl) ∙ e))
      ]

  share_out-IsServed :
      (configs : Table (SliceConfig F.D)) (total pool_dl pool_ul k : ℕ) (c : SliceConfig F.D)
      (budgets : Table SliceResourceBudget)
      → pool_dl + total_guaranteed configs ≡ total
      → pool_ul + total_guaranteed configs ≡ total
      → total < 2 ^ 16
      → lookup k configs ≡ some c
      → SharesFit configs c
      → lookup k budgets ≡ some (guaranteed_budget k c.sla.guaranteed_rbs)
      → (b : SliceResourceBudget) × (lookup k (share_out F configs pool_dl pool_ul budgets)
          ≡ some b)
        × IsServed total configs c b
  unfolding share_out
  share_out-IsServed configs total pool_dl pool_ul k c budgets dl ul top known share here =
      let total_share = sum_shares F configs (number F 0) in
      let g = c.sla.guaranteed_rbs in
      let own = guaranteed-le-total configs k c known in
      let extra_dl = extra_rbs-le-pool configs c pool_dl g share in
      let extra_ul = extra_rbs-le-pool configs c pool_ul g share in
      if-elim (λ t. (b : SliceResourceBudget) × (lookup k t ≡ some b) × IsServed total configs c b)
        ((ltb 0 pool_dl || ltb 0 pool_ul) && F.gtb total_share (number F 0)) _ _
        (λ shared. (
          with_extra total_share pool_dl pool_ul c (guaranteed_budget k g),
          lookup-distribute configs total_share pool_dl pool_ul k c budgets _ known here,
          record {
            dl_at_least = omega arith;
            ul_at_least = omega arith;
            dl_at_most = omega arith;
            ul_at_most = omega arith;
            dl_unused = refl;
            ul_unused = refl;
          },
        ))
        (λ not_shared. (
          guaranteed_budget k g,
          here,
          record {
            dl_at_least = omega arith;
            ul_at_least = omega arith;
            dl_at_most = omega arith;
            ul_at_most = omega arith;
            dl_unused = refl;
            ul_unused = refl;
          },
        ))

  -- Where the guarantees of all slices fit the cell together, and a slice's share of a pool is at
  -- most the pool: `calculate_budgets` leaves each slice, in both directions, at least its
  -- guaranteed blocks and at most the pool of blocks not guaranteed beside them, all of them unused.
  pub calculate_budgets-IsServed :
      (o : Orchestrator F.D) (total k : ℕ) (c : SliceConfig F.D)
      → Distinct o.slice_configs
      → total_guaranteed o.slice_configs ≤ total
      → total < 2 ^ 16
      → lookup k o.slice_configs ≡ some c
      → SharesFit o.slice_configs c
      → (b : SliceResourceBudget) × (lookup k ((calculate_budgets F o total).0.current_budgets)
          ≡ some b)
        × IsServed total o.slice_configs c b
  unfolding calculate_budgets
  calculate_budgets-IsServed o total k c d fits top known share =
      let g = guarantee-IsGuaranteed total o.slice_configs 0 [] d (omega arith) top in
      share_out-IsServed o.slice_configs total _ _ k c _
        (pool_lem ((guarantee total o.slice_configs 0 0 []).1) (g.given_dl))
        (pool_lem ((guarantee total o.slice_configs 0 0 []).2) (g.given_ul)) top known share
        (g.in_full k c known)
    where
      pool_lem :
          (given : ℕ)
          → given ≡ 0 + total_guaranteed o.slice_configs
          → sub_u16 total given + total_guaranteed o.slice_configs ≡ total
      pool_lem given e = rw (e, sub_u16) (omega arith)
