-- ===== src/Cell/Slots.antt =====
-- `SlotContext::initialize` of cell_context.hpp: what a new slot starts with.
use native.Mathlib.Nat.{mod-lt}
use nr5g_basic_scheduler.Base.{
  ℕ, zero, suc, ◌*◌, ◌%◌, ◌^◌, ◌≤◌, ◌≡◌, refl, sym, ◌∙◌, ◌⊎◌, inl, inr, Bool, true, false, ltb,
  ◌==◌, some, length, get_elem?, subst, some_unique, get_elem?_below, arith,
}
use nr5g_basic_scheduler.Timing.{FrameTiming}
use nr5g_basic_scheduler.Grid.{empty_grid}
use nr5g_basic_scheduler.Cce.{empty_pool, available, count_used, IsCounted}
use nr5g_basic_scheduler.Cell.{
  TddSlotConfig, TddPattern, get_config, CellConfig, is_fdd, SlotContext, cleared, initialize,
}

-- The control region has at most the elements of a pool, and a TDD cell has a pattern with a period
-- and a slot.
pub record IsConfigured (cfg : CellConfig) : Type 0 where
  pub elements_fit : cfg.coreset0_num_rbs * cfg.coreset0_num_symbols ≤ 128
  pub duplex :
      (is_fdd cfg.duplex_mode ≡ true)
      ⊎ ((p : TddPattern) × (is_fdd cfg.duplex_mode ≡ false)
          × (cfg.tdd_pattern ≡ some p)
          × (1 ≤ p.periodicity_slots)
          × (1 ≤ length p.slot_configs))

abbrev both_directions : TddSlotConfig
both_directions = record { num_dl_symbols = 14; num_guard_symbols = 0; num_ul_symbols = 14 }

-- A slot in which nothing is scheduled: the grids are as wide as the cell and free everywhere, all
-- elements of a counted pool are available, all counters are zero and all limits the cell's. Its
-- symbols are those of the place in the TDD pattern that the slot's number falls on, or fourteen in
-- both directions for FDD, and a direction is open exactly if there are symbols for it.
pub record IsReady (cfg : CellConfig) (t : FrameTiming) (s : SlotContext) : Type 0 where
  pub at_time : s.timing ≡ t
  pub dl_width : s.dl_grid.num_rbs ≡ cfg.num_rbs
  pub ul_width : s.ul_grid.num_rbs ≡ cfg.num_rbs
  pub dl_free : (sym rb : ℕ) → s.dl_grid.taken sym rb ≡ false
  pub ul_free : (sym rb : ℕ) → s.ul_grid.taken sym rb ≡ false
  pub pool_counted : IsCounted s.cce_pool
  pub pool_available : available s.cce_pool ≡ cfg.coreset0_num_rbs * cfg.coreset0_num_symbols
  pub dl_open : s.can_schedule_dl ≡ ltb 0 s.tdd_config.num_dl_symbols
  pub ul_open : s.can_schedule_ul ≡ ltb 0 s.tdd_config.num_ul_symbols
  pub fdd_symbols : is_fdd cfg.duplex_mode ≡ true → s.tdd_config ≡ both_directions
  pub tdd_symbols :
      (p : TddPattern)
      → is_fdd cfg.duplex_mode ≡ false
      → cfg.tdd_pattern ≡ some p
      → get_elem? p.slot_configs (t.slot % p.periodicity_slots % length p.slot_configs)
        ≡ some s.tdd_config
  pub nothing_scheduled : (s.dl_bytes_scheduled ≡ 0) × (s.ul_bytes_scheduled ≡ 0)
  pub nobody_scheduled : (s.ues_scheduled_dl ≡ 0) × (s.ues_scheduled_ul ≡ 0)
  pub limits :
      (s.remaining_pdsch ≡ cfg.max_pdsch_per_slot)
      × (s.remaining_pusch ≡ cfg.max_pusch_per_slot)
      × (s.remaining_pdcch ≡ cfg.max_pdcch_per_slot)

count_used_none : (n : ℕ) → count_used (λ i. false) n ≡ 0
unfolding count_used
count_used_none zero = refl
count_used_none (suc n) = omega (arith, count_used_none n)

empty_pool-IsCounted : (n : ℕ) → n ≤ 128 → IsCounted (empty_pool n) × (available (empty_pool n) ≡ n)
unfolding empty_pool available
empty_pool-IsCounted n h =
    (record { fits = h; rest_free = λ i l. refl; counted = sym (count_used_none n) }, omega arith)

get_config_found :
    (p : TddPattern) (i : ℕ)
    → 1 ≤ length p.slot_configs
    → (c : TddSlotConfig) × (get_config p i ≡ some c)
      × (get_elem? p.slot_configs (i % length p.slot_configs) ≡ some c)
unfolding get_config
get_config_found p i h =
    let (c, at) = get_elem?_below p.slot_configs (i % length p.slot_configs) (mod-lt i h) in
    let some_slots : (length p.slot_configs == 0) ≡ false = ground arith in
    (c, rw (some_slots, get_config) at, at)

abbrev opened :
    CellConfig → FrameTiming → SlotContext → (dl ul : Bool) → TddSlotConfig → SlotContext
opened cfg t s dl ul c = record (cleared cfg t s) {
  can_schedule_dl = dl;
  can_schedule_ul = ul;
  tdd_config = c;
}

module _ (cfg : CellConfig) (t : FrameTiming) (s : SlotContext) (ok : IsConfigured cfg) where
  ready :
      (dl ul : Bool) (c : TddSlotConfig)
      → dl ≡ ltb 0 c.num_dl_symbols
      → ul ≡ ltb 0 c.num_ul_symbols
      → (is_fdd cfg.duplex_mode ≡ true → c ≡ both_directions)
      → ((p : TddPattern)
          → is_fdd cfg.duplex_mode ≡ false
          → cfg.tdd_pattern ≡ some p
          → get_elem? p.slot_configs (t.slot % p.periodicity_slots % length p.slot_configs)
            ≡ some c)
      → IsReady cfg t (opened cfg t s dl ul c)
  unfolding cleared empty_grid
  ready dl ul c d u fdd tdd =
      let fits = ok.elements_fit in
      let n = cfg.coreset0_num_rbs * cfg.coreset0_num_symbols in
      let word : n % 2 ^ 8 ≡ n = omega arith in
      let (counted, all) = empty_pool-IsCounted (n % 2 ^ 8) (omega arith) in
      record {
        at_time = refl;
        dl_width = refl;
        ul_width = refl;
        dl_free = λ m r. refl;
        ul_free = λ m r. refl;
        pool_counted = counted;
        pool_available = all ∙ word;
        dl_open = d;
        ul_open = u;
        fdd_symbols = fdd;
        tdd_symbols = tdd;
        nothing_scheduled = (refl, refl);
        nobody_scheduled = (refl, refl);
        limits = (refl, refl, refl);
      }

clash : {P : Type 0} {b : Bool} → b ≡ true → b ≡ false → P
clash e f = cc

-- For a configured cell, and whatever the last slot left behind, `initialize` is defined and gives a
-- slot that is ready: its grids are as wide as the cell and free, all elements of the pool are
-- available, the counters are zero and the limits the cell's, its symbols are those of its place in the
-- TDD pattern or fourteen in both directions for FDD, and a direction is open exactly if there are
-- symbols for it.
pub initialize-IsReady :
    (cfg : CellConfig) (t : FrameTiming) (s : SlotContext)
    → IsConfigured cfg
    → (s' : SlotContext) × (initialize cfg t s ≡ some s') × IsReady cfg t s'
unfolding initialize
initialize-IsReady cfg t s ok = elim (ok.duplex) [
  | inl fdd ↦ (
    opened cfg t s true true both_directions,
    rw (fdd, initialize) refl,
    ready cfg t s ok true true both_directions refl refl (λ f. refl) (λ p tdd g. clash fdd tdd),
  )
  | inr (p, tdd, pattern, period, slots) ↦
      let (c, at, elem) = get_config_found p (t.slot % p.periodicity_slots) slots in
      let some_period : (p.periodicity_slots == 0) ≡ false = ground arith in
      (
        opened cfg t s (ltb 0 c.num_dl_symbols) (ltb 0 c.num_ul_symbols) c,
        rw (tdd, initialize)
            (rw (pattern, initialize) (rw (some_period, initialize) (rw (at, initialize) refl))),
        ready cfg t s ok (ltb 0 c.num_dl_symbols) (ltb 0 c.num_ul_symbols) c refl refl
            (λ fdd. clash fdd tdd)
            (λ q f g.
              let same : p ≡ q = some_unique pattern g in
              subst
                (λ (x : TddPattern).
                  get_elem? x.slot_configs (t.slot % x.periodicity_slots % length x.slot_configs)
                  ≡ some c)
                same elem),
      )
]
