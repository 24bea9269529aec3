-- ===== src/Qos/Table5qi.antt =====
-- The table of 5QI values: `get_5qi_characteristics` of nr_scheduler/src/qos_engine.cpp, and
-- `is_gbr_5qi` and `is_delay_critical_5qi` of nr_scheduler/include/services/qos_engine.hpp.
use nr5g_basic_scheduler.Base.{ℕ, ◌≡◌, ◌≤◌, Bool, leb, ◌==◌, ◌&&◌, ◌||◌, if◌then◌else◌, arith}
use nr5g_basic_scheduler.Base.Floats.{Floats}
use nr5g_basic_scheduler.Qos.{
  QosResourceType, gbr, non_gbr, delay_c, is_gbr, is_delay_c, QosCharacteristics,
}

unfoldable pub is_gbr_5qi : ℕ → Bool
is_gbr_5qi q = leb 1 q && leb q 4

unfoldable pub is_delay_critical_5qi : ℕ → Bool
is_delay_critical_5qi q = q == 82 || q == 83 || q == 84 || q == 85

-- One row: type, priority level, delay budget in milliseconds and error rate 10 ^ -n.
abbrev row :
    {D : Type 0}
    → (fiveqi : ℕ) → QosResourceType
    → (priority_level delay_budget : ℕ) → D
    → QosCharacteristics D
row fiveqi t priority_level delay_budget error_rate = record {
  fiveqi = fiveqi;
  resource_type = t;
  priority_level = priority_level;
  packet_delay_budget_ms = delay_budget;
  packet_error_rate = error_rate;
  averaging_window_ms = 0;
  max_data_burst_volume = 0;
}

unfoldable pub get_5qi_characteristics : (F : Floats) → ℕ → QosCharacteristics F.D
get_5qi_characteristics F q =
    if q == 1
    then row q gbr 20 100 (F.ratio 1 100)
    else if q == 2
    then row q gbr 40 150 (F.ratio 1 1000)
    else if q == 3
    then row q gbr 30 50 (F.ratio 1 1000)
    else if q == 4
    then row q gbr 50 300 (F.ratio 1 1000000)
    else if q == 5
    then row q non_gbr 10 100 (F.ratio 1 1000000)
    else if q == 6
    then row q non_gbr 60 300 (F.ratio 1 1000000)
    else if q == 7
    then row q non_gbr 70 100 (F.ratio 1 1000)
    else if q == 8
    then row q non_gbr 80 300 (F.ratio 1 1000000)
    else if q == 9
    then row q non_gbr 90 300 (F.ratio 1 1000000)
    else if q == 82
    then row q delay_c 19 10 (F.ratio 1 10000)
    else if q == 83
    then row q delay_c 22 10 (F.ratio 1 10000)
    else if q == 84
    then row q delay_c 24 30 (F.ratio 1 100000)
    else if q == 85
    then row q delay_c 21 5 (F.ratio 1 100000)
    else row q non_gbr 90 300 (F.ratio 1 1000000)

-- For every 5QI the two tests of the header agree with the resource type of the table, and the delay
-- budget and the priority level, by which the engine divides, are never zero.
get_5qi_characteristics_agrees :
    (F : Floats) (q : ℕ)
    → (is_gbr ((get_5qi_characteristics F q).resource_type) ≡ is_gbr_5qi q)
      × (is_delay_c ((get_5qi_characteristics F q).resource_type) ≡ is_delay_critical_5qi q)
      × (1 ≤ (get_5qi_characteristics F q).packet_delay_budget_ms)
      × (1 ≤ (get_5qi_characteristics F q).priority_level)
unfolding get_5qi_characteristics is_gbr_5qi is_delay_critical_5qi
get_5qi_characteristics_agrees F q = (ground arith, ground arith, ground arith, ground arith)
