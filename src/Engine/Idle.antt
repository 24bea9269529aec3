-- ===== src/Engine/Idle.antt =====
-- HARQ processes in the scheduler engine (scheduler_engine.cpp): no operation of it makes one wait for
-- feedback.
pub mod Deciding
pub mod Handling
pub mod Serving
pub mod Reaching
pub mod Feedback
use nr5g_basic_scheduler.Base.{ℕ, ◌≡◌, true, some, get_elem?}
use nr5g_basic_scheduler.Base.Table.{lookup}
use nr5g_basic_scheduler.Harq.{Process, HarqEntity, is_idle}
use nr5g_basic_scheduler.Harq.Feedback.{IsEntity}
use nr5g_basic_scheduler.Ue.{UeContext, UeRepository}
use nr5g_basic_scheduler.Engine.State.{Environment, Engine}

-- Sixteen processes, each under its own index, and all idle.
pub record IsIdle (e : HarqEntity) : Type 0 where
  pub entity : IsEntity e
  pub idle : (i : ℕ) (p : Process) → get_elem? e i ≡ some p → is_idle p.state ≡ true

-- Both entities of the UE are idle.
abbrev pub IsIdleUe : {D : Type 0} → UeContext D → Type 0
IsIdleUe ue = IsIdle ue.dl_harq × IsIdle ue.ul_harq

abbrev pub AreIdle : {D : Type 0} → UeRepository D → Type 0
AreIdle {D} r = (p : ℕ) (ue : UeContext D) → get_elem? r.heap p ≡ some ue → IsIdleUe ue

-- Every UE of every cell, released or not.
abbrev pub AllIdle : {E : Environment} → Engine E → Type 0
AllIdle {E} s =
    (cell_id : ℕ) (cell : _) → lookup cell_id s.cells ≡ some cell → AreIdle cell.ue_repository
