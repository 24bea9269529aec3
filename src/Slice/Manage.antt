-- ===== src/Slice/Manage.antt =====
-- Slices and the UEs on them: the operations of nr_scheduler/src/slice_orchestrator.cpp from
-- `create_slice` to `get_slice_ues`.
use nr5g_basic_scheduler.Base.{
  ℕ, ◌+◌, ◌-◌, ◌%◌, ◌^◌, Bool, true, false, ltb, ◌==◌, if◌then◌else◌, Option, none, some, List, [],
  ◌∷◌,
}
use nr5g_basic_scheduler.Base.Table.{Table, lookup, has, insert, erase}
use nr5g_basic_scheduler.Slice.{SliceConfig, SliceState, Orchestrator}

-- Whether a UE is on the slice.
unfoldable pub has_ue : ℕ → Table ℕ → Bool
has_ue slice_id [] = false
has_ue slice_id ((rnti, sid) ∷ t) = if sid == slice_id then true else has_ue slice_id t

unfoldable pub ues_on : ℕ → Table ℕ → List ℕ
ues_on slice_id [] = []
ues_on slice_id ((rnti, sid) ∷ t) =
    let rest = ues_on slice_id t in if sid == slice_id then rnti ∷ rest else rest

-- The keys of a map, in its order.
unfoldable pub keys {ℓ} : {V : Type ℓ} → Table V → List ℕ
keys [] = []
keys ((k, v) ∷ t) = k ∷ keys t

module _ {D : Type 0} where
  -- `blank` is the state as the stack left it: `create_slice` sets two of its members.
  unfoldable pub create_slice :
      SliceState D → Orchestrator D → SliceConfig D → Orchestrator D × Bool
  create_slice blank o config = if has config.slice_id o.slice_configs then (o, false) else (
    record o {
      slice_configs = insert config.slice_id config o.slice_configs;
      slice_states =
          insert config.slice_id (record blank { slice_id = config.slice_id; active = true })
            o.slice_states;
    },
    true,
  )

  unfoldable pub update_slice : Orchestrator D → ℕ → SliceConfig D → Orchestrator D × Bool
  update_slice o slice_id config =
      if has slice_id o.slice_configs
      then (record o { slice_configs = insert slice_id config o.slice_configs }, true)
      else (o, false)

  unfoldable pub delete_slice : Orchestrator D → ℕ → Orchestrator D × Bool
  unfolding has_ue
  delete_slice o slice_id = if has_ue slice_id o.ue_slice_map then (o, false) else (
    record o {
      slice_configs = erase slice_id o.slice_configs;
      slice_states = erase slice_id o.slice_states;
      current_budgets = erase slice_id o.current_budgets;
    },
    true,
  )

  unfoldable pub get_slice_config : Orchestrator D → ℕ → Option (SliceConfig D)
  get_slice_config o slice_id = lookup slice_id o.slice_configs

  unfoldable pub get_all_slices : Orchestrator D → List ℕ
  unfolding keys
  get_all_slices o = keys o.slice_configs

  -- `++state.connected_ues` on the entry of the slice, where it has one; `zero` is the entry that
  -- `operator[]` makes where it has none.
  unfoldable pub connect : SliceState D → Table (SliceState D) → ℕ → Table (SliceState D)
  connect zero states slice_id = elim (lookup slice_id states) [
    | none ↦
        insert slice_id (record zero { connected_ues = (zero.connected_ues + 1) % 2 ^ 32 }) states
    | some s ↦ insert slice_id (record s { connected_ues = (s.connected_ues + 1) % 2 ^ 32 }) states
  ]

  unfoldable pub associate_ue : SliceState D → Orchestrator D → ℕ → ℕ → Orchestrator D × Bool
  unfolding connect
  associate_ue zero o rnti slice_id =
      if has slice_id o.slice_configs
      then (
        record o {
          ue_slice_map = insert rnti slice_id o.ue_slice_map;
          slice_states = connect zero o.slice_states slice_id;
        },
        true,
      )
      else (o, false)

  unfoldable pub disconnect : SliceState D → Table (SliceState D) → ℕ → Table (SliceState D)
  disconnect zero states slice_id = elim (lookup slice_id states) [
    | none ↦
        insert slice_id
          (if ltb 0 zero.connected_ues
            then record zero { connected_ues = zero.connected_ues - 1 }
            else zero)
          states
    | some s ↦
        insert slice_id
          (if ltb 0 s.connected_ues then record s { connected_ues = s.connected_ues - 1 } else s)
          states
  ]

  unfoldable pub disassociate_ue : SliceState D → Orchestrator D → ℕ → Orchestrator D
  unfolding disconnect
  disassociate_ue zero o rnti = elim (lookup rnti o.ue_slice_map) [
    | none ↦ o
    | some slice_id ↦ record o {
      slice_states = disconnect zero o.slice_states slice_id;
      ue_slice_map = erase rnti o.ue_slice_map;
    }
  ]

  unfoldable pub get_ue_slice : Orchestrator D → ℕ → Option ℕ
  get_ue_slice o rnti = lookup rnti o.ue_slice_map

  unfoldable pub get_slice_ues : Orchestrator D → ℕ → List ℕ
  unfolding ues_on
  get_slice_ues o slice_id = ues_on slice_id o.ue_slice_map
