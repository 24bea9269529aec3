-- ===== src/Qos/Counting.antt =====
-- `register_flow` and `remove_flow` of qos_engine.cpp: the flows and the counters.
use nr5g_basic_scheduler.Base.{
  ℕ, ◌+◌, ◌^◌, ◌<◌, ◌≡◌, refl, sym, ap, ap₂, ◌∙◌, inl, inr, Bool, true, false, ◌==◌, ◌&&◌,
  if◌then◌else◌, Option, none, some, [], arith, Bool-cases, Option-cases,
}
use nr5g_basic_scheduler.Base.Table.{Table, lookup, insert, erase, lookup-insert, lookup-erase}
use nr5g_basic_scheduler.Qos.{is_delay_c, QosFlowParams, QosFlowState, QosEngine}
use nr5g_basic_scheduler.Qos.Flows.{
  new_flow, flows_of, find_flow, put_flow, register_flow, remove_flow, uncount,
}

pub own_key : (k : ℕ) → (k == k) ≡ true
own_key k = ground arith

module _ {D : Type 0} where
  abbrev or_empty : Option (Table (QosFlowState D)) → Table (QosFlowState D)
  or_empty none = []
  or_empty (some u) = u

  flows_of_lem :
      (flows : Table (Table (QosFlowState D))) (k : ℕ)
      → flows_of flows k ≡ or_empty (lookup k flows)
  unfolding flows_of
  flows_of_lem flows k = elim (Option-cases (lookup k flows)) [
    | inl f ↦ rw (f, flows_of) refl
    | inr (u, f) ↦ rw (f, flows_of) refl
  ]

  pub find_flow-eq-lookup :
      (e : QosEngine D) (rnti qfi : ℕ) → find_flow e rnti qfi ≡ lookup qfi (flows_of e.flows rnti)
  unfolding find_flow
  find_flow-eq-lookup e rnti qfi =
      found (lookup rnti e.flows) refl ∙ ap (lookup qfi) (sym (flows_of_lem e.flows rnti))
    where
      found :
          (o : Option (Table (QosFlowState D)))
          → lookup rnti e.flows ≡ o
          → find_flow e rnti qfi ≡ lookup qfi (or_empty (lookup rnti e.flows))
      found none f = rw (f, find_flow) refl
      found (some u) f = rw (f, find_flow) refl

  flows_of-insert :
      (flows : Table (Table (QosFlowState D))) (k j : ℕ) (u : Table (QosFlowState D))
      → flows_of (insert k u flows) j ≡ (if k == j then u else flows_of flows j)
  flows_of-insert flows k j u =
      flows_of_lem (insert k u flows) j ∙ ap or_empty (lookup-insert k j u flows) ∙ branch (k == j)
    where
      branch :
          (b : Bool)
          → or_empty (if b then some u else lookup j flows) ≡ (if b then u else flows_of flows j)
      branch true = refl
      branch false = sym (flows_of_lem flows j)

  -- A flow that is written is found, and no other flow changes.
  pub find_flow-put_flow :
      (e : QosEngine D) (rnti qfi r q : ℕ) (flow : QosFlowState D)
      → find_flow (put_flow e rnti qfi flow) r q
        ≡ (if rnti == r && qfi == q then some flow else find_flow e r q)
  unfolding put_flow
  find_flow-put_flow e rnti qfi r q flow =
      find_flow-eq-lookup (put_flow e rnti qfi flow) r q
      ∙ ap (lookup q) (flows_of-insert e.flows rnti r (insert qfi flow (flows_of e.flows rnti)))
      ∙ elim (Bool-cases (rnti == r)) [
        | inr other ↦ rw other (sym (find_flow-eq-lookup e r q))
        | inl here ↦
            let same : rnti ≡ r = ground arith in
            rw here (
              lookup-insert qfi q flow (flows_of e.flows rnti)
              ∙ ap (λ x. if qfi == q then some flow else x)
                  (ap (λ k. lookup q (flows_of e.flows k)) same ∙ sym (find_flow-eq-lookup e r q)))
      ]

  -- What a removal of a flow that is there does.
  remove_flow_lem :
      (e : QosEngine D) (rnti qfi : ℕ) (u : Table (QosFlowState D)) (flow : QosFlowState D)
      → lookup rnti e.flows ≡ some u
      → lookup qfi u ≡ some flow
      → remove_flow e rnti qfi
        ≡ record e { flows = insert rnti (erase qfi u) e.flows; stats = uncount flow e.stats }
  unfolding remove_flow
  remove_flow_lem e rnti qfi u flow here there =
      rw (here, remove_flow) (rw (there, remove_flow) refl)

  -- What registering and removing a flow does.
  registered_and_removed :
      (e : QosEngine D) (rnti now : ℕ) (params : QosFlowParams D)
      → let flow = new_flow e.config params now in
        let u = insert params.qfi flow (flows_of e.flows rnti) in
        remove_flow (register_flow e rnti params now) rnti params.qfi ≡ record e {
          flows = insert rnti (erase params.qfi u) (insert rnti u e.flows);
          stats = uncount flow ((register_flow e rnti params now).stats);
        }
  unfolding register_flow
  registered_and_removed e rnti now params =
      let flow = new_flow e.config params now in
      let ue_flows = flows_of e.flows rnti in
      remove_flow_lem (register_flow e rnti params now) rnti params.qfi
        (insert params.qfi flow ue_flows) flow
        (lookup-insert rnti rnti (insert params.qfi flow ue_flows) e.flows ∙ rw (own_key rnti) refl)
        (lookup-insert params.qfi params.qfi flow ue_flows ∙ rw (own_key params.qfi) refl)

  found_again :
      (e : QosEngine D) (rnti qfi r q : ℕ) (flow : QosFlowState D)
      → find_flow e rnti qfi ≡ none
      → let u = insert qfi flow (flows_of e.flows rnti) in
        lookup q (flows_of (insert rnti (erase qfi u) (insert rnti u e.flows)) r) ≡ find_flow e r q
  found_again e rnti qfi r q flow fresh =
      let ue_flows = flows_of e.flows rnti in
      let u : Table (QosFlowState D) = insert qfi flow ue_flows in
      ap (lookup q) (flows_of-insert (insert rnti u e.flows) rnti r (erase qfi u))
      ∙ elim (Bool-cases (rnti == r)) [
        | inr other ↦ rw other (
            ap (lookup q) (flows_of-insert e.flows rnti r u ∙ rw other refl)
            ∙ sym (find_flow-eq-lookup e r q))
        | inl here ↦
            let same : rnti ≡ r = ground arith in
            let back : lookup q ue_flows ≡ find_flow e r q =
              ap (λ k. lookup q (flows_of e.flows k)) same ∙ sym (find_flow-eq-lookup e r q) in
            rw here (
              lookup-erase qfi q u ∙ elim (Bool-cases (qfi == q)) [
                | inl named ↦
                    let same_flow : qfi ≡ q = ground arith in
                    rw named (sym fresh ∙ ap₂ (find_flow e) same same_flow)
                | inr unnamed ↦ rw unnamed (lookup-insert qfi q flow ue_flows ∙ rw unnamed back)
              ])
      ]

  -- A flow that is new to the engine leaves no trace in the flows when it is registered and removed,
  -- and none in the count of flows; but a delay-critical one is counted among the flows with a
  -- guaranteed rate and not taken off that count.
  pub remove_flow-register_flow :
      (e : QosEngine D) (rnti now : ℕ) (params : QosFlowParams D)
      → find_flow e rnti params.qfi ≡ none
      → e.stats.total_flows + 1 < 2 ^ 64
      → e.stats.gbr_flows + 1 < 2 ^ 64
      → let e' = remove_flow (register_flow e rnti params now) rnti params.qfi in
        ((r q : ℕ) → find_flow e' r q ≡ find_flow e r q)
        × (e'.stats.total_flows ≡ e.stats.total_flows)
        × (e'.stats.gbr_flows
            ≡ e.stats.gbr_flows
              + (if is_delay_c params.characteristics.resource_type then 1 else 0))
  unfolding register_flow uncount new_flow
  remove_flow-register_flow e rnti now params fresh total_fits gbr_fits =
      let removed = registered_and_removed e rnti now params in
      (
        λ r q.
            ap (λ x. find_flow x r q) removed
            ∙ find_flow-eq-lookup _ r q
            ∙ found_again e rnti params.qfi r q (new_flow e.config params now) fresh,
        ap (λ (x : QosEngine D). x.stats.total_flows) removed ∙ omega arith,
        ap (λ (x : QosEngine D). x.stats.gbr_flows) removed ∙ ground arith,
      )
