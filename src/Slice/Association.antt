-- ===== src/Slice/Association.antt =====
-- The operations of slice_orchestrator.cpp on slices and UEs, as steps.
use nr5g_basic_scheduler.Base.{
  ℕ, ◌≡◌, refl, sym, ap, subst, ◌∙◌, inl, inr, ◌≢◌, Bool, true, false, not, ◌&&◌, ◌||◌, ◌==◌, none,
  some, [], ◌∷◌, arith, if-elim, Bool-cases, Option-cases,
}
use nr5g_basic_scheduler.Base.Table.{
  Table, lookup, has, erase, lookup-insert, lookup-erase, has-insert, has-erase,
}
use nr5g_basic_scheduler.Slice.{SliceConfig, SliceState, Orchestrator}
use nr5g_basic_scheduler.Slice.Manage.{
  has_ue, create_slice, update_slice, delete_slice, connect, associate_ue, disconnect,
  disassociate_ue,
}

-- A slice has a state exactly if it has a configuration, and every UE is on a slice that has one.
pub record IsConsistent {D : Type 0} (o : Orchestrator D) : Type 0 where
  pub same_slices : (k : ℕ) → has k o.slice_states ≡ has k o.slice_configs
  pub known_slices :
      (rnti k : ℕ) → lookup rnti o.ue_slice_map ≡ some k → has k o.slice_configs ≡ true

-- One call of an operation, with any arguments; `zero` and `blank` are the entries that C++ makes.
pub data Step {D : Type 0} (zero : SliceState D) (o : Orchestrator D)
    : Orchestrator D → Type 0 where
  by_create : (blank : SliceState D) (c : SliceConfig D) → Step zero o ((create_slice blank o c).0)
  by_update : (k : ℕ) (c : SliceConfig D) → Step zero o ((update_slice o k c).0)
  by_delete : (k : ℕ) → Step zero o ((delete_slice o k).0)
  by_associate : (rnti k : ℕ) → Step zero o ((associate_ue zero o rnti k).0)
  by_disassociate : (rnti : ℕ) → Step zero o (disassociate_ue zero o rnti)

has_ue-false : (k : ℕ) (t : Table ℕ) (rnti : ℕ) → has_ue k t ≡ false → lookup rnti t ≢ some k
unfolding has_ue
has_ue-false k [] rnti h e = cc
has_ue-false k ((i, j) ∷ t) rnti h e = elim (Bool-cases (j == k)) [
  | inl here ↦ let u : true ≡ false = sym (rw here refl) ∙ h in cc
  | inr elsewhere ↦
      let h' : has_ue k t ≡ false = sym (rw elsewhere refl) ∙ h in
      elim (Bool-cases (i == rnti)) [
        | inl named ↦
            let u : some j ≡ some k = sym (rw named refl) ∙ e in let v : j ≡ k = cc in ground arith
        | inr other ↦ has_ue-false k t rnti h' (sym (rw other refl) ∙ e)
      ]
]

has-known {ℓ} :
    {V : Type ℓ} (i k : ℕ) (t : Table V) → has i t ≡ true → (i == k || has k t) ≡ has k t
has-known i k t there = elim (Bool-cases (i == k)) [
  | inl named ↦
      let equal : i ≡ k = ground arith in rw named (sym (ap (λ n. has n t) (sym equal) ∙ there))
  | inr other ↦ rw other refl
]

module _ {D : Type 0} where
  abbrev First : Orchestrator D × Bool → Type 0
  First r = IsConsistent (r.0)

  create_slice-IsConsistent :
      (blank : SliceState D) (o : Orchestrator D) (c : SliceConfig D)
      → IsConsistent o
      → IsConsistent ((create_slice blank o c).0)
  unfolding create_slice
  create_slice-IsConsistent blank o c ok =
      if-elim First (has c.slice_id o.slice_configs) _ _ (λ there. ok)
        λ fresh. record {
          same_slices = λ k.
              has-insert c.slice_id k (record blank { slice_id = c.slice_id; active = true })
                o.slice_states
              ∙ ap (λ b. c.slice_id == k || b) (ok.same_slices k)
              ∙ sym (has-insert c.slice_id k c o.slice_configs);
          known_slices = λ rnti k e.
              let known = ok.known_slices rnti k e in
              has-insert c.slice_id k c o.slice_configs ∙ ground arith;
        }

  update_slice-IsConsistent :
      (o : Orchestrator D) (i : ℕ) (c : SliceConfig D)
      → IsConsistent o
      → IsConsistent ((update_slice o i c).0)
  unfolding update_slice
  update_slice-IsConsistent o i c ok =
      if-elim First (has i o.slice_configs) _ _
        (λ there. record {
          same_slices = λ k.
              ok.same_slices k
              ∙ sym (has-insert i k c o.slice_configs ∙ has-known i k o.slice_configs there);
          known_slices = λ rnti k e.
              let known = ok.known_slices rnti k e in
              has-insert i k c o.slice_configs ∙ ground arith;
        })
        (λ fresh. ok)

  delete_slice-IsConsistent :
      (o : Orchestrator D) (i : ℕ) → IsConsistent o → IsConsistent ((delete_slice o i).0)
  unfolding delete_slice
  delete_slice-IsConsistent o i ok =
      if-elim First (has_ue i o.ue_slice_map) _ _ (λ used. ok)
        λ unused. record {
          same_slices = λ k.
              has-erase i k o.slice_states
              ∙ ap (λ b. not (i == k) && b) (ok.same_slices k)
              ∙ sym (has-erase i k o.slice_configs);
          known_slices = λ rnti k e.
              let known = ok.known_slices rnti k e in
              let other : i ≢ k =
                λ named. has_ue-false i o.ue_slice_map rnti unused (e ∙ ap some (sym named)) in
              has-erase i k o.slice_configs ∙ ground arith;
        }

  connect-has :
      (zero : SliceState D) (states : Table (SliceState D)) (i k : ℕ)
      → has i states ≡ true
      → has k (connect zero states i) ≡ has k states
  unfolding connect
  connect-has zero states i k there = elim (Option-cases (lookup i states)) [
    | inl e ↦ let u : false ≡ true = sym (rw (e, has) refl) ∙ there in cc
    | inr (s, e) ↦ rw (e, connect) (has-insert i k _ states ∙ has-known i k states there)
  ]

  disconnect-has :
      (zero : SliceState D) (states : Table (SliceState D)) (i k : ℕ)
      → has i states ≡ true
      → has k (disconnect zero states i) ≡ has k states
  unfolding disconnect
  disconnect-has zero states i k there = elim (Option-cases (lookup i states)) [
    | inl e ↦ let u : false ≡ true = sym (rw (e, has) refl) ∙ there in cc
    | inr (s, e) ↦ rw (e, disconnect) (has-insert i k _ states ∙ has-known i k states there)
  ]

  associate_ue-IsConsistent :
      (zero : SliceState D) (o : Orchestrator D) (rnti i : ℕ)
      → IsConsistent o
      → IsConsistent ((associate_ue zero o rnti i).0)
  unfolding associate_ue
  associate_ue-IsConsistent zero o rnti i ok =
      if-elim First (has i o.slice_configs) _ _
        (λ there. record {
          same_slices = λ k.
              connect-has zero o.slice_states i k (ok.same_slices i ∙ there) ∙ ok.same_slices k;
          known_slices = λ r k e. elim (Bool-cases (rnti == r)) [
            | inl named ↦
                let u : some i ≡ some k =
                  sym (lookup-insert rnti r i o.ue_slice_map ∙ rw named refl) ∙ e in
                let v : i ≡ k = cc in ap (λ n. has n o.slice_configs) (sym v) ∙ there
            | inr other ↦
                ok.known_slices r k
                  (sym (lookup-insert rnti r i o.ue_slice_map ∙ rw other refl) ∙ e)
          ];
        })
        (λ fresh. ok)

  disassociate_ue-IsConsistent :
      (zero : SliceState D) (o : Orchestrator D) (rnti : ℕ)
      → IsConsistent o
      → IsConsistent (disassociate_ue zero o rnti)
  unfolding disassociate_ue
  disassociate_ue-IsConsistent zero o rnti ok = elim (Option-cases (lookup rnti o.ue_slice_map)) [
    | inl e ↦ subst IsConsistent (sym (rw (e, disassociate_ue) refl)) ok
    | inr (i, e) ↦
        subst IsConsistent (sym (rw (e, disassociate_ue) refl))
          (removed i (ok.known_slices rnti i e))
  ]
    where
      removed :
          (i : ℕ)
          → has i o.slice_configs ≡ true
          → IsConsistent (record o {
            slice_states = disconnect zero o.slice_states i;
            ue_slice_map = erase rnti o.ue_slice_map;
          })
      removed i there = record {
        same_slices = λ k.
            disconnect-has zero o.slice_states i k (ok.same_slices i ∙ there) ∙ ok.same_slices k;
        known_slices = λ r k e. elim (Bool-cases (rnti == r)) [
          | inl named ↦
              let u : none ≡ some k =
                sym (lookup-erase rnti r o.ue_slice_map ∙ rw named refl) ∙ e in
              cc
          | inr other ↦
              ok.known_slices r k (sym (lookup-erase rnti r o.ue_slice_map ∙ rw other refl) ∙ e)
        ];
      }

pub IsConsistent-Step :
    {D : Type 0} (zero : SliceState D) (o : Orchestrator D) {o' : Orchestrator D}
    → Step zero o o'
    → IsConsistent o
    → IsConsistent o'
IsConsistent-Step zero o (by_create blank c) ok = create_slice-IsConsistent blank o c ok
IsConsistent-Step zero o (by_update k c) ok = update_slice-IsConsistent o k c ok
IsConsistent-Step zero o (by_delete k) ok = delete_slice-IsConsistent o k ok
IsConsistent-Step zero o (by_associate rnti k) ok = associate_ue-IsConsistent zero o rnti k ok
IsConsistent-Step zero o (by_disassociate rnti) ok = disassociate_ue-IsConsistent zero o rnti ok

-- Any number of calls.
pub data Reached {D : Type 0} (zero : SliceState D) (start : Orchestrator D)
    : Orchestrator D → Type 0 where
  here : Reached zero start start
  there : {o o' : Orchestrator D} → Reached zero start o → Step zero o o' → Reached zero start o'

-- From a consistent start, creating, updating and deleting slices and putting UEs on and off them, in
-- any order, never leaves a UE on a slice without a configuration, or a slice with only one of a
-- configuration and a state.
pub IsConsistent-Reached :
    {D : Type 0} (zero : SliceState D) (start : Orchestrator D) {o : Orchestrator D}
    → IsConsistent start
    → Reached zero start o
    → IsConsistent o
IsConsistent-Reached zero start ok here = ok
IsConsistent-Reached zero start ok (there {o = o} before step) =
    IsConsistent-Step zero o step (IsConsistent-Reached zero start ok before)
