-- ===== src/Ue/Index.antt =====
-- `UeRepository` of ue_context.hpp: its two indices.
use nr5g_basic_scheduler.Base.{
  ℕ, zero, suc, ◌+◌, ◌%◌, ◌^◌, ◌<◌, ◌≡◌, refl, sym, ap, ◌∙◌, ◌≢◌, inl, inr, true, false, ◌==◌, none,
  some, List, [], ◌∷◌, ◌++◌, length, get_elem?, arith, Bool-cases, Option-cases, subst, some_unique,
  none_some, get_elem?_bound,
}
use nr5g_basic_scheduler.Base.Table.{lookup, erase, lookup-insert, lookup-erase}
use nr5g_basic_scheduler.Ue.{
  UeContext, UeRepository, create_ue, remove_ue, find_by_rnti, find_by_id,
}

-- A UE that is found by its RNTI has that RNTI and is found by its identifier, a UE that is found by
-- its identifier has that identifier and is found by its RNTI, and identifiers are smaller than the
-- next one.
pub record IsIndexed {D : Type 0} (r : UeRepository D) : Type 0 where
  pub agree :
      (rnti p : ℕ)
      → find_by_rnti r rnti ≡ some p
      → (ue : UeContext D) × (get_elem? r.heap p ≡ some ue)
        × (ue.rnti ≡ rnti)
        × (find_by_id r ue.ue_id ≡ some p)
  pub back :
      (id p : ℕ)
      → find_by_id r id ≡ some p
      → (ue : UeContext D) × (get_elem? r.heap p ≡ some ue)
        × (ue.ue_id ≡ id)
        × (find_by_rnti r ue.rnti ≡ some p)
  pub below : (id p : ℕ) → find_by_id r id ≡ some p → id < r.next_ue_id

module _ {ℓ} {A : Type ℓ} where
  get_elem?-append :
      (xs ys : List A) (i : ℕ) (x : A) → get_elem? xs i ≡ some x → get_elem? (xs ++ ys) i ≡ some x
  get_elem?-append [] ys i x e = cc
  get_elem?-append (y ∷ xs) ys zero x e = e
  get_elem?-append (y ∷ xs) ys (suc i) x e = get_elem?-append xs ys i x e

  get_elem?-append_last : (xs : List A) (x : A) → get_elem? (xs ++ x ∷ []) (length xs) ≡ some x
  get_elem?-append_last [] x = refl
  get_elem?-append_last (y ∷ xs) x = get_elem?-append_last xs x

own_key : (k : ℕ) → (k == k) ≡ true
own_key k = ground arith

other_key : (j k : ℕ) → j ≢ k → (j == k) ≡ false
other_key j k h = ground arith

module _ {D : Type 0} where
  abbrev created : UeContext D → UeRepository D → ℕ → UeContext D
  created blank r rnti = record blank { rnti = rnti; ue_id = r.next_ue_id }

  create_ue_agrees :
      (blank : UeContext D) (r : UeRepository D) (rnti : ℕ)
      → IsIndexed r
      → find_by_rnti r rnti ≡ none
      → r.next_ue_id + 1 < 2 ^ 32
      → IsIndexed ((create_ue blank r rnti).0)
  unfolding create_ue find_by_rnti find_by_id
  create_ue_agrees blank r rnti ok unused fits = record {
    agree = λ k p e. elim (Bool-cases (rnti == k)) [
      | inl named ↦
          let same : rnti ≡ k = ground arith in
          let u : some (length r.heap) ≡ some p =
            sym (lookup-insert rnti k (length r.heap) r.ue_by_rnti ∙ rw named refl) ∙ e in
          let at : length r.heap ≡ p = cc in
          (
            created blank r rnti,
            ap (get_elem? (r.heap ++ created blank r rnti ∷ [])) (sym at)
                ∙ get_elem?-append_last r.heap (created blank r rnti),
            same,
            lookup-insert r.next_ue_id r.next_ue_id (length r.heap) r.ue_by_id
                ∙ rw (own_key r.next_ue_id) u,
          )
      | inr other ↦
          let old =
            ok.agree k p
              (sym (lookup-insert rnti k (length r.heap) r.ue_by_rnti ∙ rw other refl) ∙ e) in
          let (ue, at, named, by_id) = old in
          let used : ue.ue_id < r.next_ue_id = ok.below ue.ue_id p by_id in
          (
            ue,
            get_elem?-append r.heap (created blank r rnti ∷ []) p ue at,
            named,
            lookup-insert r.next_ue_id ue.ue_id (length r.heap) r.ue_by_id
                ∙ rw (other_key r.next_ue_id ue.ue_id (λ x. absurd (omega arith))) by_id,
          )
    ];
    back = λ id p e. elim (Bool-cases (r.next_ue_id == id)) [
      | inl named ↦
          let same : r.next_ue_id ≡ id = ground arith in
          let at : length r.heap ≡ p =
            some_unique (lookup-insert r.next_ue_id id (length r.heap) r.ue_by_id ∙ rw named refl)
              e in
          (
            created blank r rnti,
            ap (get_elem? (r.heap ++ created blank r rnti ∷ [])) (sym at)
                ∙ get_elem?-append_last r.heap (created blank r rnti),
            same,
            lookup-insert rnti rnti (length r.heap) r.ue_by_rnti ∙ rw (own_key rnti) (ap some at),
          )
      | inr other ↦
          let (ue, at, named, by_rnti) =
            ok.back id p (
              sym (lookup-insert r.next_ue_id id (length r.heap) r.ue_by_id ∙ rw other refl) ∙ e) in
          (
            ue,
            get_elem?-append r.heap (created blank r rnti ∷ []) p ue at,
            named,
            lookup-insert rnti ue.rnti (length r.heap) r.ue_by_rnti
                ∙ rw
                    (other_key rnti ue.rnti
                      (λ same. none_some unused (ap (λ k. lookup k r.ue_by_rnti) same ∙ by_rnti)))
                    by_rnti,
          )
    ];
    below = λ id p e. elim (Bool-cases (r.next_ue_id == id)) [
      | inl named ↦ let same : r.next_ue_id ≡ id = ground arith in omega arith
      | inr other ↦
          let used =
            ok.below id p (
              sym (lookup-insert r.next_ue_id id (length r.heap) r.ue_by_id ∙ rw other refl) ∙ e) in
          omega arith
    ];
  }

  -- A new UE for an RNTI that no UE has keeps the two indices in agreement with each other, while
  -- identifiers do not wrap round, and is found by its RNTI and by its identifier, which no UE had.
  pub create_ue-IsIndexed :
      (blank : UeContext D) (r : UeRepository D) (rnti : ℕ)
      → IsIndexed r
      → find_by_rnti r rnti ≡ none
      → r.next_ue_id + 1 < 2 ^ 32
      → IsIndexed ((create_ue blank r rnti).0)
        × (find_by_rnti ((create_ue blank r rnti).0) rnti ≡ some ((create_ue blank r rnti).1))
        × (find_by_id ((create_ue blank r rnti).0) r.next_ue_id ≡ some ((create_ue blank r rnti).1))
        × (find_by_id r r.next_ue_id ≡ none)
  unfolding create_ue find_by_rnti find_by_id
  create_ue-IsIndexed blank r rnti ok unused fits = (
    create_ue_agrees blank r rnti ok unused fits,
    lookup-insert rnti rnti (length r.heap) r.ue_by_rnti ∙ rw (own_key rnti) refl,
    lookup-insert r.next_ue_id r.next_ue_id (length r.heap) r.ue_by_id
        ∙ rw (own_key r.next_ue_id) refl,
    elim (Option-cases (lookup r.next_ue_id r.ue_by_id)) [
      | inl e ↦ e
      | inr (p, e) ↦ let used = ok.below r.next_ue_id p e in absurd (omega arith)
    ],
  )

  removed_agrees :
      (r : UeRepository D) (rnti p : ℕ) (ue : UeContext D)
      → IsIndexed r
      → find_by_rnti r rnti ≡ some p
      → get_elem? r.heap p ≡ some ue
      → IsIndexed
          (record r { ue_by_id = erase ue.ue_id r.ue_by_id; ue_by_rnti = erase rnti r.ue_by_rnti })
  unfolding find_by_rnti find_by_id
  removed_agrees r rnti p ue ok here found = record {
    agree = λ k q e. elim (Bool-cases (rnti == k)) [
      | inl named ↦
          let u : none ≡ some q = sym (lookup-erase rnti k r.ue_by_rnti ∙ rw named refl) ∙ e in cc
      | inr other ↦
          let (v, at, of_k, by_id) =
            ok.agree k q (sym (lookup-erase rnti k r.ue_by_rnti ∙ rw other refl) ∙ e) in
          let (w, at', of_rnti, by_id') = ok.agree rnti p here in
          (
            v,
            at,
            of_k,
            lookup-erase ue.ue_id v.ue_id r.ue_by_id
                ∙ rw
                    (other_key ue.ue_id v.ue_id λ same.
                      let first : ue ≡ w = let both : some ue ≡ some w = sym found ∙ at' in cc in
                      let ids : w.ue_id ≡ v.ue_id =
                        sym (ap (λ (x : UeContext D). x.ue_id) first) ∙ same in
                      let pointers : some p ≡ some q =
                        sym by_id' ∙ ap (λ n. lookup n r.ue_by_id) ids ∙ by_id in
                      let pointer : p ≡ q = cc in
                      let ues : some w ≡ some v = sym at' ∙ ap (get_elem? r.heap) pointer ∙ at in
                      let one : w ≡ v = cc in
                      let keys : rnti ≡ k =
                        sym of_rnti ∙ ap (λ (x : UeContext D). x.rnti) one ∙ of_k in
                      ground arith)
                    by_id,
          )
    ];
    back = λ id q e. elim (Bool-cases (ue.ue_id == id)) [
      | inl named ↦ none_some (lookup-erase ue.ue_id id r.ue_by_id ∙ rw named refl) e
      | inr other ↦
          let (v, at, of_id, by_rnti) =
            ok.back id q (sym (lookup-erase ue.ue_id id r.ue_by_id ∙ rw other refl) ∙ e) in
          (
            v,
            at,
            of_id,
            lookup-erase rnti v.rnti r.ue_by_rnti
                ∙ rw
                    (other_key rnti v.rnti λ same.
                      let pointer : p ≡ q =
                        some_unique here (ap (λ k. lookup k r.ue_by_rnti) same ∙ by_rnti) in
                      let one : ue ≡ v = some_unique found (ap (get_elem? r.heap) pointer ∙ at) in
                      let ids : ue.ue_id ≡ id = ap (λ (x : UeContext D). x.ue_id) one ∙ of_id in
                      ground arith)
                    by_rnti,
          )
    ];
    below = λ id q e. elim (Bool-cases (ue.ue_id == id)) [
      | inl named ↦
          let u : none ≡ some q = sym (lookup-erase ue.ue_id id r.ue_by_id ∙ rw named refl) ∙ e in
          cc
      | inr other ↦ ok.below id q (sym (lookup-erase ue.ue_id id r.ue_by_id ∙ rw other refl) ∙ e)
    ];
  }

  -- Removing a UE keeps the indices in agreement, and it is found no more by its RNTI or by the
  -- identifier that it had.
  pub remove_ue-IsIndexed :
      (r : UeRepository D) (rnti p : ℕ) (ue : UeContext D)
      → IsIndexed r
      → find_by_rnti r rnti ≡ some p
      → get_elem? r.heap p ≡ some ue
      → IsIndexed (remove_ue r rnti)
        × (find_by_rnti (remove_ue r rnti) rnti ≡ none)
        × (find_by_id (remove_ue r rnti) ue.ue_id ≡ none)
  unfolding remove_ue find_by_rnti find_by_id
  remove_ue-IsIndexed r rnti p ue ok here found =
      rw (here, remove_ue)
        (rw (found, remove_ue)
          (
            removed_agrees r rnti p ue ok here found,
            lookup-erase rnti rnti r.ue_by_rnti ∙ rw (own_key rnti) refl,
            lookup-erase ue.ue_id ue.ue_id r.ue_by_id ∙ rw (own_key ue.ue_id) refl,
          ))

  -- Where a UE is created twice for one RNTI, removal by that RNTI forgets the second: neither the RNTI
  -- nor the second's identifier is found. The first is still found by its identifier, but by no RNTI;
  -- if the indices agreed before, and identifiers do not wrap round.
  pub remove_ue-create_ue_twice :
      (blank : UeContext D) (r : UeRepository D) (rnti : ℕ)
      → IsIndexed r
      → r.next_ue_id + 2 < 2 ^ 32
      → let first = create_ue blank r rnti in
        let second = create_ue blank (first.0) rnti in
        let left = remove_ue (second.0) rnti in
        (find_by_rnti left rnti ≡ none)
        × (find_by_id (second.0) (first.0).next_ue_id ≡ some (second.1))
        × (find_by_id left (first.0).next_ue_id ≡ none)
        × (find_by_id left r.next_ue_id ≡ some (first.1))
        × ((k : ℕ) → find_by_rnti left k ≢ some (first.1))
  unfolding create_ue remove_ue find_by_rnti find_by_id
  remove_ue-create_ue_twice blank r rnti ok fits =
      let r1 = (create_ue blank r rnti).0 in
      let r2 = (create_ue blank r1 rnti).0 in
      let p2 = length r1.heap in
      let here : lookup rnti r2.ue_by_rnti ≡ some p2 =
        lookup-insert rnti rnti p2 r1.ue_by_rnti ∙ rw (own_key rnti) refl in
      let found : get_elem? r2.heap p2 ≡ some (created blank r1 rnti) =
        get_elem?-append_last r1.heap (created blank r1 rnti) in
      let id1 = r.next_ue_id in
      let id2 = r1.next_ue_id in
      let differ : (id2 == id1) ≡ false = next_differs r.next_ue_id (omega arith) in
      let left : UeRepository D = record r2 {
        ue_by_id = erase id2 r2.ue_by_id;
        ue_by_rnti = erase rnti r2.ue_by_rnti;
      } in
      let removed : remove_ue r2 rnti ≡ left = rw (here, remove_ue) (rw (found, remove_ue) refl) in
      let forgotten : (k : ℕ) → lookup k left.ue_by_rnti ≢ some (length r.heap) = λ k e.
        elim (Bool-cases (rnti == k)) [
          | inl named ↦ none_some (lookup-erase rnti k r2.ue_by_rnti ∙ rw named refl) e
          | inr other ↦
              let before : lookup k r.ue_by_rnti ≡ some (length r.heap) =
                sym (
                  lookup-erase rnti k r2.ue_by_rnti
                  ∙ rw other (
                      lookup-insert rnti k p2 r1.ue_by_rnti
                      ∙ rw other
                          (lookup-insert rnti k (length r.heap) r.ue_by_rnti ∙ rw other refl)))
                ∙ e in
              let (ue, at, _, _) = ok.agree k (length r.heap) before in
              let inside = get_elem?_bound r.heap (length r.heap) ue at in absurd (omega arith)
        ] in
      subst
        (λ (x : UeRepository D).
          (lookup rnti x.ue_by_rnti ≡ none)
          × (lookup id2 r2.ue_by_id ≡ some p2)
          × (lookup id2 x.ue_by_id ≡ none)
          × (lookup id1 x.ue_by_id ≡ some (length r.heap))
          × ((k : ℕ) → lookup k x.ue_by_rnti ≢ some (length r.heap)))
        (sym removed)
        (
          lookup-erase rnti rnti r2.ue_by_rnti ∙ rw (own_key rnti) refl,
          lookup-insert id2 id2 p2 r1.ue_by_id ∙ rw (own_key id2) refl,
          lookup-erase id2 id2 r2.ue_by_id ∙ rw (own_key id2) refl,
          lookup-erase id2 id1 r2.ue_by_id
              ∙ rw differ (
                  lookup-insert id2 id1 p2 r1.ue_by_id
                  ∙ rw differ
                      (lookup-insert id1 id1 (length r.heap) r.ue_by_id ∙ rw (own_key id1) refl)),
          forgotten,
        )
    where
      next_differs : (n : ℕ) → n + 1 < 2 ^ 32 → ((n + 1) % 2 ^ 32 == n) ≡ false
      next_differs n h = ground arith
