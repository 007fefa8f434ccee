-- ===== src/Records/Absence.antt =====
-- What happens to a record that complete collections do not have (record_repository.py).
use football_prediction_craw.Prelude.{
  ◌+◌, ◌≡◌, refl, sym, ap, ◌∙◌, subst, true, false, Option, none, some, String, str_eq, eq_iff,
  List, [], ◌∷◌, map, All, leb, arith, Bool-cases, inl, inr,
}
use football_prediction_craw.Moment.{DateTime}
use football_prediction_craw.Records.{
  Record, Collection, Table, Database, member, different, created, seen, updated, persist_found,
  persist_item, persist_items, update_fetch_state, missed, reconcile, reconcile_all,
  reconcile_missing, persist_collection, note,
}

same_row : {A : Type 0} {a b : A} → some a ≡ some b → a ≡ b
same_row {A} {a} {b} h = ap (λ o. elim o [ none ↦ a | some x ↦ x ]) h

module _ {Data : Type 0} (table : Table Data) (fingerprint : Data → String)
    (source key : String) where
  abbrev pub found : Database table fingerprint → Option (Record Data)
  found d = table.find source key d.records

  -- a row of the same source under another identifier
  put-other :
      (r : Record Data) (s : table.State)
      → str_eq r.external_id key ≡ false
      → table.find source key (table.put r s) ≡ table.find source key s
  put-other r s h = ground (arith, table.find-put source key r s)

  put-same :
      (r : Record Data) (s : table.State)
      → r.source_id ≡ source
      → str_eq r.external_id key ≡ true
      → table.find source key (table.put r s) ≡ some r
  put-same r s h k = ground (arith, table.find-put source key r s, eq_iff r.source_id source)

  persist_item-other :
      (now : DateTime) (k : String) (payload : Data) (d : Database table fingerprint)
      → str_eq k key ≡ false
      → found (persist_item table fingerprint source now (k, payload) d) ≡ found d
  unfolding persist_item persist_found created updated seen note
  persist_item-other now k payload d h = cases (table.find source k d.records) refl
    where
      cases :
          (o : Option (Record Data))
          → table.find source k d.records ≡ o
          → found (persist_found table fingerprint source now k payload o d) ≡ found d
      cases none e = put-other _ d.records h
      cases (some r) e =
          let same = (table.find-key source k r d.records e).1 in
          let kept =
            put-other (seen table fingerprint now payload r) d.records
              (ap (λ x. str_eq x key) same ∙ h) in
          elim (Bool-cases (str_eq r.content_hash (fingerprint payload))) [
            | inl c ↦ rw (c) kept
            | inr c ↦ rw (c) kept
          ]

  persist_items-other :
      (now : DateTime) (items : List (String × Data)) (d : Database table fingerprint)
      → member key (map (λ i. i.0) items) ≡ false
      → found (persist_items table fingerprint source now items d) ≡ found d
  unfolding persist_items
  persist_items-other now [] d h = refl
  persist_items-other now ((k, payload) ∷ items) d h =
      persist_items-other now items (persist_item table fingerprint source now (k, payload) d)
        (ground arith)
      ∙ persist_item-other now k payload d (ground arith)

  -- a row of the list that has the identifier is `r`
  abbrev Rows : Record Data → List (Record Data) → Type 0
  Rows r = All (λ x. (x.source_id ≡ source) × (str_eq x.external_id key ≡ true → x ≡ r))

  missed-key :
      (r : Record Data)
      → ((missed table fingerprint r).external_id ≡ r.external_id)
        × ((missed table fingerprint r).source_id ≡ r.source_id)
  unfolding missed
  missed-key r = (refl, refl)

  module _ (observed : List String) where
    reconcile-other :
        (r : Record Data) (d : Database table fingerprint)
        → str_eq r.external_id key ≡ false
        → found (reconcile table fingerprint observed r d) ≡ found d
    unfolding reconcile note
    reconcile-other r d h =
        let kept =
          put-other (missed table fingerprint r) d.records
            (ap (λ x. str_eq x key) (missed-key r).0 ∙ h) in
        elim (Bool-cases (member r.external_id observed)) [
          | inl a ↦ rw (a) refl
          | inr a ↦ elim (Bool-cases (leb 3 (r.missing_count + 1))) [
            | inl b ↦ rw (a, b) kept
            | inr b ↦ rw (a, b) kept
          ]
        ]

    reconcile-same :
        (r : Record Data) (d : Database table fingerprint)
        → r.source_id ≡ source
        → str_eq r.external_id key ≡ true
        → member r.external_id observed ≡ false
        → found (reconcile table fingerprint observed r d) ≡ some (missed table fingerprint r)
    unfolding reconcile note
    reconcile-same r d h k a =
        let put =
          put-same (missed table fingerprint r) d.records ((missed-key r).1 ∙ h)
            (ap (λ x. str_eq x key) (missed-key r).0 ∙ k) in
        elim (Bool-cases (leb 3 (r.missing_count + 1))) [
          | inl b ↦ rw (a, b) put
          | inr b ↦ rw (a, b) put
        ]

    reconcile_all-other :
        (rs : List (Record Data)) (d : Database table fingerprint)
        → member key (map (λ x. x.external_id) rs) ≡ false
        → found (reconcile_all table fingerprint observed rs d) ≡ found d
    unfolding reconcile_all
    reconcile_all-other [] d h = refl
    reconcile_all-other (r ∷ rs) d h =
        reconcile_all-other rs (reconcile table fingerprint observed r d) (ground arith)
        ∙ reconcile-other r d (ground arith)

    reconcile_all-same :
        (r : Record Data) (rs : List (Record Data)) (d : Database table fingerprint)
        → member key (map (λ x. x.external_id) rs) ≡ true
        → different (map (λ x. x.external_id) rs) ≡ true
        → Rows r rs
        → member key observed ≡ false
        → found (reconcile_all table fingerprint observed rs d) ≡ some (missed table fingerprint r)
    unfolding reconcile_all
    reconcile_all-same r [] d h k rows a = ground (arith, h)
    reconcile_all-same r (x ∷ rs) d h k rows a = elim (Bool-cases (str_eq x.external_id key)) [
      | inl e ↦
          let name = (eq_iff x.external_id key).0 e in
          reconcile_all-other rs (reconcile table fingerprint observed x d)
            (subst (λ n. member n (map (λ y. y.external_id) rs) ≡ false) name (ground (arith, k)))
          ∙ reconcile-same x d rows.0.0 e (subst (λ n. member n observed ≡ false) (sym name) a)
          ∙ ap (λ y. some (missed table fingerprint y)) (rows.0.1 e)
      | inr e ↦
          reconcile_all-same r rs (reconcile table fingerprint observed x d) (ground (arith, h, e))
            (ground (arith, k)) rows.1 a
    ]

  listed_once :
      (r : Record Data) (s : table.State) (rs : List (Record Data))
      → table.find source key s ≡ some r
      → All (λ x. (table.find source x.external_id s ≡ some x) × (x.source_id ≡ source)) rs
      → Rows r rs
  listed_once r s [] h rows = tt
  listed_once r s (x ∷ rs) h rows = (
    (
      rows.0.1,
      λ e. same_row (
          sym
            (subst (λ k. table.find source k s ≡ some x) ((eq_iff x.external_id key).0 e) rows.0.0)
          ∙ h),
    ),
    listed_once r s rs h rows.1,
  )

  -- A record that is active and that a complete collection does not have is kept, with one more
  -- absence counted; it stays active unless that is the third absence or a later one.
  pub absent_record_is_missed :
      (result : Collection Data) (now : DateTime) (d : Database table fingerprint) (r : Record Data)
      → found d ≡ some r
      → r.is_active ≡ true
      → member key (map (λ i. i.0) result.items) ≡ false
      → found (persist_collection table fingerprint source result now d)
        ≡ some (missed table fingerprint r)
  unfolding persist_collection reconcile_missing update_fetch_state
  absent_record_is_missed result now d r h live away =
      let d₁ = persist_items table fingerprint source now result.items d in
      let still = persist_items-other now result.items d away ∙ h in
      reconcile_all-same (map (λ i. i.0) result.items) r (table.active source d₁.records)
        (update_fetch_state table fingerprint source result now d₁)
        (table.active-member source key r d₁.records still ∙ live)
        (table.active-different source d₁.records)
        (listed_once r d₁.records (table.active source d₁.records) still
          (table.active-find source d₁.records))
        away

  missed-live :
      (r : Record Data)
      → r.is_active ≡ true
      → leb 3 (r.missing_count + 1) ≡ false
      → (missed table fingerprint r).is_active ≡ true
  unfolding missed
  missed-live r h k = rw (k) h

  -- A record that is active and was not absent before stays active through two complete collections
  -- without it, and the third such collection makes it inactive, with three absences counted.
  pub third_absence_deactivates :
      (a b c : Collection Data) (t u v : DateTime) (d : Database table fingerprint)
      (r : Record Data)
      → found d ≡ some r
      → r.is_active ≡ true
      → r.missing_count ≡ 0
      → member key (map (λ i. i.0) a.items) ≡ false
      → member key (map (λ i. i.0) b.items) ≡ false
      → member key (map (λ i. i.0) c.items) ≡ false
      → let d₁ = persist_collection table fingerprint source a t d in
        let d₂ = persist_collection table fingerprint source b u d₁ in
        let d₃ = persist_collection table fingerprint source c v d₂ in
        ((x : Record Data) × (found d₂ ≡ some x) × (x.is_active ≡ true) × (x.missing_count ≡ 2))
        × ((y : Record Data) × (found d₃ ≡ some y) × (y.is_active ≡ false) × (y.missing_count ≡ 3))
  unfolding missed
  third_absence_deactivates a b c t u v d r h live zero_count no_a no_b no_c =
      let m₁ = missed table fingerprint r in
      let m₂ = missed table fingerprint m₁ in
      let d₁ = persist_collection table fingerprint source a t d in
      let d₂ = persist_collection table fingerprint source b u d₁ in
      let live₁ = missed-live r live (ground (arith, zero_count)) in
      let live₂ = missed-live m₁ live₁ (ground (arith, zero_count)) in
      let f₁ = absent_record_is_missed a t d r h live no_a in
      let f₂ = absent_record_is_missed b u d₁ m₁ f₁ live₁ no_b in
      let f₃ = absent_record_is_missed c v d₂ m₂ f₂ live₂ no_c in
      (
        (m₂, f₂, live₂, omega (arith, zero_count)),
        (missed table fingerprint m₂, f₃, ground (arith, zero_count), omega (arith, zero_count)),
      )
