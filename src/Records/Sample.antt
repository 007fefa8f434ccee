-- ===== src/Records/Sample.antt =====
-- A table of records as a list of rows, the newest first: a later row hides an earlier one.
use football_prediction_craw.Prelude.{
  ◌≡◌, refl, sym, ap, ◌∙◌, subst, Bool, true, false, not, ◌&&◌, Option, none, some, String, str_eq,
  eq_iff, List, [], ◌∷◌, map, All, if◌then◌else◌, arith, Bool-cases, inl, inr,
}
use football_prediction_craw.Records.{Record, Table, member, different}

some_inj : {A : Type 0} {a b : A} → some a ≡ some b → a ≡ b
some_inj {A} {a} {b} h = ap (λ o. elim o [ none ↦ a | some x ↦ x ]) h

module _ {Data : Type 0} where
  abbrev pub ids : List (Record Data) → List String
  ids = map (λ r. r.external_id)

  unfoldable pub find : String → String → List (Record Data) → Option (Record Data)
  find source key [] = none
  find source key (r ∷ s) =
      if str_eq r.source_id source && str_eq r.external_id key then some r else find source key s

  unfoldable pub without : String → List (Record Data) → List (Record Data)
  without key [] = []
  without key (r ∷ s) = if str_eq r.external_id key then without key s else r ∷ without key s

  unfoldable pub active : String → List (Record Data) → List (Record Data)
  active source [] = []
  active source (r ∷ s) =
      let others = without r.external_id (active source s) in
      if str_eq r.source_id source
      then (if r.is_active then r ∷ others else others)
      else active source s

  member-without :
      (key other : String) (s : List (Record Data))
      → member key (ids (without other s)) ≡ (member key (ids s) && not (str_eq other key))
  unfolding without
  member-without key other [] = refl
  member-without key other (r ∷ s) = ground (
    arith,
    member-without key other s,
    eq_iff r.external_id other,
    eq_iff r.external_id key,
    eq_iff other key,
  )

  different-without :
      (other : String) (s : List (Record Data))
      → different (ids s) ≡ true
      → different (ids (without other s)) ≡ true
  unfolding without
  different-without other [] h = refl
  different-without other (r ∷ s) h =
      ground (arith, different-without other s, member-without r.external_id other s)

  pub find-cons :
      (source key : String) (r : Record Data) (s : List (Record Data))
      → find source key (r ∷ s) ≡ (
          if str_eq r.source_id source && str_eq r.external_id key
          then some r
          else find source key s)
  unfolding find
  find-cons source key r s = refl

  pub find-key :
      (source key : String) (r : Record Data) (s : List (Record Data))
      → find source key s ≡ some r
      → (r.source_id ≡ source) × (r.external_id ≡ key)
  unfolding find
  find-key source key r [] h = ground (arith, h)
  find-key source key r (x ∷ s) h =
      elim (Bool-cases (str_eq x.source_id source && str_eq x.external_id key)) [
        | inl e ↦
            let same =
              some_inj (subst (λ b. (if b then some x else find source key s) ≡ some r) e h) in
            (
              sym (ap (λ y. y.source_id) same) ∙ (eq_iff x.source_id source).0 (ground (arith, e)),
              sym (ap (λ y. y.external_id) same) ∙ (eq_iff x.external_id key).0 (ground (arith, e)),
            )
        | inr e ↦
            find-key source key r s
              (subst (λ b. (if b then some x else find source key s) ≡ some r) e h)
      ]

  pub active-different :
      (source : String) (s : List (Record Data)) → different (ids (active source s)) ≡ true
  unfolding active
  active-different source [] = refl
  active-different source (r ∷ s) = ground (
    arith,
    active-different source s,
    different-without r.external_id (active source s),
    member-without r.external_id r.external_id (active source s),
    eq_iff r.external_id r.external_id,
  )

  pub active-member :
      (source key : String) (r : Record Data) (s : List (Record Data))
      → find source key s ≡ some r
      → member key (ids (active source s)) ≡ r.is_active
  unfolding find active
  active-member source key r [] h = ground (arith, h)
  active-member source key r (x ∷ s) h =
      let hidden = member-without key x.external_id (active source s) in
      elim (Bool-cases (str_eq x.source_id source && str_eq x.external_id key)) [
        | inl e ↦
            let same =
              some_inj (subst (λ b. (if b then some x else find source key s) ≡ some r) e h) in
            subst (λ y. member key (ids (active source (x ∷ s))) ≡ y.is_active) same
              (ground (arith, e, hidden))
        | inr e ↦
            let rest =
              active-member source key r s
                (subst (λ b. (if b then some x else find source key s) ≡ some r) e h) in
            ground (arith, e, hidden, rest)
      ]

  abbrev Found : String → List (Record Data) → List (Record Data) → Type 0
  Found source s = All (λ r. (find source r.external_id s ≡ some r) × (r.source_id ≡ source))

  without-Found :
      (source : String) (x : Record Data) (s rs : List (Record Data))
      → Found source s rs
      → Found source (x ∷ s) (without x.external_id rs)
  unfolding without find
  without-Found source x s [] h = tt
  without-Found source x s (r ∷ rs) h = elim (Bool-cases (str_eq r.external_id x.external_id)) [
    | inl e ↦ rw (e) (without-Found source x s rs h.1)
    | inr e ↦ rw (e) (
      (
        ground (
          arith,
          h.0.0,
          e,
          eq_iff r.external_id x.external_id,
          eq_iff x.external_id r.external_id,
        ),
        h.0.1,
      ),
      without-Found source x s rs h.1,
    )
  ]

  cons-Found :
      (source : String) (x : Record Data) (s rs : List (Record Data))
      → str_eq x.source_id source ≡ false
      → Found source s rs
      → Found source (x ∷ s) rs
  unfolding find
  cons-Found source x s [] e h = tt
  cons-Found source x s (r ∷ rs) e h =
      ((ground (arith, h.0.0, e), h.0.1), cons-Found source x s rs e h.1)

  pick :
      (source : String) (x : Record Data) (s others : List (Record Data)) (c : Bool)
      → (find source x.external_id (x ∷ s) ≡ some x) × (x.source_id ≡ source)
      → Found source (x ∷ s) others
      → Found source (x ∷ s) (if c then x ∷ others else others)
  pick source x s others true h k = (h, k)
  pick source x s others false h k = k

  head-found :
      (source : String) (x : Record Data) (s : List (Record Data))
      → str_eq x.source_id source ≡ true
      → (find source x.external_id (x ∷ s) ≡ some x) × (x.source_id ≡ source)
  unfolding find
  head-found source x s e =
      (ground (arith, e, eq_iff x.external_id x.external_id), (eq_iff x.source_id source).0 e)

  pub active-find : (source : String) (s : List (Record Data)) → Found source s (active source s)
  unfolding active
  active-find source [] = tt
  active-find source (x ∷ s) =
      let others = without x.external_id (active source s) in
      elim (Bool-cases (str_eq x.source_id source)) [
        | inl e ↦
            subst
              (λ b.
                Found source (x ∷ s)
                  (if b then (if x.is_active then x ∷ others else others) else active source s))
              (sym e)
              (pick source x s others x.is_active (head-found source x s e)
                (without-Found source x s (active source s) (active-find source s)))
        | inr e ↦
            subst
              (λ b.
                Found source (x ∷ s)
                  (if b then (if x.is_active then x ∷ others else others) else active source s))
              (sym e) (cons-Found source x s (active source s) e (active-find source s))
      ]

abbrev pub rows : (Data : Type 0) → Table Data
rows Data = record {
  State = List (Record Data);
  find = find;
  put = λ r s. r ∷ s;
  active = active;
  find-put = λ source key r s. find-cons source key r s;
  find-key = find-key;
  active-find = active-find;
  active-different = active-different;
  active-member = active-member;
}
