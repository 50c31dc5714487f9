-- ===== src/Housekeeper/Cleared.antt =====
-- The deletes outside Postgres that succeed.
use mathlib.Core.Path.{subst}
use ta_platform.Prelude.Results.{ok, err_not_ok}
use ta_platform.Prelude.{
  ℕ, ◌≡◌, refl, sym, ◌∙◌, ap, ◌≢◌, ◌⊎◌, inl, inr, String, Bool, true, false, List, [], ◌∷◌, str_eq,
  if◌then◌else◌, All, Bool-cases,
}
use ta_platform.Housekeeper.{
  Belonging, Estate, is_of, delete_of, count_of, PurgeWorld, click_house_tables, has_table,
  delete_from, delete_analytics, analysed, delete_external, search_error, analytics_error,
}
use ta_platform.Housekeeper.Others.{keep_of}

-- The rows of a table, none where there is no such table.
unfoldable pub rows_named : String → List (String × List Belonging) → List Belonging
rows_named name [] = []
rows_named name ((t, rows) ∷ ts) =
    let rest = rows_named name ts in if str_eq name t then rows else rest

module _ (company interview : ℕ) where
  pub keep_of-deleted :
      (rs : List Belonging) → keep_of company interview (delete_of company interview rs) ≡ []
  unfolding keep_of delete_of
  keep_of-deleted [] = refl
  keep_of-deleted (r ∷ rs) = elim (Bool-cases (is_of company interview r)) [
    | inl p ↦ rw p (keep_of-deleted rs)
    | inr p ↦ rw (p, p) (keep_of-deleted rs)
  ]

  -- The table of a name holds nothing of the interview.
  abbrev pub Cleared : List (String × List Belonging) → String → Type 0
  Cleared ts name = keep_of company interview (rows_named name ts) ≡ []

  pub rows_named-delete_from :
      (name other : String) (ts : List (String × List Belonging))
      → Cleared ts name ⊎ (name ≡ other)
      → Cleared (delete_from other company interview ts) name
  unfolding rows_named delete_from keep_of
  rows_named-delete_from name other [] h = refl
  rows_named-delete_from name other ((t, rows) ∷ ts) h = elim (Bool-cases (str_eq name t)) [
    | inl p ↦ elim (Bool-cases (str_eq other t)) [
      | inl q ↦ rw (p, q) (keep_of-deleted rows)
      | inr q ↦ rw (p, q) (same p q h)
    ]
    | inr p ↦ rw p (rows_named-delete_from name other ts (rest p h))
  ]
    where
      same :
          str_eq name t ≡ true
          → str_eq other t ≡ false
          → Cleared ((t, rows) ∷ ts) name ⊎ (name ≡ other)
          → keep_of company interview rows ≡ []
      same p q (inl c) = rw p at c
      same p q (inr e) = absurd (clash (sym p ∙ ap (λ x. str_eq x t) e ∙ q))
        where
          clash : true ≢ false
          clash h = cc

      rest :
          str_eq name t ≡ false
          → Cleared ((t, rows) ∷ ts) name ⊎ (name ≡ other)
          → Cleared ts name ⊎ (name ≡ other)
      rest p (inl c) = inl (rw p at c)
      rest p (inr e) = inr e

  pub has_table-rows_named :
      (name : String) (ts : List (String × List Belonging))
      → has_table name ts ≡ false
      → Cleared ts name
  unfolding has_table rows_named keep_of
  has_table-rows_named name [] h = refl
  has_table-rows_named name ((t, rows) ∷ ts) h = elim (Bool-cases (str_eq name t)) [
    | inl p ↦ absurd (clash (rw p at h))
    | inr p ↦ rw p (has_table-rows_named name ts (rw p at h))
  ]
    where
      clash : true ≢ false
      clash h = cc

  -- Deleting from more tables.
  pub delete_analytics-Cleared :
      (w : PurgeWorld) (names : List String) (name : String) (ts : List (String × List Belonging))
      → Cleared ts name
      → Cleared (delete_analytics w company interview names ts).0 name
  unfolding delete_analytics
  delete_analytics-Cleared w [] name ts h = h
  delete_analytics-Cleared w (n ∷ names) name ts h = elim (Bool-cases (w.check_fails n)) [
    | inl p ↦ rw p h
    | inr p ↦ elim (Bool-cases (has_table n ts)) [
      | inr q ↦ rw (p, q) (delete_analytics-Cleared w names name ts h)
      | inl q ↦ elim (Bool-cases (w.delete_fails n)) [
        | inl f ↦ rw (p, q, f) h
        | inr f ↦
            rw (p, q, f)
              (delete_analytics-Cleared w names name (delete_from n company interview ts)
                (rows_named-delete_from name n ts (inl h)))
      ]
    ]
  ]

  pub false_neq : false ≢ true
  false_neq h = cc

  pub delete_analytics-All :
      (w : PurgeWorld) (names : List String) (ts : List (String × List Belonging))
      → (delete_analytics w company interview names ts).1 ≡ true
      → All (Cleared (delete_analytics w company interview names ts).0) names
  unfolding delete_analytics
  delete_analytics-All w [] ts h = tt
  delete_analytics-All w (n ∷ names) ts h = elim (Bool-cases (w.check_fails n)) [
    | inl p ↦ absurd (false_neq (rw p at h))
    | inr p ↦ elim (Bool-cases (has_table n ts)) [
      | inr q ↦
          let r : delete_analytics w company interview (n ∷ names) ts
              ≡ delete_analytics w company interview names ts =
            rw (p, q) refl in
          subst (λ x. All (Cleared (x.0)) (n ∷ names)) (sym r)
            (
              delete_analytics-Cleared w names n ts (has_table-rows_named n ts q),
              delete_analytics-All w names ts (ap (λ x. x.1) (sym r) ∙ h),
            )
      | inl q ↦ elim (Bool-cases (w.delete_fails n)) [
        | inl f ↦ absurd (false_neq (rw (p, q, f) at h))
        | inr f ↦
            let ts' = delete_from n company interview ts in
            let r : delete_analytics w company interview (n ∷ names) ts
                ≡ delete_analytics w company interview names ts' =
              rw (p, q, f) refl in
            subst (λ x. All (Cleared (x.0)) (n ∷ names)) (sym r)
              (
                delete_analytics-Cleared w names n ts' (rows_named-delete_from n n ts (inr refl)),
                delete_analytics-All w names ts' (ap (λ x. x.1) (sym r) ∙ h),
              )
      ]
    ]
  ]

  abbrev pub External : Estate → Type 0
  External e =
      (keep_of company interview e.documents ≡ []) × All (Cleared e.analytics) click_house_tables

  pub analysed-External :
      (w : PurgeWorld) (e : Estate) (n deleted : ℕ) (r : List (String × List Belonging) × Bool)
      → (r.1 ≡ true → All (Cleared (r.0)) click_house_tables)
      → let x = analysed (record e { documents = delete_of company interview e.documents }) n r in
        x.1 ≡ ok deleted → External (x.0)
  analysed-External w e n deleted (ts, true) f h = (keep_of-deleted e.documents, f refl)
  analysed-External w e n deleted (ts, false) f h = absurd (err_not_ok analytics_error deleted h)

  -- The external deletes that succeed.
  pub delete_external-External :
      (w : PurgeWorld) (e : Estate) (deleted : ℕ)
      → (delete_external w company interview e).1 ≡ ok deleted
      → External (delete_external w company interview e).0
  unfolding delete_external
  delete_external-External w e deleted h = elim (Bool-cases w.search_refused) [
    | inl p ↦ absurd (err_not_ok search_error deleted (rw p at h))
    | inr p ↦ elim (Bool-cases w.search_lost) [
      | inl q ↦ absurd (err_not_ok search_error deleted (rw (p, q) at h))
      | inr q ↦
          let n = count_of company interview e.documents in
          let r = delete_analytics w company interview click_house_tables e.analytics in
          let without = record e { documents = delete_of company interview e.documents } in
          let same : delete_external w company interview e ≡ analysed without n r =
            rw (p, q) refl in
          subst (λ x. External (x.0)) (sym same)
            (analysed-External w e n deleted r
              (delete_analytics-All w click_house_tables e.analytics)
              (ap (λ x. x.1) (sym same) ∙ h))
    ]
  ]
