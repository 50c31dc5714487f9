-- ===== src/Pipeline/Redelivered.antt =====
-- Redelivery to the search index.
use ta_platform.Prelude.{
  ℕ, ◌≡◌, refl, sym, ◌∙◌, ap, ◌≢◌, ◌⊎◌, inl, inr, String, Bool, true, false, Option, none, some,
  List, [], ◌∷◌, str_eq, eq_iff, Bool-cases, if◌then◌else◌,
}
use ta_platform.Pipeline.{
  IndexedDocument, DocumentDecoders, decode_documents, upsert, upsert_all, index_batch,
}

-- The document of an id.
unfoldable pub find_document : String → List IndexedDocument → Option IndexedDocument
find_document id [] = none
find_document id (d ∷ ds) =
    let rest = find_document id ds in if str_eq id d.id then some d else rest

pub str_eq_refl : (a : String) → str_eq a a ≡ true
str_eq_refl a = (eq_iff a a).1 refl

-- An upsert is what is found under its id, and nothing else changes.
find_document-upsert :
    (id : String) (d : IndexedDocument) (ds : List IndexedDocument)
    → find_document id (upsert d ds) ≡ (if str_eq id d.id then some d else find_document id ds)
unfolding find_document upsert
find_document-upsert id d [] = refl
find_document-upsert id d (c ∷ cs) = elim (Bool-cases (str_eq d.id c.id)) [
  | inl p ↦
      let e : d.id ≡ c.id = (eq_iff d.id c.id).0 p in
      elim (Bool-cases (str_eq id d.id)) [
        | inl q ↦ rw (p, q) refl
        | inr q ↦ let r : str_eq id c.id ≡ false = ap (str_eq id) (sym e) ∙ q in rw (p, q, r) refl
      ]
  | inr p ↦ elim (Bool-cases (str_eq id c.id)) [
    | inl q ↦ let r : str_eq id d.id ≡ false = other_id id d.id c.id q p in rw (p, q, r) refl
    | inr q ↦ rw (p, q) (find_document-upsert id d cs)
  ]
]
  where
    other_id : (a b c : String) → str_eq a c ≡ true → str_eq b c ≡ false → str_eq a b ≡ false
    other_id a b c q p = elim (Bool-cases (str_eq a b)) [
      | inr r ↦ r
      | inl r ↦
          let e : a ≡ b = (eq_iff a b).0 r in absurd (clash (sym q ∙ ap (λ x. str_eq x c) e ∙ p))
    ]
      where
        clash : true ≢ false
        clash h = cc

-- The last document of a batch that has the id and is accepted.
unfoldable pub last_accepted :
    (IndexedDocument → Bool)
    → String
    → List IndexedDocument
    → Option IndexedDocument
    → Option IndexedDocument
last_accepted rejects id [] o = o
last_accepted rejects id (d ∷ ds) o =
    let kept = last_accepted rejects id ds (if str_eq id d.id then some d else o) in
    let dropped = last_accepted rejects id ds o in if rejects d then dropped else kept

pub find_document-upsert_all :
    (rejects : IndexedDocument → Bool) (id : String) (ds docs : List IndexedDocument)
    → find_document id (upsert_all rejects ds docs)
      ≡ last_accepted rejects id ds (find_document id docs)
unfolding upsert_all last_accepted
find_document-upsert_all rejects id [] docs = refl
find_document-upsert_all rejects id (d ∷ ds) docs = elim (Bool-cases (rejects d)) [
  | inl p ↦ rw p (find_document-upsert_all rejects id ds docs)
  | inr p ↦ rw p (
      find_document-upsert_all rejects id ds (upsert d docs)
      ∙ ap (last_accepted rejects id ds) (find_document-upsert id d docs))
]

-- What was there before a batch matters only if the batch has no document of the id.
pub last_accepted-cases :
    (rejects : IndexedDocument → Bool) (id : String) (ds : List IndexedDocument)
    → ((d : IndexedDocument) × ((o : Option IndexedDocument)
          → last_accepted rejects id ds o ≡ some d))
      ⊎ ((o : Option IndexedDocument) → last_accepted rejects id ds o ≡ o)
unfolding last_accepted
last_accepted-cases rejects id [] = inr (λ o. refl)
last_accepted-cases rejects id (d ∷ ds) = elim (Bool-cases (rejects d)) [
  | inl p ↦ rw p (last_accepted-cases rejects id ds)
  | inr p ↦ elim (Bool-cases (str_eq id d.id)) [
    | inr q ↦ rw (p, q) (last_accepted-cases rejects id ds)
    | inl q ↦ elim (last_accepted-cases rejects id ds) [
      | inl (x, f) ↦ inl (x, λ o. rw (p, q) (f (some d)))
      | inr f ↦ inl (d, λ o. rw (p, q) (f (some d)))
    ]
  ]
]

-- Redelivery is a no-op: a batch that is indexed again leaves every document of the collection as it was
-- after the first time.
pub index_batch-index_batch :
    {M : Type 0} (d : DocumentDecoders M) (rejects : IndexedDocument → Bool) (fails : ℕ → Bool)
    (i j : ℕ) (ms : List M) (docs : List IndexedDocument) (id : String)
    → fails i ≡ false
    → let once = (index_batch d rejects fails i ms docs).0 in
      find_document id (index_batch d rejects fails j ms once).0 ≡ find_document id once
unfolding index_batch
index_batch-index_batch d rejects fails i j ms docs id h = elim (Bool-cases (fails j)) [
  | inl p ↦ rw (h, p) refl
  | inr p ↦
      let ds = decode_documents d ms in
      let once = find_document-upsert_all rejects id ds docs in
      let twice = find_document-upsert_all rejects id ds (upsert_all rejects ds docs) in
      elim (last_accepted-cases rejects id ds) [
        | inl (x, f) ↦
            rw (h, p)
              (twice
                ∙ f (find_document id (upsert_all rejects ds docs))
                ∙ sym (once ∙ f (find_document id docs)))
        | inr f ↦ rw (h, p) (twice ∙ f (find_document id (upsert_all rejects ds docs)))
      ]
]
