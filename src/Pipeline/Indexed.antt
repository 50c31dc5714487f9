-- ===== src/Pipeline/Indexed.antt =====
-- At-least-once delivery to the search index.
use mathlib.Core.Path.{subst}
use ta_platform.Prelude.{
  ℕ, ◌<◌, ◌≡◌, refl, sym, ◌∙◌, ap, ◌≢◌, ◌⊎◌, inl, inr, String, Bool, true, false, Option, none,
  some, List, [], ◌∷◌, ◌++◌, length, str_eq, Bool-cases, All, All-map, if◌then◌else◌,
}
use ta_platform.Prelude.Membership.{In}
use ta_platform.Pipeline.{
  Fetch, IndexedDocument, DocumentDecoders, DecodedDocument, undecoded, unindexed, indexed,
  decode_document, also_document, decode_documents, upsert_all, index_batch, run_indexer,
}
use ta_platform.Pipeline.Runs.{
  messages_of, run_batches-messages_of, run_batches-error, run_batches-All,
}
use ta_platform.Pipeline.Redelivered.{
  find_document, str_eq_refl, find_document-upsert_all, last_accepted, last_accepted-cases,
}

some_document : (d : IndexedDocument) (o : Option IndexedDocument) → o ≡ some d → o ≢ none
some_document d o p q = cc

module _ (rejects : IndexedDocument → Bool) where
  -- A document that is found stays found.
  last_accepted-keeps :
      (id : String) (ds : List IndexedDocument) (o : Option IndexedDocument)
      → o ≢ none
      → last_accepted rejects id ds o ≢ none
  last_accepted-keeps id ds o h = elim (last_accepted-cases rejects id ds) [
    | inl (x, f) ↦ some_document x (last_accepted rejects id ds o) (f o)
    | inr f ↦ rw (f o) h
  ]

  -- An accepted document of a batch is found.
  In-last_accepted :
      (doc : IndexedDocument) (ds : List IndexedDocument) (o : Option IndexedDocument)
      → rejects doc ≡ false
      → In doc ds
      → last_accepted rejects doc.id ds o ≢ none
  unfolding last_accepted
  In-last_accepted doc [] o h m = absurd m
  In-last_accepted doc (d ∷ ds) o h (inl p) =
      rw (ap rejects (sym p) ∙ h, ap (λ x. str_eq doc.id x.id) (sym p) ∙ str_eq_refl doc.id)
        (last_accepted-keeps doc.id ds (some d) (some_document d (some d) refl))
  In-last_accepted doc (d ∷ ds) o h (inr m) = elim (Bool-cases (rejects d)) [
    | inl p ↦ rw p (In-last_accepted doc ds o h m)
    | inr p ↦ rw p (In-last_accepted doc ds (if str_eq doc.id d.id then some d else o) h m)
  ]

  module _ {M : Type 0} (d : DocumentDecoders M) where
    -- If a message has a document, Typesense rejected it or the collection has one under its id.
    abbrev pub IsIndexed : List IndexedDocument → M → Type 0
    IsIndexed docs m =
        (doc : IndexedDocument)
        → decode_document d m ≡ indexed doc
        → (rejects doc ≡ true) ⊎ (find_document doc.id docs ≢ none)

    In-also :
        (x : DecodedDocument) (docs : List IndexedDocument) (doc : IndexedDocument)
        → In doc docs
        → In doc (also_document x docs)
    In-also undecoded docs doc m = m
    In-also unindexed docs doc m = m
    In-also (indexed y) docs doc m = inr m

    decode_documents-In :
        (ms : List M)
        → All
            (λ m.
              (doc : IndexedDocument)
              → decode_document d m ≡ indexed doc
              → In doc (decode_documents d ms))
            ms
    unfolding decode_documents
    decode_documents-In [] = tt
    decode_documents-In (m ∷ ms) = (
      λ doc p. rw p (inl refl),
      All-map (λ x f doc p. In-also (decode_document d m) (decode_documents d ms) doc (f doc p)) ms
          (decode_documents-In ms),
    )

    index_batch-gives :
        (fails : ℕ → Bool) (i : ℕ) (ms : List M) (docs : List IndexedDocument)
        → (index_batch d rejects fails i ms docs).1 ≡ true
        → All (IsIndexed (index_batch d rejects fails i ms docs).0) ms
    unfolding index_batch
    index_batch-gives fails i ms docs h = elim (Bool-cases (fails i)) [
      | inl p ↦ absurd (clash (rw p at h))
      | inr p ↦
          let ds = decode_documents d ms in
          let same : index_batch d rejects fails i ms docs ≡ (upsert_all rejects ds docs, true) =
            rw p refl in
          subst (λ x. All (IsIndexed (x.0)) ms) (sym same)
            (All-map (λ m f doc q. found doc ds (f doc q)) ms (decode_documents-In ms))
    ]
      where
        clash : false ≢ true
        clash h = cc

        found :
            (doc : IndexedDocument) (ds : List IndexedDocument)
            → In doc ds
            → (rejects doc ≡ true) ⊎ (find_document doc.id (upsert_all rejects ds docs) ≢ none)
        found doc ds m = elim (Bool-cases (rejects doc)) [
          | inl r ↦ inl r
          | inr r ↦ inr (λ n.
              In-last_accepted doc ds (find_document doc.id docs) r m
                (sym (find_document-upsert_all rejects doc.id ds docs) ∙ n))
        ]

    index_batch-keeps :
        (fails : ℕ → Bool) (i : ℕ) (ms : List M) (docs : List IndexedDocument) (m : M)
        → IsIndexed docs m
        → IsIndexed (index_batch d rejects fails i ms docs).0 m
    unfolding index_batch
    index_batch-keeps fails i ms docs m h doc q = elim (Bool-cases (fails i)) [
      | inl p ↦ rw p (h doc q)
      | inr p ↦ elim (h doc q) [
        | inl r ↦ inl r
        | inr f ↦ rw p (
            inr (λ n.
              last_accepted-keeps doc.id (decode_documents d ms) (find_document doc.id docs) f
                (sym (find_document-upsert_all rejects doc.id (decode_documents d ms) docs) ∙ n)))
      ]
    ]

-- The search index misses no committed event: whatever fails, when the indexer ends, every message whose
-- offset it committed has no searchable text, or Typesense rejected its document, or the collection has a
-- document under its event's id; and what it committed, then what was pending, are the first messages of
-- the topic, in order.
pub run_indexer-IsIndexed :
    {M : Type 0} (d : DocumentDecoders M) (fuel batch_size : ℕ) (rejects : IndexedDocument → Bool)
    (fails commit_fails : ℕ → Bool) (fs : List (Fetch M)) (docs : List IndexedDocument)
    → length fs < fuel
    → let r = run_indexer d fuel batch_size rejects fails commit_fails fs docs in
      (r.error ≢ none)
      × ((left : List M) × (messages_of fs ≡ r.committed ++ (r.pending ++ left)))
      × All (IsIndexed rejects d r.store) r.committed
unfolding run_indexer
run_indexer-IsIndexed d fuel batch_size rejects fails commit_fails fs docs h =
    let write = index_batch d rejects fails in
    (
      run_batches-error batch_size write commit_fails fuel 0 fs docs h,
      run_batches-messages_of batch_size write commit_fails fuel 0 fs docs,
      run_batches-All batch_size write commit_fails (IsIndexed rejects d)
          (index_batch-gives rejects d fails) (index_batch-keeps rejects d fails) fuel 0 fs docs,
    )
