-- ===== src/Pipeline/Runs.antt =====
-- The loop over batches: what it commits, in what order, and that it ends.
use ta_platform.Prelude.{
  ℕ, zero, suc, ◌-◌, ◌<◌, ◌≤◌, ◌≡◌, refl, sym, ◌∙◌, ap, ◌≢◌, Bool, true, false, Option, none, some,
  List, [], ◌∷◌, ◌++◌, length, arith, All, All-append, All-map,
}
use ta_platform.Pipeline.{
  Fetch, message, deadline, fetch_failed, cancelled, RunEnd, fill_batch, fetch_batch, Ran, ran,
  written_batch, fetched_batch, run_batches, also_committed, write_error, commit_error,
}

-- The messages of a broker, in order.
unfoldable pub messages_of : {M : Type 0} → List (Fetch M) → List M
messages_of [] = []
messages_of (message m ∷ fs) = m ∷ messages_of fs
messages_of (deadline ∷ fs) = messages_of fs
messages_of (fetch_failed ∷ fs) = messages_of fs
messages_of (cancelled ∷ fs) = messages_of fs

-- A batch takes the first messages, and leaves the rest.
fill_batch-messages_of :
    {M : Type 0} (room : ℕ) (fs : List (Fetch M))
    → messages_of fs ≡ (fill_batch room fs).messages ++ messages_of (fill_batch room fs).rest
unfolding messages_of fill_batch
fill_batch-messages_of zero fs = refl
fill_batch-messages_of (suc room) [] = refl
fill_batch-messages_of (suc room) (message m ∷ fs) =
    ap (λ l. m ∷ l) (fill_batch-messages_of room fs)
fill_batch-messages_of (suc room) (deadline ∷ fs) = refl
fill_batch-messages_of (suc room) (fetch_failed ∷ fs) = refl
fill_batch-messages_of (suc room) (cancelled ∷ fs) = refl

fetch_batch-messages_of :
    {M : Type 0} (size : ℕ) (fs : List (Fetch M))
    → messages_of fs ≡ (fetch_batch size fs).messages ++ messages_of (fetch_batch size fs).rest
unfolding messages_of fetch_batch
fetch_batch-messages_of size [] = refl
fetch_batch-messages_of size (message m ∷ fs) =
    ap (λ l. m ∷ l) (fill_batch-messages_of (size - 1) fs)
fetch_batch-messages_of size (deadline ∷ fs) = refl
fetch_batch-messages_of size (fetch_failed ∷ fs) = refl
fetch_batch-messages_of size (cancelled ∷ fs) = refl

fill_batch-length :
    {M : Type 0} (room : ℕ) (fs : List (Fetch M)) → length (fill_batch room fs).rest ≤ length fs
unfolding fill_batch
fill_batch-length zero fs = omega arith
fill_batch-length (suc room) [] = omega arith
fill_batch-length (suc room) (message m ∷ fs) = omega (arith, fill_batch-length room fs)
fill_batch-length (suc room) (deadline ∷ fs) = omega arith
fill_batch-length (suc room) (fetch_failed ∷ fs) = omega arith
fill_batch-length (suc room) (cancelled ∷ fs) = omega arith

-- A batch without an error has taken something.
fetch_batch-length :
    {M : Type 0} (size : ℕ) (fs : List (Fetch M))
    → (fetch_batch size fs).error ≡ none
    → length (fetch_batch size fs).rest < length fs
unfolding fetch_batch
fetch_batch-length size [] h = absurd (ground arith)
fetch_batch-length size (message m ∷ fs) h = omega (arith, fill_batch-length (size - 1) fs)
fetch_batch-length size (deadline ∷ fs) h = absurd (ground arith)
fetch_batch-length size (fetch_failed ∷ fs) h = absurd (ground arith)
fetch_batch-length size (cancelled ∷ fs) h = absurd (ground arith)

append_assoc {ℓ} : {A : Type ℓ} (a b c : List A) → (a ++ b) ++ c ≡ a ++ (b ++ c)
append_assoc [] b c = refl
append_assoc (x ∷ a) b c = ap (λ l. x ∷ l) (append_assoc a b c)

-- What holds of every way a batch can go.
module _ {S M : Type 0} (P : Ran S M → Type 0) where
  written_batch-cases :
      (ms : List M) (commit_fails : Bool) (x : S × Bool) (again : S → Ran S M)
      → P (ran (x.0) ms write_error)
      → (x.1 ≡ true → P (ran (x.0) ms commit_error))
      → (x.1 ≡ true → P (also_committed ms (again (x.0))))
      → P (written_batch ms commit_fails x again)
  written_batch-cases ms commit_fails (s, false) again a b c = a
  written_batch-cases ms true (s, true) again a b c = b refl
  written_batch-cases ms false (s, true) again a b c = c refl

  fetched_batch-cases :
      (o : Option RunEnd) (ms : List M) (s : S) (write : List M → S → S × Bool)
      (commit_fails : Bool) (again : S → Ran S M)
      → ((e : RunEnd) → P (ran s ms e))
      → P (ran ((write ms s).0) ms write_error)
      → ((write ms s).1 ≡ true → P (ran ((write ms s).0) ms commit_error))
      → (o ≡ none → (write ms s).1 ≡ true → P (also_committed ms (again ((write ms s).0))))
      → P (fetched_batch o ms s write commit_fails again)
  fetched_batch-cases (some e) ms s write commit_fails again a b c d = a e
  fetched_batch-cases none ms s write commit_fails again a b c d =
      written_batch-cases ms commit_fails (write ms s) again b c (d refl)

module _ {S M : Type 0} (size : ℕ) (write : ℕ → List M → S → S × Bool)
    (commit_fails : ℕ → Bool) where
  -- What is committed, then what is pending, are the first messages of the broker, in its order.
  pub run_batches-messages_of :
      (fuel i : ℕ) (fs : List (Fetch M)) (s : S)
      → let r = run_batches fuel size write commit_fails i fs s in
        (left : List M) × (messages_of fs ≡ r.committed ++ (r.pending ++ left))
  unfolding run_batches
  run_batches-messages_of zero i fs s = (messages_of fs, refl)
  run_batches-messages_of (suc fuel) i fs s =
      let b = fetch_batch size fs in
      let all = fetch_batch-messages_of size fs in
      fetched_batch-cases
        (λ r. (left : List M) × (messages_of fs ≡ r.committed ++ (r.pending ++ left))) b.error
        b.messages s (write i) (commit_fails i)
        (λ after. run_batches fuel size write commit_fails (suc i) b.rest after)
        (λ e. (messages_of b.rest, all)) (messages_of b.rest, all) (λ q. (messages_of b.rest, all))
        (λ p q.
          let r =
            run_batches fuel size write commit_fails (suc i) b.rest (write i b.messages s).0 in
          let (left, e) = run_batches-messages_of fuel (suc i) b.rest (write i b.messages s).0 in
          (
            left,
            all
                ∙ ap (λ l. b.messages ++ l) e
                ∙ sym (append_assoc b.messages r.committed (r.pending ++ left)),
          ))

  -- With more fuel than fetches, a run ends in an error.
  pub run_batches-error :
      (fuel i : ℕ) (fs : List (Fetch M)) (s : S)
      → length fs < fuel
      → (run_batches fuel size write commit_fails i fs s).error ≢ none
  unfolding run_batches
  run_batches-error zero i fs s h = absurd (omega (arith, h))
  run_batches-error (suc fuel) i fs s h =
      let b = fetch_batch size fs in
      fetched_batch-cases (λ r. r.error ≢ none) b.error b.messages s (write i) (commit_fails i)
        (λ after. run_batches fuel size write commit_fails (suc i) b.rest after) (λ e. some_none e)
        (some_none write_error) (λ q. some_none commit_error)
        (λ p q.
          run_batches-error fuel (suc i) b.rest (write i b.messages s).0
            (omega (arith, fetch_batch-length size fs p, h)))
    where
      some_none : (e : RunEnd) → some e ≢ none
      some_none e q = cc

  -- A property that a write that succeeds gives its messages, and that no write takes away, holds of
  -- every committed message.
  module _ (Stored : S → M → Type 0)
      (gives : (i : ℕ) (ms : List M) (s : S)
        → (write i ms s).1 ≡ true
        → All (Stored (write i ms s).0) ms)
      (keeps : (i : ℕ) (ms : List M) (s : S) (m : M) → Stored s m → Stored (write i ms s).0 m) where
    kept :
        (fuel i : ℕ) (fs : List (Fetch M)) (s : S) (m : M)
        → Stored s m
        → Stored (run_batches fuel size write commit_fails i fs s).store m
    unfolding run_batches
    kept zero i fs s m h = h
    kept (suc fuel) i fs s m h =
        let b = fetch_batch size fs in
        let k = keeps i b.messages s m h in
        fetched_batch-cases (λ r. Stored r.store m) b.error b.messages s (write i) (commit_fails i)
          (λ after. run_batches fuel size write commit_fails (suc i) b.rest after) (λ e. h) k
          (λ q. k) (λ p q. kept fuel (suc i) b.rest (write i b.messages s).0 m k)

    pub run_batches-All :
        (fuel i : ℕ) (fs : List (Fetch M)) (s : S)
        → let r = run_batches fuel size write commit_fails i fs s in
          All (Stored r.store) r.committed
    unfolding run_batches
    run_batches-All zero i fs s = tt
    run_batches-All (suc fuel) i fs s =
        let b = fetch_batch size fs in
        fetched_batch-cases (λ r. All (Stored r.store) r.committed) b.error b.messages s (write i)
          (commit_fails i) (λ after. run_batches fuel size write commit_fails (suc i) b.rest after)
          (λ e. tt) tt (λ q. tt)
          (λ p q.
            let after = (write i b.messages s).0 in
            let r = run_batches fuel size write commit_fails (suc i) b.rest after in
            All-append (Stored r.store) b.messages r.committed
              (All-map (λ m h. kept fuel (suc i) b.rest after m h) b.messages
                (gives i b.messages s q))
              (run_batches-All fuel (suc i) b.rest after))
