-- ===== src/Scoring/Contents.antt =====
-- internal/scoring/service.go: what Score stores.
use ta_platform.Prelude.Results.{Result, ok, err, err_not_ok}
use ta_platform.Prelude.{
  ◌↔◌, ◌⊎◌, ◌≡◌, refl, arith, ◌≤ℤ◌, Bool, true, false, not, ◌&&◌, ◌||◌, Option, none, some, List,
  [], ◌∷◌, ◌++◌, inl, inr, Bool-cases,
}
use ta_platform.Metrics.{Metrics, Event, compute}
use ta_platform.EventStore.{Db, Score, StoreError, interview_gone, score_exists, save_score}
use ta_platform.EventStore.Once.{save_score-appended}
use ta_platform.Scoring.{
  Trigger, Log, Progress, Outcome, scored, already_scored, ScoreError, behind, permanent, transient,
  score, saved, score_progress, score_timeline, score_computed, Answer, recommended,
  not_recommended, answered, unrecommended, recommend, caught_up,
}
use ta_platform.Scoring.{Service}

-- The row of a score with metrics `m` at a progress `p` of the log.
abbrev pub row : Service → Trigger → Progress → Metrics → Score
row v t p m = recommend v.recommender (unrecommended t m (caught_up p t.sequence_number) v.now)

already_not_scored : ◌≡◌ {A = Result ScoreError Outcome} (ok already_scored) (ok scored) → ⊥
already_not_scored h = cc

saved-scored : (r : Result StoreError Bool) → saved r ≡ ok scored → r ≡ ok true
saved-scored (ok true) h = refl
saved-scored (ok false) h = absurd (already_not_scored h)
saved-scored (err interview_gone) h = absurd (err_not_ok permanent scored h)
saved-scored (err _) h = absurd (err_not_ok transient scored h)

score_computed-row :
    (v : Service) (fault : Bool) (t : Trigger) (complete : Bool) (db : Db) (r : Option Metrics)
    → (score_computed v fault t complete db r).1 ≡ ok scored
    → (m : Metrics) × (r ≡ some m)
      × ((score_computed v fault t complete db r).0.scores
          ≡ db.scores ++ (recommend v.recommender (unrecommended t m complete v.now) ∷ []))
score_computed-row v fault t complete db none h = absurd (err_not_ok permanent scored h)
score_computed-row v fault t complete db (some m) h =
    let s = recommend v.recommender (unrecommended t m complete v.now) in
    (
      m,
      refl,
      save_score-appended s fault (v.message s) db
          (saved-scored (save_score s fault (v.message s) db).1 h),
    )

score_timeline-row :
    (v : Service) (fault : Bool) (t : Trigger) (complete : Bool) (db : Db) (r : Option (List Event))
    → (score_timeline v fault t complete db r).1 ≡ ok scored
    → (es : List Event) × (m : Metrics) × (r ≡ some es)
      × (compute v.decoders es ≡ some m)
      × ((score_timeline v fault t complete db r).0.scores
          ≡ db.scores ++ (recommend v.recommender (unrecommended t m complete v.now) ∷ []))
score_timeline-row v fault t complete db none h = absurd (err_not_ok transient scored h)
score_timeline-row v fault t complete db (some es) h =
    let (m, computed, kept) = score_computed-row v fault t complete db (compute v.decoders es) h in
    (es, m, refl, computed, kept)

score_progress-row :
    (v : Service) (log : Log) (fault : Bool) (t : Trigger) (last : Bool) (db : Db)
    (r : Option Progress)
    → (score_progress v log fault t last db r).1 ≡ ok scored
    → (p : Progress) × (es : List Event) × (m : Metrics) × (r ≡ some p)
      × (caught_up p t.sequence_number || last ≡ true)
      × (log.timeline t ≡ some es)
      × (compute v.decoders es ≡ some m)
      × ((score_progress v log fault t last db r).0.scores ≡ db.scores ++ (row v t p m ∷ []))
score_progress-row v log fault t last db none h = absurd (err_not_ok transient scored h)
score_progress-row v log fault t last db (some p) h =
    elim (Bool-cases (not (caught_up p t.sequence_number) && not last)) [
      | inl waits ↦ absurd (err_not_ok behind scored (rw waits at h))
      | inr goes ↦
          let (es, m, read, computed, kept) =
            score_timeline-row v fault t (caught_up p t.sequence_number) db (log.timeline t)
              (rw goes at h) in
          (
            p,
            es,
            m,
            refl,
            either (caught_up p t.sequence_number) last goes,
            read,
            computed,
            rw goes kept,
          )
    ]
  where
    either : (a b : Bool) → not a && not b ≡ false → a || b ≡ true
    either true b h = refl
    either false true h = refl
    either false false h = absurd (cc)

-- The fields of a score that say what was recommended, as the recommender's answer has them.
abbrev pub IsAnswer : Score → Answer → Type 0
IsAnswer s (recommended model r) =
    (s.recommendation_model ≡ model) × (s.recommendation ≡ some r) × (s.recommendation_error ≡ "")
IsAnswer s (not_recommended model code) =
    (s.recommendation_model ≡ model) × (s.recommendation ≡ none) × (s.recommendation_error ≡ code)

abbrev pub IsAdvised : Score → Metrics → Option (Metrics → Answer) → Type 0
IsAdvised s m none =
    (s.recommendation_model ≡ "")
    × (s.recommendation ≡ none)
    × (s.recommendation_error ≡ "disabled")
IsAdvised s m (some ask) = IsAnswer s (ask m)

-- The log has reached the sequence number of the trigger, and has that many events.
abbrev pub HasAll : Progress → Trigger → Type 0
HasAll p t = (t.sequence_number ≤ℤ p.max_sequence) × (t.sequence_number ≤ℤ p.present)

-- A score for a trigger, with the metrics `m` at a progress `p` of the log.
pub record IsScore (v : Service) (t : Trigger) (p : Progress) (m : Metrics) (s : Score)
    : Type 0 where
  pub company : s.company_id ≡ t.company_id
  pub interview : s.interview_id ≡ t.interview_id
  pub session : s.session_id ≡ t.session_id
  pub trigger : s.trigger ≡ t.event_type
  pub metrics : s.metrics ≡ m
  pub complete : (s.metrics_complete ≡ true) ↔ HasAll p t
  pub advised : IsAdvised s m v.recommender
  pub computed_at : s.computed_at ≡ v.now

caught_up-HasAll :
    (p : Progress) (t : Trigger) → (caught_up p t.sequence_number ≡ true) ↔ HasAll p t
unfolding caught_up
caught_up-HasAll p t = ((λ h. (ground arith, ground arith)), (λ h. ground (arith, h.0, h.1)))

row-IsScore :
    (v : Service) (t : Trigger) (p : Progress) (m : Metrics) → IsScore v t p m (row v t p m)
unfolding recommend
row-IsScore v t p m = of_recommender v.recommender refl
  where
    base : Score
    base = unrecommended t m (caught_up p t.sequence_number) v.now

    of_answer :
        (o : Option (Metrics → Answer)) (a : Answer)
        → v.recommender ≡ o
        → IsAdvised (answered base a) m o
        → IsScore v t p m (answered base a)
    of_answer o (recommended model r) h k = record {
      company = refl;
      interview = refl;
      session = refl;
      trigger = refl;
      metrics = refl;
      complete = caught_up-HasAll p t;
      advised = rw h k;
      computed_at = refl;
    }
    of_answer o (not_recommended model code) h k = record {
      company = refl;
      interview = refl;
      session = refl;
      trigger = refl;
      metrics = refl;
      complete = caught_up-HasAll p t;
      advised = rw h k;
      computed_at = refl;
    }

    answer-IsAnswer : (a : Answer) → IsAnswer (answered base a) a
    answer-IsAnswer (recommended model r) = (refl, refl, refl)
    answer-IsAnswer (not_recommended model code) = (refl, refl, refl)

    of_recommender :
        (o : Option (Metrics → Answer)) → v.recommender ≡ o → IsScore v t p m (recommend o base)
    of_recommender none h = record {
      company = refl;
      interview = refl;
      session = refl;
      trigger = refl;
      metrics = refl;
      complete = caught_up-HasAll p t;
      advised = rw h (refl, refl, refl);
      computed_at = refl;
    }
    of_recommender (some ask) h = of_answer (some ask) (ask m) h (answer-IsAnswer (ask m))

-- A score is only stored when the log has reached the trigger and holds as many events, or at the last
-- attempt. It is the one row added to the scores. It is for the trigger, at the service's time, with the
-- metrics of the timeline that the log has; it is marked complete exactly if the log has them all; and it
-- has what the recommender answered on these metrics, or "disabled" without one.
pub score_lem :
    (v : Service) (log : Log) (unread fault : Bool) (t : Trigger) (last : Bool) (db : Db)
    → (score v log unread fault t last db).1 ≡ ok scored
    → (p : Progress) × (es : List Event) × (m : Metrics) × (s : Score) × (log.progress t ≡ some p)
      × (HasAll p t ⊎ (last ≡ true))
      × (log.timeline t ≡ some es)
      × (compute v.decoders es ≡ some m)
      × IsScore v t p m s
      × ((score v log unread fault t last db).0.scores ≡ db.scores ++ (s ∷ []))
unfolding score
score_lem v log true fault t last db h = absurd (err_not_ok transient scored h)
score_lem v log false fault t last db h =
    elim (Bool-cases (score_exists t.company_id t.session_id db.scores)) [
      | inl exists ↦ absurd (already_not_scored (rw exists at h))
      | inr new ↦
          let (p, es, m, found, ready, read, computed, kept) =
            score_progress-row v log fault t last db (log.progress t) (rw new at h) in
          rw new (
            p,
            es,
            m,
            row v t p m,
            found,
            when (caught_up p t.sequence_number) last ready p refl,
            read,
            computed,
            row-IsScore v t p m,
            kept,
          )
    ]
  where
    when :
        (a b : Bool)
        → a || b ≡ true
        → (p : Progress) → caught_up p t.sequence_number ≡ a
        → HasAll p t ⊎ (b ≡ true)
    when true b k p q = inl ((caught_up-HasAll p t).0 q)
    when false true k p q = inr refl
    when false false k p q = absurd (cc)
