-- ===== src/Examples/Housekeeper.antt =====
-- A purge.
use ta_platform.Prelude.Results.{ok}
use ta_platform.Prelude.{◌≡◌, refl, true, false, none, some, List, [], ◌∷◌, pos}
use ta_platform.Housekeeper.{
  Interviewed, Belonging, Estate, PurgeWorld, lock_eligible, erasure, purge, run_housekeeper,
  search_error,
}
use ta_platform.Housekeeper.Others.{of_interview}
use ta_platform.Housekeeper.Protected.{run_housekeeper-lock_eligible}
use ta_platform.Housekeeper.Erased.{IsErased, purge-IsErased}
use ta_platform.Housekeeper.Retries.{IsCalm, purge-err}

-- Interview 5 of company 1 asked to be erased; interview 6 too, under legal hold.
abbrev asked : Interviewed
asked = record {
  company_id = 1;
  id = 5;
  status = "completed";
  candidate_name = "Ada";
  candidate_email = "ada@example.com";
  terminal_at = some (pos 10);
  legal_hold = false;
  erase_requested_at = some (pos 20);
  purged_at = none;
}

abbrev held : Interviewed
held = record asked { id = 6; legal_hold = true }

abbrev rows : List Belonging
rows =
    record { company_id = 1; interview_id = 5; row_id = 0 }
    ∷ record { company_id = 1; interview_id = 6; row_id = 1 }
    ∷ []

abbrev stores : Estate
stores = record {
  documents = rows;
  analytics = ("events", rows) ∷ [];
  records = record {
    interviews = asked ∷ held ∷ [];
    scores = rows;
    interview_scores = [];
    sessions = rows;
    invites = rows;
    purge_log = [];
  };
}

abbrev calm : PurgeWorld
calm = record {
  search_refused = false;
  search_lost = false;
  check_fails = λ name. false;
  delete_fails = λ name. false;
  fails_at = λ n. false;
  now = pos 100;
}

abbrev lossy : PurgeWorld
lossy = record calm { search_lost = true }

run_housekeeper-lock_eligible_example :
    of_interview 1 6 (run_housekeeper (pos 30) 10 (pos 100) false (λ n. calm) (λ n. false) stores).0
    ≡ of_interview 1 6 stores
unfolding lock_eligible
run_housekeeper-lock_eligible_example =
    run_housekeeper-lock_eligible 1 6 (pos 30) 10 (pos 100) false (λ n. calm) (λ n. false) stores
      refl

purge-IsErased_example : IsErased 1 5 (purge calm (pos 70) 1 5 stores).0
unfolding purge
purge-IsErased_example = purge-IsErased 1 5 calm (pos 70) stores refl

calm-IsCalm : IsCalm calm
calm-IsCalm = record {
  search_refused = refl;
  search_lost = refl;
  check_fails = λ name. refl;
  delete_fails = λ name. refl;
  fails_at = λ n. refl;
}

purge-err_example :
    ((purge lossy (pos 70) 1 5 stores).0.records ≡ stores.records)
    × ((purge calm (pos 70) 1 5 (purge lossy (pos 70) 1 5 stores).0).1 ≡ ok true)
unfolding lock_eligible purge
purge-err_example =
    purge-err 1 5 lossy calm (pos 70) stores search_error erasure refl refl calm-IsCalm
