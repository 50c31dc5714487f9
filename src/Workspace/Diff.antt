-- ===== src/Workspace/Diff.antt =====
-- internal/candidateworkspace/diff.go: DiffService.Submit and validateDiff, over RecordDiff of the
-- event store. The rules of uuid.Parse, of sandbox.ValidatePath and of UTF-8 are arguments.
use ta_platform.Prelude.Results.{Result, ok, err}
use ta_platform.Prelude.{
  ℕ, String, Bool, false, not, ◌&&◌, ◌||◌, Option, none, some, [], ◌∷◌, ltb, ◌==◌, str_eq,
  if◌then◌else◌, ℤ, pos, ltb_ℤ, length,
}
use ta_platform.EventStore.{Message, Db, StoreError, diff_out_of_order, Session, record_diff}
use ta_platform.Workspace.Unidiff.{Bytes, count_unified_diff}

pub record DiffRequest : Type 0 where
  pub client_sequence : ℤ
  pub origin : String
  pub prompt_id : String
  pub path : String
  pub patch : Bytes

-- DiffResult of an accepted diff, with its number, and of one that is out of order.
pub data DiffResult : Type 0 where
  accepted : ℕ → ℕ → ℕ → DiffResult
  out_of_order : ℕ → ℕ → DiffResult

pub data DiffError : Type 0 where
  no_interview_bound invalid_diff record_failed : DiffError

pub record DiffRules : Type 0 where
  pub is_uuid : String → Bool
  pub is_path : String → Bool
  pub is_utf8 : Bytes → Bool

abbrev pub max_patch_bytes : ℕ
max_patch_bytes = 262144

-- strings.Contains of NUL
unfoldable pub has_nul : Bytes → Bool
has_nul [] = false
has_nul (b ∷ bs) = b == 0 || has_nul bs

-- The switch on the origin.
abbrev pub is_origin : DiffRules → DiffRequest → Bool
is_origin rules r =
    if str_eq r.origin "manual"
    then str_eq r.prompt_id ""
    else str_eq r.origin "ai_applied" && (str_eq r.prompt_id "" || rules.is_uuid r.prompt_id)

abbrev pub is_patch : DiffRules → Bytes → Bool
is_patch rules patch =
    not (length patch == 0)
    && (not (ltb max_patch_bytes (length patch)) && (rules.is_utf8 patch && not (has_nul patch)))

unfoldable pub validate_diff : DiffRules → DiffRequest → Option (ℕ × ℕ)
unfolding has_nul count_unified_diff
validate_diff rules r =
    if ltb_ℤ r.client_sequence (pos 1)
    then none
    else if not (is_origin rules r && (rules.is_path r.path && is_patch rules r.patch))
    then none
    else count_unified_diff r.patch

abbrev pub diff_recorded : ℕ → ℕ → Db × Result StoreError ℕ → Db × Result DiffError DiffResult
diff_recorded added removed (db, ok n) = (db, ok (accepted n added removed))
diff_recorded added removed (db, err diff_out_of_order) = (db, ok (out_of_order added removed))
diff_recorded added removed (db, err _) = (db, err record_failed)

abbrev pub diff_validated :
    Session
    → ℕ
    → DiffRequest
    → Bool
    → (ℕ → Option Message)
    → Db
    → Option (ℕ × ℕ)
    → Db × Result DiffError DiffResult
diff_validated s interview r fault build db none = (db, err invalid_diff)
diff_validated s interview r fault build db (some (added, removed)) =
    diff_recorded added removed
      (record_diff s.company_id s.id interview r.client_sequence fault build db)

abbrev pub diff_bound :
    DiffRules
    → Session
    → DiffRequest
    → Bool
    → (ℕ → Option Message)
    → Db
    → Option ℕ
    → Db × Result DiffError DiffResult
diff_bound rules s r fault build db none = (db, err no_interview_bound)
diff_bound rules s r fault build db (some interview) =
    diff_validated s interview r fault build db (validate_diff rules r)

-- `build` makes the message of the event from its number.
unfoldable pub submit :
    DiffRules
    → Session
    → DiffRequest
    → Bool
    → (ℕ → Option Message)
    → Db
    → Db × Result DiffError DiffResult
unfolding validate_diff record_diff
submit rules s r fault build db = diff_bound rules s r fault build db s.interview_id
