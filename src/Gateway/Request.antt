-- ===== src/Gateway/Request.antt =====
-- internal/aigateway/gateway.go: CompleteRequest and Validate; provider.go: Message. The test for a
-- UUID is an argument. Which of several ids that are not UUIDs is reported is left open, since the
-- source ranges over a map.
use ta_platform.Prelude.Results.{Result, ok, err}
use ta_platform.Prelude.{
  ℕ, ◌+◌, String, Bool, true, false, not, ◌&&◌, ◌||◌, Option, none, some, List, [], ◌∷◌, str_eq,
  if◌then◌else◌, ℤ, pos, ltb_ℤ, eqb_ℤ, leb, ◌==◌,
}

-- A text is the list of its code points.
pub record ChatMessage : Type 0 where
  pub role : String
  pub content : List ℕ

pub record CompleteRequest : Type 0 where
  pub company_id : String
  pub interview_id : String
  pub session_id : String
  pub prompt_id : String
  pub sequence_number : ℤ
  pub mode : String
  pub model : String
  pub system : List ℕ
  pub messages : List ChatMessage
  pub max_tokens : ℤ

pub data RequestError : Type 0 where
  bad_id bad_sequence bad_mode no_messages last_not_user bad_max_tokens : RequestError
  bad_role blank_content : ℕ → RequestError

abbrev pub role_user : String
role_user = "user"

abbrev pub role_assistant : String
role_assistant = "assistant"

abbrev pub mode_managed : String
mode_managed = "managed"

abbrev pub mode_byok : String
mode_byok = "byok"

abbrev pub default_model : String
default_model = "claude-opus-5"

abbrev pub default_max_tokens : ℕ
default_max_tokens = 16000

abbrev pub max_max_tokens : ℕ
max_max_tokens = 64000

-- unicode.IsSpace
unfoldable pub is_unicode_space : ℕ → Bool
is_unicode_space c =
    (leb 9 c && leb c 13)
    || (c == 32
        || (c == 133
            || (c == 160
                || (c == 5760
                    || ((leb 8192 c && leb c 8202)
                        || (c == 8232
                            || (c == 8233 || (c == 8239 || (c == 8287 || c == 12288)))))))))

-- strings.TrimSpace leaves nothing.
unfoldable pub is_blank : List ℕ → Bool
unfolding is_unicode_space
is_blank [] = true
is_blank (c ∷ cs) = is_unicode_space c && is_blank cs

abbrev pub is_role : String → Bool
is_role role = str_eq role role_user || str_eq role role_assistant

-- The loop over the messages, from index `i`.
unfoldable pub check_messages : ℕ → List ChatMessage → Option RequestError
unfolding is_blank
check_messages i [] = none
check_messages i (m ∷ ms) =
    let rest = check_messages (i + 1) ms in
    if not (is_role m.role)
    then some (bad_role i)
    else if is_blank m.content
    then some (blank_content i)
    else rest

-- The role of the last message is `role`.
unfoldable pub last_is : String → List ChatMessage → Bool
last_is role [] = false
last_is role (m ∷ []) = str_eq m.role role
last_is role (m ∷ n ∷ ms) = last_is role (n ∷ ms)

abbrev pub is_empty_list : List ChatMessage → Bool
is_empty_list [] = true
is_empty_list (m ∷ ms) = false

abbrev pub with_mode : CompleteRequest → CompleteRequest
with_mode r = record r { mode = if str_eq r.mode "" then mode_managed else r.mode }

abbrev pub with_max_tokens : CompleteRequest → CompleteRequest
with_max_tokens r = record r {
  max_tokens = if eqb_ℤ r.max_tokens (pos 0) then pos default_max_tokens else r.max_tokens;
}

abbrev pub with_model : CompleteRequest → CompleteRequest
with_model r = record r { model = if str_eq r.model "" then default_model else r.model }

abbrev pub are_ids : (String → Bool) → CompleteRequest → Bool
are_ids is_uuid r =
    is_uuid r.company_id
    && (is_uuid r.interview_id && (is_uuid r.session_id && is_uuid r.prompt_id))

-- After the messages: the defaults of max_tokens and the model.
abbrev pub check_max_tokens : CompleteRequest → Result RequestError CompleteRequest
check_max_tokens r =
    if ltb_ℤ r.max_tokens (pos 1) || ltb_ℤ (pos max_max_tokens) r.max_tokens
    then err bad_max_tokens
    else ok (with_model r)

abbrev pub check_content :
    CompleteRequest → Option RequestError → Result RequestError CompleteRequest
check_content r (some e) = err e
check_content r none =
    if not (last_is role_user r.messages)
    then err last_not_user
    else check_max_tokens (with_max_tokens r)

abbrev pub check_mode : CompleteRequest → Result RequestError CompleteRequest
check_mode r =
    if not (str_eq r.mode mode_managed || str_eq r.mode mode_byok)
    then err bad_mode
    else if is_empty_list r.messages
    then err no_messages
    else check_content r (check_messages 0 r.messages)

unfoldable pub validate_request :
    (String → Bool) → CompleteRequest → Result RequestError CompleteRequest
unfolding check_messages last_is
validate_request is_uuid r =
    if not (are_ids is_uuid r)
    then err bad_id
    else if ltb_ℤ r.sequence_number (pos 1)
    then err bad_sequence
    else check_mode (with_mode r)
