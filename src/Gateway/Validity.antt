-- ===== src/Gateway/Validity.antt =====
-- What a validated completion request is.
use mathlib.Core.Path.{subst}
use ta_platform.Prelude.Results.{ok, ok_eq, err_not_ok}
use ta_platform.Prelude.{
  ℕ, ◌+◌, ◌≡◌, ◌≢◌, ap, ◌&&◌, List, [], ◌∷◌, ◌++◌, All, refl, sym, ◌⊎◌, inl, inr, String, Bool,
  true, false, ◌||◌, Option, none, some, Bool-cases, str_eq, eq_iff, arith, ℤ, pos, ◌≤ℤ◌, ltb_ℤ,
}
use ta_platform.Prelude.Membership.{In}
use ta_platform.Gateway.{
  ChatMessage, CompleteRequest, RequestError, is_role, is_blank, is_unicode_space, bad_role,
  blank_content, are_ids, check_messages, check_max_tokens, check_content, check_mode, with_mode,
  with_model, with_max_tokens, last_is, is_empty_list, mode_managed, mode_byok, role_user,
  max_max_tokens, validate_request, bad_id, bad_sequence, bad_mode, no_messages, last_not_user,
  bad_max_tokens,
}

-- A message that may be sent: a known role, and some code point that is no space.
pub record IsSendable (m : ChatMessage) : Type 0 where
  pub role : (m.role ≡ "user") ⊎ (m.role ≡ "assistant")
  pub content : (code : ℕ) × In code m.content × (is_unicode_space code ≡ false)

-- A request that needs no default and passes every test.
pub record IsComplete (is_uuid : String → Bool) (r : CompleteRequest) : Type 0 where
  pub company : is_uuid r.company_id ≡ true
  pub interview : is_uuid r.interview_id ≡ true
  pub session : is_uuid r.session_id ≡ true
  pub prompt : is_uuid r.prompt_id ≡ true
  pub sequence : pos 1 ≤ℤ r.sequence_number
  pub mode : (r.mode ≡ "managed") ⊎ (r.mode ≡ "byok")
  pub messages : All IsSendable r.messages
  pub last :
      (before : List ChatMessage) × (m : ChatMessage) × (r.messages ≡ before ++ (m ∷ []))
      × (m.role ≡ "user")
  pub model : str_eq r.model "" ≡ false
  pub positive : pos 1 ≤ℤ r.max_tokens
  pub bounded : r.max_tokens ≤ℤ pos 64000

both_true : (x y : Bool) → (x && y) ≡ true → (x ≡ true) × (y ≡ true)
both_true true y h = (refl, h)
both_true false y h = cc

is_blank-false :
    (cs : List ℕ) → is_blank cs ≡ false → (code : ℕ) × In code cs × (is_unicode_space code ≡ false)
unfolding is_blank
is_blank-false [] h = cc
is_blank-false (c ∷ cs) h = elim (Bool-cases (is_unicode_space c)) [
  | inr p ↦ (c, inl refl, p)
  | inl p ↦ let (code, m, q) = is_blank-false cs (rw p at h) in (code, inr m, q)
]

role_cases : (m : String) → is_role m ≡ true → (m ≡ "user") ⊎ (m ≡ "assistant")
role_cases m h = elim (Bool-cases (str_eq m "user")) [
  | inl p ↦ inl ((eq_iff m "user").0 p)
  | inr p ↦ inr ((eq_iff m "assistant").0 (rw p at h))
]

check_messages-IsSendable :
    (i : ℕ) (ms : List ChatMessage) → check_messages i ms ≡ none → All IsSendable ms
unfolding check_messages
check_messages-IsSendable i [] h = tt
check_messages-IsSendable i (m ∷ ms) h = elim (Bool-cases (is_role m.role)) [
  | inr p ↦ absurd (failed (bad_role i) (rw p at h))
  | inl p ↦ elim (Bool-cases (is_blank m.content)) [
    | inl q ↦ absurd (failed (blank_content i) (rw (p, q) at h))
    | inr q ↦ (
      record { role = role_cases m.role p; content = is_blank-false m.content q },
      check_messages-IsSendable (i + 1) ms (rw (p, q) at h),
    )
  ]
]
  where
    failed : (e : RequestError) → some e ≢ none
    failed e k = cc

last_is-last :
    (ms : List ChatMessage)
    → last_is role_user ms ≡ true
    → (before : List ChatMessage) × (m : ChatMessage) × (ms ≡ before ++ (m ∷ []))
      × (m.role ≡ "user")
unfolding last_is
last_is-last [] h = cc
last_is-last (m ∷ []) h = ([], m, refl, (eq_iff m.role "user").0 h)
last_is-last (m ∷ n ∷ ms) h =
    let (before, x, shape, role) = last_is-last (n ∷ ms) h in
    (m ∷ before, x, ap (λ l. m ∷ l) shape, role)

with_model-model : (r : CompleteRequest) → str_eq (with_model r).model "" ≡ false
with_model-model r = elim (Bool-cases (str_eq r.model "")) [ inl p ↦ rw p refl | inr p ↦ rw p p ]

mode_cases :
    (m : String)
    → (str_eq m mode_managed || str_eq m mode_byok) ≡ true
    → (m ≡ mode_managed) ⊎ (m ≡ mode_byok)
mode_cases m h = elim (Bool-cases (str_eq m mode_managed)) [
  | inl p ↦ inl ((eq_iff m mode_managed).0 p)
  | inr p ↦ inr ((eq_iff m mode_byok).0 (rw p at h))
]

token_bounds :
    (limit : ℕ) (z : ℤ)
    → (ltb_ℤ z (pos 1) || ltb_ℤ (pos limit) z) ≡ false
    → (pos 1 ≤ℤ z) × (z ≤ℤ pos limit)
token_bounds limit z h = ground arith

positive : (z : ℤ) → ltb_ℤ z (pos 1) ≡ false → pos 1 ≤ℤ z
positive z h = ground arith

check_max_tokens-bounds :
    (r out : CompleteRequest)
    → check_max_tokens r ≡ ok out
    → (out ≡ with_model r) × (pos 1 ≤ℤ r.max_tokens) × (r.max_tokens ≤ℤ pos max_max_tokens)
check_max_tokens-bounds r out h =
    elim (Bool-cases (ltb_ℤ r.max_tokens (pos 1) || ltb_ℤ (pos max_max_tokens) r.max_tokens)) [
      | inl p ↦ absurd (err_not_ok bad_max_tokens out (rw p at h))
      | inr p ↦
          let (low, high) = token_bounds max_max_tokens r.max_tokens p in
          (sym (ok_eq (with_model r) out (rw p at h)), low, high)
    ]

check_content-last :
    (is_uuid : String → Bool) (r out : CompleteRequest) (o : Option RequestError)
    → are_ids is_uuid r ≡ true
    → pos 1 ≤ℤ r.sequence_number
    → (r.mode ≡ mode_managed) ⊎ (r.mode ≡ mode_byok)
    → check_messages 0 r.messages ≡ o
    → check_content r o ≡ ok out
    → IsComplete is_uuid out
check_content-last is_uuid r out (some e) ids sequence mode m h = absurd (err_not_ok e out h)
check_content-last is_uuid r out none ids sequence mode m h =
    elim (Bool-cases (last_is role_user r.messages)) [
      | inr p ↦ absurd (err_not_ok last_not_user out (rw p at h))
      | inl p ↦
          let (same, low, high) = check_max_tokens-bounds (with_max_tokens r) out (rw p at h) in
          let (company, more) = both_true _ _ ids in
          let (interview, rest) = both_true _ _ more in
          let (session, prompt) = both_true _ _ rest in
          subst (IsComplete is_uuid) (sym same) (record {
            company = company;
            interview = interview;
            session = session;
            prompt = prompt;
            sequence = sequence;
            mode = mode;
            messages = check_messages-IsSendable 0 r.messages m;
            last = last_is-last r.messages p;
            model = with_model-model (with_max_tokens r);
            positive = low;
            bounded = high;
          })
    ]

check_mode-mode :
    (is_uuid : String → Bool) (r out : CompleteRequest)
    → are_ids is_uuid r ≡ true
    → pos 1 ≤ℤ r.sequence_number
    → check_mode r ≡ ok out
    → IsComplete is_uuid out
check_mode-mode is_uuid r out ids sequence h =
    elim (Bool-cases (str_eq r.mode mode_managed || str_eq r.mode mode_byok)) [
      | inr p ↦ absurd (err_not_ok bad_mode out (rw p at h))
      | inl p ↦ elim (Bool-cases (is_empty_list r.messages)) [
        | inl q ↦ absurd (err_not_ok no_messages out (rw (p, q) at h))
        | inr q ↦
            check_content-last is_uuid r out (check_messages 0 r.messages) ids sequence
              (mode_cases r.mode p) refl (rw (p, q) at h)
      ]
    ]

-- What every request that Validate accepts has become: its ids are UUIDs, its sequence number is
-- positive, its mode is managed or byok, every message is of the user or the assistant and has a code
-- point that is no space, the last one is the user's, it has a model, and its token limit is between 1
-- and 64000.
pub validate_request-IsComplete :
    (is_uuid : String → Bool) (r out : CompleteRequest)
    → validate_request is_uuid r ≡ ok out
    → IsComplete is_uuid out
unfolding validate_request
validate_request-IsComplete is_uuid r out h = elim (Bool-cases (are_ids is_uuid r)) [
  | inr p ↦ absurd (err_not_ok bad_id out (rw p at h))
  | inl ids ↦ elim (Bool-cases (ltb_ℤ r.sequence_number (pos 1))) [
    | inl p ↦ absurd (err_not_ok bad_sequence out (rw (ids, p) at h))
    | inr p ↦
        check_mode-mode is_uuid (with_mode r) out ids (positive r.sequence_number p)
          (rw (ids, p) at h)
  ]
]
