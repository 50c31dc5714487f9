-- ===== src/Examples/Gateway.antt =====
-- Completions, keys and event streams.
use ta_platform.Prelude.Results.{Result, ok, err}
use ta_platform.Prelude.{
  ℕ, zero, suc, ◌+◌, ◌≡◌, refl, ◌⊎◌, inl, inr, ◌≢◌, String, Bool, true, false, Option, none, some,
  List, [], ◌∷◌, ◌++◌, length, Bool-cases, sym, ◌∙◌, All, str_eq, eq_iff, arith, pos, ◌+ℤ◌, ◌-ℤ◌,
}
use ta_platform.Prelude.Membership.{In}
use ta_platform.Gateway.{
  Crypto, KeyEnvelope, seal_envelope, open_envelope, bad_decryption, KeyHeap, CachedKey,
  VaultConfig, VaultAct, VaultRun, SecretVersion, SecretsWorld, fetches, lands, begins, wipes,
  perform_all, close_vault, vault_resolver, CompleteRequest, CompleteWorld, Completion,
  MessageParams, SdkStream, message_start, text_delta, message_delta, anthropic, complete,
  validate_request, VaultError, resolve_key,
}
use ta_platform.Gateway.Custody.{Custody, Opens, refs_of}
use ta_platform.Gateway.Lifetimes.{
  perform_all-Opens, perform_all-close_vault, closed_after, new_run, no_keys,
}
use ta_platform.Gateway.Accounted.{complete-Custody}
use ta_platform.Gateway.Recorded.{complete-sdk_texts, sdk_texts}
use ta_platform.Gateway.Sealed.{IsCrypto, seal_envelope-open_envelope}
use ta_platform.Gateway.Validity.{IsComplete, validate_request-IsComplete}
use ta_platform.Sse.{has_newline, new_reader, eof}
use ta_platform.Sse.RoundTrip.{
  Sent, sent_event, sent_comment, IsSendable, send_all, read_all, events_of, read_all-send_all,
}

-- Cryptography that hides nothing: KMS has one data key, for the company Acme, and an envelope is
-- written as its lists, each behind its length.
abbrev acme : String
acme = "acme"

abbrev globex : String
globex = "globex"

abbrev zeros : ℕ → List ℕ
zeros zero = []
zeros (suc n) = 0 ∷ zeros n

abbrev data_key : List ℕ
data_key = zeros 32

abbrev written : List ℕ → List ℕ → List ℕ
written l rest = length l ∷ (l ++ rest)

abbrev cons_to : ℕ → Option (List ℕ × List ℕ) → Option (List ℕ × List ℕ)
cons_to x none = none
cons_to x (some (l, rest)) = some (x ∷ l, rest)

abbrev split : ℕ → List ℕ → Option (List ℕ × List ℕ)
split zero xs = some ([], xs)
split (suc n) [] = none
split (suc n) (x ∷ xs) = cons_to x (split n xs)

abbrev read_one : List ℕ → Option (List ℕ × List ℕ)
read_one [] = none
read_one (n ∷ xs) = split n xs

split-append : (l rest : List ℕ) → split (length l) (l ++ rest) ≡ some (l, rest)
split-append [] rest = refl
split-append (x ∷ l) rest = rw (split-append l rest) refl

abbrev and_then : {A : Type 0} → Option (List ℕ × List ℕ) → (List ℕ → List ℕ → Option A) → Option A
and_then none f = none
and_then (some (l, rest)) f = f l rest

abbrev marshal : KeyEnvelope → List ℕ
marshal e =
    e.version
    ∷ written e.kms_key_id
        (written e.encrypted_data_key (written e.nonce (written e.ciphertext [])))

abbrev unmarshal_body : ℕ → List ℕ → Option KeyEnvelope
unmarshal_body v t0 = and_then (read_one t0) (λ id t1. and_then (read_one t1) (λ encrypted t2.
    and_then (read_one t2) (λ nonce t3. and_then (read_one t3) (λ ciphertext t4. some (record {
      version = v;
      kms_key_id = id;
      encrypted_data_key = encrypted;
      nonce = nonce;
      ciphertext = ciphertext;
    })))))

abbrev unmarshal : List ℕ → Option KeyEnvelope
unmarshal [] = none
unmarshal (v ∷ text) = unmarshal_body v text

abbrev when_acme : Bool → List ℕ → Option (List ℕ)
when_acme true k = some k
when_acme false k = none

abbrev generated : Bool → Option (List ℕ × List ℕ)
generated true = some (data_key, 7 ∷ [])
generated false = none

abbrev crypto : Crypto
crypto = record {
  kms = record {
    generate_data_key = λ id context. generated (str_eq context.company_id acme);
    decrypt = λ encrypted context. when_acme (str_eq context.company_id acme) data_key;
  };
  aead = record {
    nonce_size = 2;
    seal = λ key nonce text company. text;
    unseal = λ key nonce text company. some text;
  };
  codec = record { marshal = marshal; unmarshal = unmarshal };
}

only_acme :
    (b : Bool) (key encrypted : List ℕ)
    → generated b ≡ some (key, encrypted)
    → (b ≡ true) × (key ≡ data_key)
only_acme true key encrypted h = (refl, cc)
only_acme false key encrypted h = cc

not_acme : (company : String) → acme ≢ company → str_eq company acme ≡ false
not_acme company d = elim (Bool-cases (str_eq company acme)) [
  | inl p ↦ absurd (d (sym ((eq_iff company acme).0 p)))
  | inr p ↦ p
]

crypto-IsCrypto : IsCrypto crypto
crypto-IsCrypto = record {
  decoded = λ e.
      rw
        (
          split-append e.kms_key_id
              (written e.encrypted_data_key (written e.nonce (written e.ciphertext []))),
          split-append e.encrypted_data_key (written e.nonce (written e.ciphertext [])),
          split-append e.nonce (written e.ciphertext []),
          split-append e.ciphertext [],
        )
        refl;
  unsealed = λ key nonce text company. refl;
  decrypted = λ id company key encrypted h.
      let (p, q) = only_acme (str_eq company acme) key encrypted h in rw (p, q) refl;
  bound = λ id company other key encrypted h d.
      let (p, q) = only_acme (str_eq company acme) key encrypted h in
      rw (not_acme other (λ e. d ((eq_iff company acme).0 p ∙ e))) refl;
}

abbrev sealed : List ℕ
sealed = marshal (record {
  version = 1;
  kms_key_id = 107 ∷ [];
  encrypted_data_key = 7 ∷ [];
  nonce = 4 ∷ 2 ∷ [];
  ciphertext = 115 ∷ 107 ∷ [];
})

acme_not_globex : acme ≢ globex
acme_not_globex h = true_not_false ((eq_iff acme globex).1 h)
  where
    true_not_false : false ≢ true
    true_not_false q = cc

seal_envelope-open_envelope_example :
    (open_envelope crypto acme sealed ≡ ok (115 ∷ 107 ∷ []))
    × (open_envelope crypto globex sealed ≡ err bad_decryption)
unfolding seal_envelope
seal_envelope-open_envelope_example =
    seal_envelope-open_envelope crypto crypto-IsCrypto (107 ∷ []) acme globex (115 ∷ 107 ∷ [])
      (4 ∷ 2 ∷ []) sealed refl acme_not_globex refl

abbrev config : VaultConfig
config = record { ttl = pos 300; version_check = pos 0 }

abbrev secret : Result VaultError SecretVersion
secret = ok (record { value = sealed; version_id = "v1" })

-- Two callers load and copy Acme's key, while a third load is in flight, and the second wipes its copy.
abbrev acts : List VaultAct
acts =
    fetches acme secret
    ∷ lands 0 (pos 10)
    ∷ fetches acme secret
    ∷ begins acme (pos 20)
    ∷ wipes 0
    ∷ []

perform_all-Opens_example :
    let heap = (perform_all config crypto acts new_run).vault.heap in
    (heap.secret 1 ≡ [])
    ⊎ ((stored : List ℕ) × (open_envelope crypto acme stored ≡ ok (heap.secret 1)))
unfolding perform_all open_envelope ◌+ℤ◌
perform_all-Opens_example = perform_all-Opens crypto config acts 1 acme 1 refl

abbrev closed : VaultRun
closed = closed_after crypto config acts

-- The first copy is still in memory.
abbrev copied : List ℕ
copied = 115 ∷ 107 ∷ []

perform_all-close_vault_example :
    (copied ≡ [])
    ⊎ (((k : ℕ) × In k (refs_of closed.handed) × (closed.vault.heap.secret k ≡ copied))
        ⊎ ((company : String) × (version : String) × In (company, (copied, version)) closed.flight
            × Opens crypto company copied))
unfolding perform_all close_vault open_envelope ◌+ℤ◌
perform_all-close_vault_example = perform_all-close_vault crypto config acts copied (inl (1, refl))

abbrev secrets : SecretsWorld
secrets = record {
  now = pos 1;
  load_now = pos 1;
  end_now = pos 2;
  current = ok "v1";
  secret = secret;
}

abbrev request : CompleteRequest
request = record {
  company_id = acme;
  interview_id = "i";
  session_id = "s";
  prompt_id = "p";
  sequence_number = pos 3;
  mode = "byok";
  model = "m";
  system = [];
  messages = record { role = "user"; content = 104 ∷ 105 ∷ [] } ∷ [];
  max_tokens = pos 100;
}

abbrev world : CompleteWorld
world = record {
  done_early = false;
  done_late = false;
  on_delta = λ n. none;
  elapsed = 2000000;
  new_fails = false;
  emit_fails = false;
}

abbrev sdk : MessageParams → Option (List ℕ) → SdkStream
sdk params used = record {
  events =
      message_start "m" (pos 2)
      ∷ text_delta (111 ∷ [])
      ∷ text_delta (107 ∷ [])
      ∷ message_delta "end_turn" (pos 0) (pos 2)
      ∷ [];
  error = none;
}

abbrev empty_cache : List (String × CachedKey) × KeyHeap
empty_cache = ([], no_keys)

empty_cache-Custody :
    Custody crypto (record { heap = empty_cache.1; entries = empty_cache.0 }) [] []
empty_cache-Custody = record {
  unique = tt;
  live = tt;
  loaded = tt;
  owned = tt;
  private = tt;
  covered = λ k. inl refl;
}

complete-Custody_example :
    let after =
      complete
        (anthropic sdk none)
        (some (vault_resolver config crypto secrets))
        world
        request
        empty_cache in
    Custody crypto (record { heap = after.heap; entries = after.state }) [] []
complete-Custody_example =
    complete-Custody crypto config secrets (anthropic sdk none) world request empty_cache
      empty_cache-Custody

abbrev event : Completion
event = record {
  key = "s";
  company_id = acme;
  sequence_number = pos 3;
  session_id = "s";
  interview_id = "i";
  prompt_id = "p";
  mode = "byok";
  provider = "anthropic";
  outcome = record {
    status = "completed";
    stop_reason = "end_turn";
    error_code = "";
    model = "m";
    usage = record { input_tokens = pos 2; output_tokens = pos 2 };
  };
  response_text = 111 ∷ 107 ∷ [];
  latency_ms = pos 2;
}

complete-sdk_texts_example :
    (params : MessageParams) × (credential : Option (List ℕ)) × (event.response_text
      ≡ sdk_texts (sdk params credential).events)
unfolding complete anthropic resolve_key open_envelope ◌+ℤ◌ ◌-ℤ◌
complete-sdk_texts_example =
    complete-sdk_texts sdk none (some (vault_resolver config crypto secrets)) world request
      empty_cache event refl refl

validate_request-IsComplete_example : IsComplete (λ id. true) request
unfolding validate_request
validate_request-IsComplete_example = validate_request-IsComplete (λ id. true) request request refl

-- An event "e" with id "7" and data "{}", and a keepalive.
abbrev items : List Sent
items = sent_event (55 ∷ []) (101 ∷ []) (123 ∷ 125 ∷ []) ∷ sent_comment (107 ∷ 97 ∷ []) ∷ []

items-IsSendable : All (IsSendable 100) items
unfolding IsSendable has_newline
items-IsSendable = (
  ((refl, omega arith), (refl, omega arith), refl, (refl, omega arith)),
  ((refl, omega arith), tt),
)

read_all-send_all_example :
    (out : List ℕ) × (send_all items [] ≡ ok out)
    × (read_all (length items + 1) (new_reader 100 out) ≡ (events_of items, some eof))
read_all-send_all_example = read_all-send_all 100 items items-IsSendable
