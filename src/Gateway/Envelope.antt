-- ===== src/Gateway/Envelope.antt =====
-- internal/aigateway/byok/envelope.go: Seal and open. The KMS, AES-GCM, the encoding in JSON and the
-- random nonce are arguments. The buffers of plaintext, which are overwritten on return, are not
-- modelled.
use ta_platform.Prelude.Results.{Result, ok, err}
use ta_platform.Prelude.{
  ℕ, String, Bool, not, Option, none, some, List, length, ◌==◌, if◌then◌else◌,
}

-- encryptionContext, with its entry "purpose" left constant.
pub record EncryptionContext : Type 0 where
  pub company_id : String
  pub purpose : String

pub record KeyEnvelope : Type 0 where
  pub version : ℕ
  pub kms_key_id : List ℕ
  pub encrypted_data_key : List ℕ
  pub nonce : List ℕ
  pub ciphertext : List ℕ

-- KMS: a data key in plaintext and encrypted; its decryption.
pub record Kms : Type 0 where
  pub generate_data_key : List ℕ → EncryptionContext → Option (List ℕ × List ℕ)
  pub decrypt : List ℕ → EncryptionContext → Option (List ℕ)

-- cipher.AEAD of a data key: key, nonce, text, additional data.
pub record Aead : Type 0 where
  pub nonce_size : ℕ
  pub seal : List ℕ → List ℕ → List ℕ → String → List ℕ
  pub unseal : List ℕ → List ℕ → List ℕ → String → Option (List ℕ)

-- encoding/json on an envelope.
pub record Codec : Type 0 where
  pub marshal : KeyEnvelope → List ℕ
  pub unmarshal : List ℕ → Option KeyEnvelope

pub record Crypto : Type 0 where
  pub kms : Kms
  pub aead : Aead
  pub codec : Codec

pub data SealError : Type 0 where
  no_data_key bad_data_key no_nonce : SealError

pub data OpenError : Type 0 where
  bad_envelope bad_version bad_decryption bad_key_length bad_nonce not_opened : OpenError

abbrev pub encryption_context : String → EncryptionContext
encryption_context company = record { company_id = company; purpose = "ai-provider-key" }

abbrev pub envelope_version : ℕ
envelope_version = 1

-- newAEAD takes a key of 32 bytes.
abbrev pub is_data_key : List ℕ → Bool
is_data_key k = length k == 32

abbrev pub sealed_with :
    Crypto
    → List ℕ
    → String
    → List ℕ
    → Option (List ℕ)
    → Option (List ℕ × List ℕ)
    → Result SealError (List ℕ)
sealed_with c key_id company api_key random none = err no_data_key
sealed_with c key_id company api_key none (some (data_key, encrypted)) =
    if not (is_data_key data_key) then err bad_data_key else err no_nonce
sealed_with c key_id company api_key (some nonce) (some (data_key, encrypted)) =
    if not (is_data_key data_key)
    then err bad_data_key
    else ok (
        c.codec.marshal (record {
          version = envelope_version;
          kms_key_id = key_id;
          encrypted_data_key = encrypted;
          nonce = nonce;
          ciphertext = c.aead.seal data_key nonce api_key company;
        }))

-- `random` is the nonce that rand.Read fills.
unfoldable pub seal_envelope :
    Crypto → List ℕ → String → List ℕ → Option (List ℕ) → Result SealError (List ℕ)
seal_envelope c key_id company api_key random =
    sealed_with c key_id company api_key random
      (c.kms.generate_data_key key_id (encryption_context company))

abbrev pub opened_text : Option (List ℕ) → Result OpenError (List ℕ)
opened_text none = err not_opened
opened_text (some plaintext) = ok plaintext

abbrev pub opened_with : Crypto → String → KeyEnvelope → Option (List ℕ) → Result OpenError (List ℕ)
opened_with c company e none = err bad_decryption
opened_with c company e (some data_key) =
    if not (is_data_key data_key)
    then err bad_key_length
    else if not (length e.nonce == c.aead.nonce_size)
    then err bad_nonce
    else opened_text (c.aead.unseal data_key e.nonce e.ciphertext company)

abbrev pub opened_envelope : Crypto → String → Option KeyEnvelope → Result OpenError (List ℕ)
opened_envelope c company none = err bad_envelope
opened_envelope c company (some e) =
    if not (e.version == envelope_version)
    then err bad_version
    else opened_with c company e (c.kms.decrypt e.encrypted_data_key (encryption_context company))

unfoldable pub open_envelope : Crypto → String → List ℕ → Result OpenError (List ℕ)
open_envelope c company stored = opened_envelope c company (c.codec.unmarshal stored)
