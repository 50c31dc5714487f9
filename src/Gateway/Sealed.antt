-- ===== src/Gateway/Sealed.antt =====
-- The envelope of a company's key: what is sealed for a company opens for it, and for no other.
use ta_platform.Prelude.Results.{ok, err, ok_eq, err_not_ok}
use ta_platform.Prelude.{
  ℕ, ◌≡◌, refl, sym, inl, inr, ◌≢◌, String, true, Option, none, some, List, length, Bool-cases,
  ◌==◌,
}
use ta_platform.Gateway.{
  Crypto, KeyEnvelope, encryption_context, is_data_key, seal_envelope, sealed_with, open_envelope,
  opened_with, bad_decryption, no_data_key, bad_data_key, envelope_version,
}

-- What the code relies on. encoding/json reads back what it wrote; AES-GCM opens what it sealed; KMS
-- decrypts a data key that it generated, under the encryption context that it was generated with, and
-- under no other; a nonce from rand.Read has the size that was asked for.
pub record IsCrypto (c : Crypto) : Type 0 where
  pub decoded : (e : KeyEnvelope) → c.codec.unmarshal (c.codec.marshal e) ≡ some e
  pub unsealed :
      (key nonce text : List ℕ) (company : String)
      → c.aead.unseal key nonce (c.aead.seal key nonce text company) company ≡ some text
  pub decrypted :
      (id : List ℕ) (company : String) (key encrypted : List ℕ)
      → c.kms.generate_data_key id (encryption_context company) ≡ some (key, encrypted)
      → c.kms.decrypt encrypted (encryption_context company) ≡ some key
  pub bound :
      (id : List ℕ) (company other : String) (key encrypted : List ℕ)
      → c.kms.generate_data_key id (encryption_context company) ≡ some (key, encrypted)
      → company ≢ other
      → c.kms.decrypt encrypted (encryption_context other) ≡ none

module _ (c : Crypto) (is_crypto : IsCrypto c) where
  -- What is stored by a seal that succeeds.
  sealed :
      (id : List ℕ) (company : String) (api_key nonce stored : List ℕ)
      (o : Option (List ℕ × List ℕ))
      → sealed_with c id company api_key (some nonce) o ≡ ok stored
      → (key : List ℕ) × (encrypted : List ℕ) × (o ≡ some (key, encrypted))
        × (is_data_key key ≡ true)
        × (stored
            ≡ c.codec.marshal (record {
              version = envelope_version;
              kms_key_id = id;
              encrypted_data_key = encrypted;
              nonce = nonce;
              ciphertext = c.aead.seal key nonce api_key company;
            }))
  sealed id company api_key nonce stored none h = absurd (err_not_ok no_data_key stored h)
  sealed id company api_key nonce stored (some (key, encrypted)) h =
      elim (Bool-cases (is_data_key key)) [
        | inl p ↦ (key, encrypted, refl, p, sym (ok_eq _ stored (rw p at h)))
        | inr p ↦ absurd (err_not_ok bad_data_key stored (rw p at h))
      ]

  -- An envelope that decodes to a given one.
  opened_as :
      (company : String) (e : KeyEnvelope) (o : Option (List ℕ))
      → c.kms.decrypt e.encrypted_data_key (encryption_context company) ≡ o
      → (e.version == envelope_version) ≡ true
      → open_envelope c company (c.codec.marshal e) ≡ opened_with c company e o
  unfolding open_envelope
  opened_as company e o p v = rw (is_crypto.decoded e, v, p) refl

  -- A key sealed for a company opens for that company, as the key that was sealed; for any other company
  -- the envelope does not open, since KMS refuses its data key.
  pub seal_envelope-open_envelope :
      (id : List ℕ) (company other : String) (api_key nonce stored : List ℕ)
      → (length nonce == c.aead.nonce_size) ≡ true
      → company ≢ other
      → seal_envelope c id company api_key (some nonce) ≡ ok stored
      → (open_envelope c company stored ≡ ok api_key)
        × (open_envelope c other stored ≡ err bad_decryption)
  unfolding seal_envelope
  seal_envelope-open_envelope id company other api_key nonce stored n d h =
      let (key, encrypted, generated, size, q) =
        sealed id company api_key nonce stored
          (c.kms.generate_data_key id (encryption_context company)) h in
      let e : KeyEnvelope = record {
        version = envelope_version;
        kms_key_id = id;
        encrypted_data_key = encrypted;
        nonce = nonce;
        ciphertext = c.aead.seal key nonce api_key company;
      } in
      (
        rw
            (
              q,
              opened_as company e (some key)
                  (is_crypto.decrypted id company key encrypted generated) refl,
              size,
              n,
              is_crypto.unsealed key nonce api_key company,
            )
            refl,
        rw q (
            opened_as other e none (is_crypto.bound id company other key encrypted generated d)
              refl),
      )
