-- ===== src/Credentials/Vault.antt =====
-- `EncryptedCredentialVault` of src/infrastructure/credentials/encrypted-credential-vault.ts. The
-- cipher, the JSON text of a credential and the digest behind `stableId` are given.
use Prim.Native.String.{◌++◌ as ◌+++◌}
use recruiting_os.Common.{
  ◌∷◌, zero, true, suc, str_eq, some, ok, not, none, if◌then◌else◌, false, err, [], String, Result,
  Option, List, Clock, Bool, ℕ, ◌++◌,
}
use recruiting_os.Domain.{Record}
use recruiting_os.Credentials.Repository.{
  save_credential, find_credential, StoredCredential, Credentials,
}

pub record ProviderCredential : Type 0 where
  pub access_token : String
  pub refresh_token : Option String
  pub expires_at : Option String
  pub scopes : List String
  pub metadata : Option Record

-- What the vault calls: AES-256-GCM under its key, with a nonce and additional data, as the
-- ciphertext and its tag and back; and `JSON.stringify` in UTF-8 and `JSON.parse`.
pub record Cipher : Type 0 where
  pub seal : List ℕ → String → List ℕ → List ℕ × List ℕ
  pub unseal : List ℕ → String → List ℕ → List ℕ → Option (List ℕ)
  pub encode : ProviderCredential → List ℕ
  pub decode : List ℕ → Option ProviderCredential

-- `subarray(0, n)` and `subarray(n)`
abbrev pub first_bytes : ℕ → List ℕ → List ℕ
first_bytes zero bytes = []
first_bytes (suc n) [] = []
first_bytes (suc n) (b ∷ bytes) = b ∷ first_bytes n bytes

abbrev pub rest_bytes : ℕ → List ℕ → List ℕ
rest_bytes zero bytes = bytes
rest_bytes (suc n) [] = []
rest_bytes (suc n) (b ∷ bytes) = rest_bytes n bytes

abbrev pub vault_key : String → String → String → String
vault_key tenant user provider = tenant +++ ":" +++ user +++ ":" +++ provider

module _ (stable_id : String → String → String) (cipher : Cipher) (key_version : String) where
  abbrev pub sealed_payload : List ℕ → String → ProviderCredential → List ℕ
  sealed_payload nonce key credential =
      let (ciphertext, tag) = cipher.seal nonce key (cipher.encode credential) in
      nonce ++ (tag ++ ciphertext)

  -- `put`, with the nonce that it draws
  unfoldable pub put :
      String
      → String
      → String
      → ProviderCredential
      → List ℕ
      → Clock
      → Credentials
      → Result String Credentials
  put tenant user provider credential nonce clock q =
      let key = vault_key tenant user provider in
      save_credential
        (record {
          id = stable_id "cred" key;
          tenant_id = tenant;
          user_id = user;
          provider = provider;
          encrypted_payload = sealed_payload nonce key credential;
          key_version = key_version;
          scopes = credential.scopes;
          expires_at = credential.expires_at;
          revoked_at = none;
        })
        clock q

  abbrev pub decoded : Option (List ℕ) → Result String (Option ProviderCredential)
  decoded none = err "Unsupported state or unable to authenticate data"
  decoded (some bytes) = elim (cipher.decode bytes) [
    | none ↦ err "Unexpected token in JSON"
    | some c ↦ ok (some c)
  ]

  abbrev pub opened_payload : String → List ℕ → Result String (Option ProviderCredential)
  opened_payload key payload = decoded (
      cipher.unseal (first_bytes 12 payload) key (rest_bytes 28 payload)
        (first_bytes 16 (rest_bytes 12 payload)))

  abbrev pub is_live_credential : Option ℕ → Bool
  is_live_credential none = true
  is_live_credential (some t) = false

  abbrev pub open_credential :
      String → Option StoredCredential → Result String (Option ProviderCredential)
  open_credential key none = ok none
  open_credential key (some stored) =
      if not (is_live_credential stored.revoked_at)
      then ok none
      else if not (str_eq stored.key_version key_version)
      then err "Credential requires key rotation"
      else opened_payload key stored.encrypted_payload

  unfoldable pub get :
      String → String → String → Credentials → Result String (Option ProviderCredential)
  get tenant user provider q =
      open_credential (vault_key tenant user provider) (find_credential tenant user provider q)
