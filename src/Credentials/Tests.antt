-- ===== src/Credentials/Tests.antt =====
-- One credential in the vault, with a cipher that only checks the length of its tag.
use recruiting_os.Common.{
  length, ◌≡◌, ◌∷◌, ◌==◌, some, refl, ok, none, if◌then◌else◌, err, [], String, List, Clock, ℕ,
  ◌++◌,
}
use recruiting_os.Credentials.Vault.{ProviderCredential, Cipher, get, put}
use recruiting_os.Credentials.Repository.{
  save_credential, revoke_credential, find_credential, Credentials,
}
use recruiting_os.Credentials.RoundTrip.{put-get}

vault_runs : Unit {0}
unfolding put get save_credential find_credential revoke_credential
vault_runs = tt

abbrev sixteen : List ℕ
sixteen = 0 ∷ 0 ∷ 0 ∷ 0 ∷ 0 ∷ 0 ∷ 0 ∷ 0 ∷ 0 ∷ 0 ∷ 0 ∷ 0 ∷ 0 ∷ 0 ∷ 0 ∷ 0 ∷ []

abbrev twelve : List ℕ
twelve = 1 ∷ 1 ∷ 1 ∷ 1 ∷ 1 ∷ 1 ∷ 1 ∷ 1 ∷ 1 ∷ 1 ∷ 1 ∷ 1 ∷ []

abbrev groupme : ProviderCredential
groupme = record {
  access_token = "a";
  refresh_token = none;
  expires_at = none;
  scopes = "read" ∷ [];
  metadata = none;
}

abbrev toy_cipher : Cipher
toy_cipher = record {
  seal = λ nonce key text. (text, sixteen);
  unseal = λ nonce key text tag. if length tag == 16 then some text else none;
  encode = λ c. 7 ∷ [];
  decode = λ bytes. some groupme;
}

abbrev digest_of : String → String → String
digest_of prefix value = value

abbrev no_credentials : Credentials
no_credentials = record { tenants = "t1" ∷ []; users = "u1" ∷ []; rows = [] }

abbrev zero_clock : Clock
zero_clock n = 0

-- The table after the credential has been put.
abbrev with_groupme : Credentials
with_groupme = record no_credentials {
  rows =
      record {
        credential = record {
          id = "t1:u1:groupme";
          tenant_id = "t1";
          user_id = "u1";
          provider = "groupme";
          encrypted_payload = twelve ++ (sixteen ++ 7 ∷ []);
          key_version = "v1";
          scopes = "read" ∷ [];
          expires_at = none;
          revoked_at = none;
        };
        created_at = 0;
        updated_at = 0;
      }
      ∷ [];
}

stored_groupme :
    put digest_of toy_cipher "v1" "t1" "u1" "groupme" groupme twelve zero_clock no_credentials
    ≡ ok with_groupme
unfolding vault_runs
stored_groupme = refl

put-get_example :
    (get digest_of toy_cipher "v1" "t1" "u1" "groupme" with_groupme ≡ ok (some groupme))
    × (get digest_of toy_cipher "v1" "t1" "u1" "groupme"
          (revoke_credential "t1" "u1" "groupme" zero_clock with_groupme)
        ≡ ok none)
put-get_example =
    put-get digest_of toy_cipher "v1" "t1" "u1" "groupme" groupme twelve zero_clock zero_clock
      no_credentials with_groupme
      (record {
        tag_length = λ nonce key text. refl;
        opens = λ nonce key text n. refl;
        decodes = refl;
      })
      refl stored_groupme

other_key_version :
    get digest_of toy_cipher "v2" "t1" "u1" "groupme" with_groupme
    ≡ err "Credential requires key rotation"
unfolding vault_runs
other_key_version = refl
