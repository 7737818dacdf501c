-- ===== src/Credentials/Repository.antt =====
-- src/infrastructure/credentials/sqlite-credential-repository.ts and the table `credentials` of
-- src/store.ts.
use recruiting_os.Common.{
  ◌∷◌, ◌&&◌, update_where, truthy, str_eq, some, ok, none, if◌then◌else◌, find_where, err, any, [],
  String, Result, Option, List, Clock, Bool, ℕ, ◌++◌,
}
use recruiting_os.Auth.Roles.{includes}
use recruiting_os.Queue.Revoked.{revoked}

pub record StoredCredential : Type 0 where
  pub id : String
  pub tenant_id : String
  pub user_id : String
  pub provider : String
  pub encrypted_payload : List ℕ
  pub key_version : String
  pub scopes : List String
  pub expires_at : Option String
  pub revoked_at : Option ℕ

pub record CredentialRow : Type 0 where
  pub credential : StoredCredential
  pub created_at : ℕ
  pub updated_at : ℕ

-- The table, with the ids of the tenants and users that it refers to.
pub record Credentials : Type 0 where
  pub tenants : List String
  pub users : List String
  pub rows : List CredentialRow

-- `where tenant_id=? and user_id=? and provider=?`
abbrev pub is_credential : String → String → String → CredentialRow → Bool
is_credential tenant user provider r =
    str_eq r.credential.tenant_id tenant
    && (str_eq r.credential.user_id user && str_eq r.credential.provider provider)

-- `do update set …`: the id and the time of creation stay.
abbrev pub replace_row : StoredCredential → ℕ → CredentialRow → CredentialRow
replace_row value now r = record r {
  credential = record r.credential {
    encrypted_payload = value.encrypted_payload;
    key_version = value.key_version;
    scopes = value.scopes;
    expires_at = value.expires_at;
    revoked_at = none;
  };
  updated_at = now;
}

abbrev pub new_credential : StoredCredential → ℕ → CredentialRow
new_credential value now = record {
  credential = record value { revoked_at = none };
  created_at = now;
  updated_at = now;
}

unfoldable pub save_credential : StoredCredential → Clock → Credentials → Result String Credentials
save_credential value clock q =
    let mine = is_credential value.tenant_id value.user_id value.provider in
    if any mine q.rows
    then ok (record q { rows = update_where mine (replace_row value (clock 0)) q.rows })
    else if any (λ r. str_eq r.credential.id value.id) q.rows
    then err "UNIQUE constraint failed: credentials.id"
    else if includes value.tenant_id q.tenants && includes value.user_id q.users
    then ok (record q { rows = q.rows ++ new_credential value (clock 0) ∷ [] })
    else err "FOREIGN KEY constraint failed"

abbrev pub read_credential : CredentialRow → StoredCredential
read_credential r = record r.credential { expires_at = truthy r.credential.expires_at }

unfoldable pub find_credential : String → String → String → Credentials → Option StoredCredential
find_credential tenant user provider q =
    elim (find_where (is_credential tenant user provider) q.rows) [
      | none ↦ none
      | some r ↦ some (read_credential r)
    ]

abbrev pub revoke_credential_row : ℕ → ℕ → CredentialRow → CredentialRow
revoke_credential_row revoked now r = record r {
  credential = record r.credential { revoked_at = some revoked };
  updated_at = now;
}

unfoldable pub revoke_credential : String → String → String → Clock → Credentials → Credentials
revoke_credential tenant user provider clock q = record q {
  rows =
      update_where (is_credential tenant user provider) (revoke_credential_row (clock 0) (clock 1))
        q.rows;
}
