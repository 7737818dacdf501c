-- ===== src/Credentials/RoundTrip.antt =====
-- What the vault gives back.
use recruiting_os.Common.{
  ◌∙◌, ◌⊎◌, sym, subst, find_where-some, find-append_last, false, eq_iff, any-true_of, any-false-In,
  Option-cases, ◌≡◌, ◌∷◌, zero, update_where, true, suc, some, refl, ok, none, length, inr, inl,
  find_where, arith, ap, any, [], String, List, Clock, Bool-cases, Bool, ℕ, ◌++◌, ◌+◌,
}
use recruiting_os.Credentials.Vault.{
  vault_key, open_credential, decoded, sealed_payload, rest_bytes, opened_payload, first_bytes,
  ProviderCredential, Cipher, get, put,
}
use recruiting_os.Credentials.Repository.{
  revoke_credential_row, replace_row, new_credential, save_credential, revoke_credential,
  read_credential, is_credential, find_credential, StoredCredential, Credentials, CredentialRow,
}

first_bytes-append : (n : ℕ) (xs ys : List ℕ) → length xs ≡ n → first_bytes n (xs ++ ys) ≡ xs
first_bytes-append zero [] ys e = refl
first_bytes-append zero (x ∷ xs) ys e = absurd (omega (arith, e))
first_bytes-append (suc n) [] ys e = absurd (omega (arith, e))
first_bytes-append (suc n) (x ∷ xs) ys e =
    ap (λ r. x ∷ r) (first_bytes-append n xs ys (omega (arith, e)))

rest_bytes-append : (n : ℕ) (xs ys : List ℕ) → length xs ≡ n → rest_bytes n (xs ++ ys) ≡ ys
rest_bytes-append zero [] ys e = refl
rest_bytes-append zero (x ∷ xs) ys e = absurd (omega (arith, e))
rest_bytes-append (suc n) [] ys e = absurd (omega (arith, e))
rest_bytes-append (suc n) (x ∷ xs) ys e = rest_bytes-append n xs ys (omega (arith, e))

rest_bytes-both :
    (n : ℕ) (xs ys zs : List ℕ) → length xs + length ys ≡ n → rest_bytes n (xs ++ (ys ++ zs)) ≡ zs
rest_bytes-both n [] ys zs e = rest_bytes-append n ys zs (omega (arith, e))
rest_bytes-both zero (x ∷ xs) ys zs e = absurd (omega (arith, e))
rest_bytes-both (suc n) (x ∷ xs) ys zs e = rest_bytes-both n xs ys zs (omega (arith, e))

find_where-updated :
    {A : Type 0} (p : A → Bool) (f : A → A) (xs : List A)
    → any p xs ≡ true
    → ((x : A) → p x ≡ true → p (f x) ≡ true)
    → (x : A) × (find_where p (update_where p f xs) ≡ some (f x))
find_where-updated p f [] t keep = cc
find_where-updated p f (x ∷ xs) t keep = elim (Bool-cases (p x)) [
  | inl u ↦ (x, ground (arith, u, keep x u))
  | inr u ↦ let (y, e) = find_where-updated p f xs (ground arith) keep in (y, ground (arith, u, e))
]

-- What `find` reads after `save`.
abbrev IsSaved : StoredCredential → Credentials → Type 0
IsSaved value q =
    (s : StoredCredential) × (find_credential value.tenant_id value.user_id value.provider q
      ≡ some s)
    × (s.encrypted_payload ≡ value.encrypted_payload)
    × (s.key_version ≡ value.key_version)
    × (s.revoked_at ≡ none)

found-IsSaved :
    (value : StoredCredential) (q : Credentials) (r : CredentialRow)
    → find_where (is_credential value.tenant_id value.user_id value.provider) q.rows ≡ some r
    → r.credential.encrypted_payload ≡ value.encrypted_payload
    → r.credential.key_version ≡ value.key_version
    → r.credential.revoked_at ≡ none
    → IsSaved value q
unfolding find_credential
found-IsSaved value q r e a b c = (read_credential r, rw (e, find_credential), a, b, c)

-- What the cipher promises, and the JSON text of a credential.
pub record IsCipher (cipher : Cipher) (c : ProviderCredential) : Type 0 where
  pub tag_length :
      (nonce : List ℕ) (key : String) (text : List ℕ) → length (cipher.seal nonce key text).1 ≡ 16
  pub opens :
      (nonce : List ℕ) (key : String) (text : List ℕ)
      → length nonce ≡ 12
      → cipher.unseal nonce key (cipher.seal nonce key text).0 (cipher.seal nonce key text).1
        ≡ some text
  pub decodes : cipher.decode (cipher.encode c) ≡ some c

save-cases :
    (value : StoredCredential) (clock : Clock) (q q' : Credentials)
    → save_credential value clock q ≡ ok q'
    → (let mine = is_credential value.tenant_id value.user_id value.provider in
        ((any mine q.rows ≡ true)
          × (q' ≡ record q { rows = update_where mine (replace_row value (clock 0)) q.rows }))
        ⊎ ((any mine q.rows ≡ false)
            × (q' ≡ record q { rows = q.rows ++ new_credential value (clock 0) ∷ [] })))
unfolding save_credential
save-cases value clock q q' e = ground arith

no_row :
    (p : CredentialRow → Bool) (rows : List CredentialRow)
    → any p rows ≡ false
    → find_where p rows ≡ none
no_row p rows t = elim (Option-cases (find_where p rows)) [
  | inl e ↦ e
  | inr (r, e) ↦
      let (m, u) = find_where-some p rows r e in absurd (cc (any-false-In p rows r t m, u))
]

own_row :
    (value : StoredCredential) (now : ℕ)
    → is_credential value.tenant_id value.user_id value.provider (new_credential value now) ≡ true
own_row value now = ground (
  arith,
  (eq_iff value.tenant_id value.tenant_id).1 refl,
  (eq_iff value.user_id value.user_id).1 refl,
  (eq_iff value.provider value.provider).1 refl,
)

-- After `revoke` the row that is found is revoked.
find-revoked :
    (tenant user provider : String) (clock : Clock) (q : Credentials) (s : StoredCredential)
    → find_credential tenant user provider q ≡ some s
    → (r : CredentialRow) × (find_credential tenant user provider
          (revoke_credential tenant user provider clock q)
        ≡ some (read_credential (revoke_credential_row (clock 0) (clock 1) r)))
unfolding find_credential revoke_credential
find-revoked tenant user provider clock q s e =
    let mine = is_credential tenant user provider in
    elim (Option-cases (find_where mine q.rows)) [
      | inl f ↦ absurd (cc (rw (f, find_credential) at e))
      | inr (r, f) ↦
          let (m, u) = find_where-some mine q.rows r f in
          let (x, g) =
            find_where-updated mine (revoke_credential_row (clock 0) (clock 1)) q.rows
              (any-true_of mine q.rows r m u) (λ y t. t) in
          (x, rw (g, find_credential))
    ]

save-IsSaved :
    (value : StoredCredential) (clock : Clock) (q q' : Credentials)
    → save_credential value clock q ≡ ok q'
    → IsSaved value q'
save-IsSaved value clock q q' e =
    let mine = is_credential value.tenant_id value.user_id value.provider in
    elim (save-cases value clock q q' e) [
      | inl (t, same) ↦
          let (r, f) = find_where-updated mine (replace_row value (clock 0)) q.rows t (λ x u. u) in
          subst (IsSaved value) (sym same) (
            found-IsSaved value
              (record q { rows = update_where mine (replace_row value (clock 0)) q.rows })
              (replace_row value (clock 0) r) f refl refl refl)
      | inr (t, same) ↦ subst (IsSaved value) (sym same) (
          found-IsSaved value (record q { rows = q.rows ++ new_credential value (clock 0) ∷ [] })
            (new_credential value (clock 0))
            (find-append_last mine q.rows (new_credential value (clock 0)) (no_row mine q.rows t)
              (own_row value (clock 0)))
            refl refl refl)
    ]

module _ (stable_id : String → String → String) (cipher : Cipher) (key_version : String) where
  decoded-parts :
      (nonce : List ℕ) (key : String) (c : ProviderCredential)
      → IsCipher cipher c
      → length nonce ≡ 12
      → (x y z : List ℕ) → x ≡ nonce
      → y ≡ (cipher.seal nonce key (cipher.encode c)).0
      → z ≡ (cipher.seal nonce key (cipher.encode c)).1
      → decoded stable_id cipher key_version (cipher.unseal x key y z) ≡ ok (some c)
  decoded-parts nonce key c h n x y z p q r =
      let read = h.decodes in
      ap (λ a. decoded stable_id cipher key_version (cipher.unseal a key y z)) p
      ∙ ap (λ a. decoded stable_id cipher key_version (cipher.unseal nonce key a z)) q
      ∙ ap
          (λ a.
            decoded stable_id cipher key_version
              (cipher.unseal nonce key (cipher.seal nonce key (cipher.encode c)).0 a))
          r
      ∙ ap (decoded stable_id cipher key_version) (h.opens nonce key (cipher.encode c) n)
      ∙ rw (read, decoded)

  open-live :
      (key : String) (s : StoredCredential)
      → s.revoked_at ≡ none
      → s.key_version ≡ key_version
      → open_credential stable_id cipher key_version key (some s)
        ≡ opened_payload stable_id cipher key_version key s.encrypted_payload
  open-live key s live version =
      let same = (eq_iff s.key_version key_version).1 version in rw (live, same)

  opened-sealed :
      (nonce : List ℕ) (key : String) (c : ProviderCredential)
      → IsCipher cipher c
      → length nonce ≡ 12
      → opened_payload stable_id cipher key_version key
          (sealed_payload stable_id cipher key_version nonce key c)
        ≡ ok (some c)
  opened-sealed nonce key c h n =
      let s = cipher.seal nonce key (cipher.encode c) in
      let tag = h.tag_length nonce key (cipher.encode c) in
      let a = first_bytes-append 12 nonce (s.1 ++ s.0) n in
      let b = rest_bytes-both 28 nonce s.1 s.0 (omega (arith, n, tag)) in
      let d = rest_bytes-append 12 nonce (s.1 ++ s.0) n in
      let f = first_bytes-append 16 s.1 s.0 tag in
      decoded-parts nonce key c h n _ _ _ a b (ap (first_bytes 16) d ∙ f)

  -- Where the cipher opens what it has sealed under the same nonce and additional data, its tags
  -- have 16 bytes, and the JSON text of the credential is read back: after a `put` that goes through, with a nonce of 12 bytes,
  -- `get` yields that very credential, also where an older one was there or had been revoked; and
  -- after `revoke` it yields none.
  pub put-get :
      (tenant user provider : String) (c : ProviderCredential) (nonce : List ℕ)
      (clock later : Clock) (q q' : Credentials)
      → IsCipher cipher c
      → length nonce ≡ 12
      → put stable_id cipher key_version tenant user provider c nonce clock q ≡ ok q'
      → (get stable_id cipher key_version tenant user provider q' ≡ ok (some c))
        × (get stable_id cipher key_version tenant user provider
              (revoke_credential tenant user provider later q')
            ≡ ok none)
  unfolding put get
  put-get tenant user provider c nonce clock later q q' h n e =
      let (s, f, payload, version, live) = save-IsSaved _ clock q q' e in
      let (r, g) = find-revoked tenant user provider later q' s f in
      (
        rw f (
            open-live (vault_key tenant user provider) s live version
            ∙ ap (opened_payload stable_id cipher key_version (vault_key tenant user provider))
                payload
            ∙ opened-sealed nonce (vault_key tenant user provider) c h n),
        rw g refl,
      )
