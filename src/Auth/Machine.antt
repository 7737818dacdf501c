-- ===== src/Auth/Machine.antt =====
-- Histories of the calls of `SqliteAuthRepository`.
use recruiting_os.Common.{◌∷◌, ok, err, [], String, Result, List, Clock}
use recruiting_os.Auth.Tables.{OidcIdentity, NewSession, Auth}
use recruiting_os.Domain.{Role}
use recruiting_os.Auth.Repository.{
  upsert_identity, revoke_session, create_session, authenticate_session,
}

pub data AuthCall : Type 0 where
  identifies : OidcIdentity → String → List Role → AuthCall
  creates : NewSession → AuthCall
  authenticates : String → AuthCall
  revokes : String → String → AuthCall

-- The tables after a call; one that throws leaves them as they were.
abbrev pub after_identify : Auth → Result String (String × Auth) → Auth
after_identify q (ok (user, q')) = q'
after_identify q (err e) = q

abbrev pub after_create : Auth → Result String Auth → Auth
after_create q (ok q') = q'
after_create q (err e) = q

module _ (stable_id : String → String → String) where
  unfoldable pub auth_step : Clock → AuthCall → Auth → Auth
  auth_step clock (AuthCall.identifies identity tenant roles) q =
      after_identify q (upsert_identity stable_id identity tenant roles clock q)
  auth_step clock (AuthCall.creates input) q = after_create q (create_session input clock q)
  auth_step clock (AuthCall.authenticates token_hash) q =
      (authenticate_session token_hash clock q).1
  auth_step clock (AuthCall.revokes id tenant) q = revoke_session id tenant clock q

  unfoldable pub auth_run : List (Clock × AuthCall) → Auth → Auth
  auth_run [] q = q
  auth_run ((clock, call) ∷ rest) q = auth_run rest (auth_step clock call q)
