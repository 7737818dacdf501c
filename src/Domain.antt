-- ===== src/Domain.antt =====
-- The data that the parts exchange: src/domain/models.ts and src/domain/errors.ts.
use recruiting_os.Common.{
  ℕ, String, Bool, true, List, [], ◌∷◌, str_eq, if◌then◌else◌, Option, none, some,
}

pub data Role : Type 0 where
  student organization_editor platform_admin : Role

pub data SourceType : Type 0 where
  gmail groupme instagram linkedin website bio_link application screenshot heel_life : SourceType

pub data ClaimField : Type 0 where
  application_open application_deadline application_url event requirement : ClaimField
  status social_handle recruiting_note : ClaimField

pub data SourceVersionStatus : Type 0 where
  received queued processing succeeded retryable_failed terminal_failed : SourceVersionStatus

pub data TemporalPrecision : Type 0 where
  date date_time relative_inferred : TemporalPrecision

pub data JobStatus : Type 0 where
  queued running succeeded retryable_failed dead_letter cancelled : JobStatus

-- A value of `unknown` type, as JSON holds it. Numbers are the natural ones.
mutual
  pub data Json : Type 0 where
    null : Json
    bool : Bool → Json
    num : ℕ → Json
    str : String → Json
    arr : Items → Json
    obj : Fields → Json

  pub data Items : Type 0 where
    nil : Items
    item : Json → Items → Items

  pub data Fields : Type 0 where
    end : Fields
    field : String → Json → Fields → Fields

-- `Record<string, unknown>`: its entries, each key once.
abbrev pub Record : Type 0
Record = List (String × Json)

-- `record[key]`, where a missing key is `undefined`.
unfoldable pub property : String → Record → Option Json
property key [] = none
property key ((k, v) ∷ rest) = if str_eq k key then some v else property key rest

pub record AuthPrincipal : Type 0 where
  pub user_id : String
  pub tenant_id : String
  pub roles : List Role
  pub organization_ids : List String
  pub session_id : String

-- An `AppError`; its message is what the client may see.
pub record AppError : Type 0 where
  pub message : String
  pub status_code : ℕ
  pub code : String
  pub expose : Bool

abbrev pub authentication_error : AppError
authentication_error = record {
  message = "Authentication required";
  status_code = 401;
  code = "AUTHENTICATION_REQUIRED";
  expose = true;
}

abbrev pub authorization_error : AppError
authorization_error = record {
  message = "Not authorized";
  status_code = 403;
  code = "NOT_AUTHORIZED";
  expose = true;
}

abbrev pub validation_error : String → AppError
validation_error message = record {
  message = message;
  status_code = 422;
  code = "VALIDATION_FAILED";
  expose = true;
}

abbrev pub rate_limit_error : AppError
rate_limit_error = record {
  message = "Rate limit exceeded";
  status_code = 429;
  code = "RATE_LIMITED";
  expose = true;
}
