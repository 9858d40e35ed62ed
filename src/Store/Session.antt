-- ===== src/Store/Session.antt =====
-- control-plane/app/db.py, and what a request handler is: an action on an open transaction, which
-- returns or raises. `Database` holds the tables of control-plane/app/models.
use feature_flags.Base.{ℕ, String, Bool, true, false, Option, none, some, List, [], ◌++◌}
use feature_flags.Models.{
  project_pk, environment_pk, credential_pk, flag_pk, flag_config_pk, segment_pk, segment_config_pk,
  audit_pk,
}
use feature_flags.Store.Engine.{Engine}

-- The detail of an `HTTPException`, with the parts of the f-string kept apart.
pub data Detail : Type 0 where
  not_found : String → String → Detail
  already_exists : String → String → Detail
  index_out_of_range : List String → Detail
  message : String → Detail

pub data Error : Type 0 where
  -- `HTTPException(status, detail)`
  http_exception : ℕ → Detail → Error
  -- a request body that its model refuses, which FastAPI answers with 422
  request_validation_error : Error
  -- a stored value that the response model refuses
  response_validation_error : Error
  -- a unique constraint that no handler catches
  integrity_error : Error
  -- a number that its column cannot hold
  data_error : Error
  -- an UPDATE of one row that meets none
  stale_data_error : Error
  not_implemented_error : String → Error

-- The status that the client sees: an exception that is no `HTTPException` is a 500.
abbrev pub status : Error → ℕ
status (http_exception code _) = code
status request_validation_error = 422
status _ = 500

pub data Result (A : Type 0) : Type 0 where
  ok : A → Result A
  err : Error → Result A

-- What a request brings besides its parameters: the caller, what the standard library and the
-- database generate (`uuid4`, a `secrets` token, the next number of the audit sequence, `now()`),
-- SHA-256, and the configured notification backend.
pub record Context : Type 0 where
  pub actor : String
  pub uuid : ℕ
  pub token : String
  pub serial : ℕ
  pub now : ℕ
  pub sha256_hex : String → String
  pub backend : String

module _ ⦃E : Engine⦄ where
  open E use {Table}

  pub record Database : Type 0 where
    pub projects : Table project_pk
    pub environments : Table environment_pk
    pub credentials : Table credential_pk
    pub flags : Table flag_pk
    pub flag_configs : Table flag_config_pk
    pub segments : Table segment_pk
    pub segment_configs : Table segment_config_pk
    pub audit_logs : Table audit_pk

  -- The tables that the migrations create.
  abbrev pub empty_database : Database
  empty_database = record {
    projects = E.empty;
    environments = E.empty;
    credentials = E.empty;
    flags = E.empty;
    flag_configs = E.empty;
    segments = E.empty;
    segment_configs = E.empty;
    audit_logs = E.empty;
  }

  -- An open transaction: the tables as it sees them, and the notifications that it has issued on
  -- the channel, which Postgres delivers at the commit.
  pub record Transaction : Type 0 where
    pub tables : Database
    pub open tables use *
    pub notified : List (String × ℕ)

  abbrev pub Action : Type 0 → Type 0
  Action A = Transaction → Result A × Transaction

  module _ {A : Type 0} where
    abbrev pub pure : A → Action A
    pure a s = (ok a, s)

    abbrev pub raise : Error → Action A
    raise e s = (err e, s)

    abbrev pub reads : (Transaction → A) → Action A
    reads f s = (ok (f s), s)

    abbrev pub or_raise : Option A → Error → Action A
    or_raise none e = raise e
    or_raise (some a) _ = pure a

  abbrev pub continue : {A B : Type 0} → Result A → (A → Action B) → Action B
  continue (ok a) f s = f a s
  continue (err e) f s = (err e, s)

  infixl 5 ◌>>=◌ ◌>>◌
  abbrev pub ◌>>=◌ : {A B : Type 0} → Action A → (A → Action B) → Action B
  ◌>>=◌ m f s = let (r, s') = m s in continue r f s'

  abbrev pub ◌>>◌ : {B : Type 0} → Action (Unit {0}) → Action B → Action B
  m >> k = m >>= λ _. k

  abbrev pub raise_if : Bool → Error → Action (Unit {0})
  raise_if true e = raise e
  raise_if false e = pure tt

  abbrev pub writes : (Database → Database) → Action (Unit {0})
  writes f s = (ok tt, record s { tables = f s.tables })

  -- The server between requests: the committed tables and the notifications delivered so far.
  pub record Server : Type 0 where
    pub database : Database
    pub open database use *
    pub delivered : List (String × ℕ)

  abbrev pub begin : Server → Transaction
  begin v = record { tables = v.database; notified = [] }

  -- `session.commit()` where the handler returned, `session.rollback()` where it raised.
  abbrev pub finish : {A : Type 0} → Server → Result A × Transaction → Result A × Server
  finish v (ok a, s) = (ok a, record { database = s.tables; delivered = v.delivered ++ s.notified })
  finish v (err e, s) = (err e, v)

  -- `get_session`, round one request.
  unfoldable pub get_session : {A : Type 0} → Action A → Server → Result A × Server
  get_session handler v = finish v (handler (begin v))
