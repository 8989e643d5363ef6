-- ===== src/Accounts.antt =====
-- services/auth_tokens.py, services/account_service.py and middleware/auth.py: the links sent by email,
-- sign-in, sessions, and who a request acts for. `hash` is the keyed hash of a token or a key, `verify`
-- the check of a password (which nothing passes without a stored hash), `hash_password` its hash. An
-- operation that raises commits nothing. Times are seconds.
pub mod Service
pub mod Tokens
pub mod Access
use recommendation_engine.Base.{
  ℕ, ◌+◌, ◌-◌, String, Bool, true, false, not, ◌&&◌, ◌||◌, Option, none, some, List, [], ◌∷◌, map,
  keep, is_some, leb, ltb, str_eq, if◌then◌else◌,
}
use recommendation_engine.Base.Dict.{Dict, put, member}
use recommendation_engine.Base.Result.{Result, ok, err, ◌>>=◌, ◌>>◌, raise_if, or_raise}
use recommendation_engine.Team.{
  Role, viewer, developer, owner, at_least, is_owner, User, Workspace, find, change, has_id,
  has_email, has_workspace, password_fails,
}

pub data Purpose : Type 0 where
  verify_email reset_password : Purpose

abbrev pub same_purpose : Purpose → Purpose → Bool
same_purpose verify_email verify_email = true
same_purpose reset_password reset_password = true
same_purpose _ _ = false

pub record AuthToken : Type 0 where
  pub user_id : String
  pub purpose : Purpose
  pub token_hash : String
  pub expires_at : ℕ
  pub used_at : Option ℕ

-- An API key: of a workspace, or of a user's dashboard session.
pub record ApiKey : Type 0 where
  pub tenant_id : String
  pub user_id : Option String
  pub key_hash : String
  pub is_active : Bool
  pub is_session : Bool
  pub expires_at : Option ℕ
  pub last_used_at : Option ℕ

-- The tables. `logins` is the users' `last_login_at`, `admins` the platform admins.
pub record Store : Type 0 where
  pub users : List User
  pub workspaces : List Workspace
  pub tokens : List AuthToken
  pub api_keys : List ApiKey
  pub logins : Dict ℕ
  pub admins : List String

pub data AccountError : Type 0 where
  invalid_link no_user already_verified : AccountError
  bad_credentials suspended deactivated : AccountError
  no_demo wrong_email wrong_password store_unavailable : AccountError
  missing_key invalid_key expired_key ended_session : AccountError
  needs_role : Role → AccountError
  needs_admin workspace_not_found : AccountError

-- An unused token of the user for the purpose: a new one retires it.
abbrev pub retired : String → Purpose → AuthToken → Bool
retired user purpose t =
    str_eq t.user_id user && same_purpose t.purpose purpose && not (is_some t.used_at)

-- `AuthTokenService.issue`, of a fresh token
unfoldable pub issue :
    (String → String) → String → Purpose → ℕ → String → ℕ → Store → String × Store
issue hash user purpose ttl plain now s = (
  plain,
  record s {
    tokens =
        record {
          user_id = user;
          purpose = purpose;
          token_hash = hash plain;
          expires_at = now + ttl;
          used_at = none;
        }
        ∷ keep (λ (t : AuthToken). not (retired user purpose t)) s.tokens;
  },
)

-- The condition of the update in `consume`.
abbrev pub usable : String → Purpose → ℕ → AuthToken → Bool
usable hashed purpose now t =
    str_eq t.token_hash hashed
    && same_purpose t.purpose purpose
    && not (is_some t.used_at)
    && ltb now t.expires_at

-- The checks of `consume` on the user and the workspace.
unfoldable pub active_user : String → Store → Result AccountError User
active_user id s = or_raise (find (has_id id) s.users) invalid_link >>= λ u.
    or_raise (find (has_workspace u.tenant_id) s.workspaces) invalid_link >>= λ w.
    raise_if (not (u.is_active && w.is_active)) invalid_link >> ok u

-- `AuthTokenService.consume`
unfoldable pub consume :
    (String → String) → String → Purpose → ℕ → Store → Result AccountError (User × Store)
unfolding active_user
consume hash plain purpose now s =
    or_raise (find (usable (hash plain) purpose now) s.tokens) invalid_link >>= λ t.
    active_user t.user_id s >>= λ u. ok (
      u,
      record s {
        tokens =
            map
              (λ (x : AuthToken).
                if usable (hash plain) purpose now x then record x { used_at = some now } else x)
              s.tokens;
      },
    )

-- `session_ttl`, in seconds
abbrev pub session_ttl : ℕ
session_ttl = 604800

-- `start_session`, with a fresh key
unfoldable pub start_session : (String → String) → Workspace → User → ℕ → String → ℕ → Store → Store
start_session hash w u ttl plain now s = record s {
  api_keys =
      record {
        tenant_id = w.id;
        user_id = some u.id;
        key_hash = hash plain;
        is_active = true;
        is_session = true;
        expires_at = some (now + ttl);
        last_used_at = none;
      }
      ∷ s.api_keys;
  logins = put u.id now s.logins;
}

-- `user.password_hash if user else None`
abbrev hash_of : Option User → Option String
hash_of none = none
hash_of (some u) = u.password_hash

-- `login`: the user who is signed in, and the tables with the session
unfoldable pub login :
    (String → String)
    → (String → Option String → Bool)
    → String
    → String
    → String
    → ℕ
    → Store
    → Result AccountError (User × Store)
unfolding start_session
login hash verify email password plain now s =
    let user = find (has_email email) s.users in
    raise_if (not (verify password (hash_of user))) bad_credentials
    >> or_raise user bad_credentials
    >>= λ u. or_raise (find (has_workspace u.tenant_id) s.workspaces) suspended >>= λ w.
        raise_if (not w.is_active) suspended
        >> raise_if (not u.is_active) deactivated
        >> ok (u, start_session hash w u session_ttl plain now s)

abbrev is_viewer : Role → Bool
is_viewer viewer = true
is_viewer _ = false

-- `demo_session`, for the settings of the demo
unfoldable pub demo_session :
    (String → String) → Bool → String → ℕ → String → ℕ → Store → Result AccountError (User × Store)
unfolding start_session
demo_session hash enabled email ttl plain now s =
    raise_if (not enabled) no_demo >> or_raise (find (has_email email) s.users) no_demo >>= λ u.
    or_raise (find (has_workspace u.tenant_id) s.workspaces) no_demo >>= λ w.
    raise_if (not w.is_active || not u.is_active) no_demo
    >> raise_if (not (is_viewer u.role)) no_demo
    >> ok (u, start_session hash w u ttl plain now s)

abbrev pub has_hash : String → ApiKey → Bool
has_hash h k = str_eq k.key_hash h

-- `logout`, for the hash of the key
unfoldable pub logout : String → Store → Store
logout key_hash s = record s {
  api_keys =
      change (λ (k : ApiKey). has_hash key_hash k && k.is_session && k.is_active)
        (λ (k : ApiKey). record k { is_active = false }) s.api_keys;
}
