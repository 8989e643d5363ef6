-- ===== src/Accounts/Service.antt =====
-- account_service.py, from the verification of emails to the deletion of an account, and the checks of
-- middleware/auth.py.
use recommendation_engine.Base.{
  ℕ, ◌-◌, String, Bool, true, false, not, ◌&&◌, ◌||◌, Option, none, some, List, map, keep, any_of,
  is_some, leb, str_eq, if◌then◌else◌, or_else,
}
use recommendation_engine.Base.Dict.{member}
use recommendation_engine.Base.Result.{Result, ok, err, ◌>>=◌, ◌>>◌, raise_if, or_raise}
use recommendation_engine.Team.{
  Role, developer, at_least, is_owner, User, Workspace, find, change, has_id, has_email,
  has_workspace, password_fails,
}
use recommendation_engine.Accounts.{
  AuthToken, verify_email, reset_password, ApiKey, Store, AccountError, issue, consume, has_hash,
}

-- `resend_verification` of the signed-in user, if it is a person
unfoldable pub resend_verification :
    (String → String) → Option User → ℕ → String → ℕ → Store → Result AccountError (String × Store)
resend_verification hash none ttl plain now s = err AccountError.no_user
resend_verification hash (some u) ttl plain now s =
    raise_if (is_some u.email_verified_at) AccountError.already_verified
    >> ok (issue hash u.id verify_email ttl plain now s)

-- The tenant of a user, as `get_tenant` finds it.
workspace_of : User → Store → Result AccountError Workspace
workspace_of u s =
    or_raise (find (has_workspace u.tenant_id) s.workspaces) AccountError.workspace_not_found

-- `_mark_verified`: the owner's address is also the workspace's.
unfoldable pub mark_verified : User → ℕ → Store → Result AccountError Store
unfolding workspace_of
mark_verified u now s = workspace_of u s >>= λ w. ok (record s {
  users =
      change (has_id u.id)
        (λ (x : User). record x { email_verified_at = or_else x.email_verified_at (some now) })
        s.users;
  workspaces =
      if is_owner u.role
      then change (has_workspace u.tenant_id)
          (λ (x : Workspace). record x {
            email_verified_at = or_else x.email_verified_at (some now);
          })
          s.workspaces
      else s.workspaces;
})

-- `verify_email`, for the token of a link
unfoldable pub verify_link : (String → String) → String → ℕ → Store → Result AccountError Store
verify_link hash plain now s =
    consume hash plain verify_email now s >>= λ (u, t). mark_verified u now t

-- `request_password_reset`: nothing for an address that no active user has
unfoldable pub request_password_reset :
    (String → String) → String → ℕ → String → ℕ → Store → Option String × Store
request_password_reset hash email ttl plain now s = elim (find (has_email email) s.users) [
  | none ↦ (none, s)
  | some u ↦
      let issued = issue hash u.id reset_password ttl plain now s in
      if u.is_active then (some issued.0, issued.1) else (none, s)
]

-- `ApiKey.user_id == user.id`
abbrev pub is_session_of : String → ApiKey → Bool
is_session_of user k = elim k.user_id [ none ↦ false | some u ↦ str_eq u user ]

-- What `reset_password` does once the link is taken: the new password, and no session any more.
unfoldable pub set_password : (String → String) → User → String → Store → Store
set_password hash_password u password s = record s {
  users =
      change (has_id u.id)
        (λ (x : User). record x { password_hash = some (hash_password password) }) s.users;
  api_keys =
      map (λ (k : ApiKey). if is_session_of u.id k then record k { is_active = false } else k)
        s.api_keys;
}

-- `reset_password`
unfoldable pub reset_link :
    (String → String)
    → (String → String)
    → String
    → String
    → ℕ
    → Store
    → Result AccountError (User × Store)
reset_link hash hash_password plain password now s =
    consume hash plain reset_password now s >>= λ (u, t).
    mark_verified u now t >>= λ v. ok (u, set_password hash_password u password v)

-- `delete_account` of the workspace by the signed-in user, if it is a person. `confirm` is the address
-- given, in lower case; `vectors` says whether the vector store deletes the workspace's vectors. The
-- rows of the workspace go with it.
unfoldable pub delete_account :
    (String → String → Bool)
    → Workspace
    → Option User
    → String
    → Option String
    → Bool
    → Store
    → Result AccountError Store
delete_account verify w user confirm password vectors s =
    raise_if (not (str_eq confirm w.email)) AccountError.wrong_email
    >> raise_if
        (elim user [ none ↦ false | some u ↦ password_fails verify u.password_hash password ])
        AccountError.wrong_password
    >> raise_if (not vectors) AccountError.store_unavailable
    >> ok (record s {
      users = keep (λ (u : User). not (str_eq u.tenant_id w.id)) s.users;
      tokens =
          keep
            (λ (t : AuthToken).
              not (any_of (λ (u : User). has_id t.user_id u && str_eq u.tenant_id w.id) s.users))
            s.tokens;
      workspaces = keep (λ (x : Workspace). not (has_workspace w.id x)) s.workspaces;
      api_keys = keep (λ (k : ApiKey). not (str_eq k.tenant_id w.id)) s.api_keys;
    })

-- AuthContext
pub record AuthContext : Type 0 where
  pub tenant : Workspace
  pub api_key : ApiKey
  pub user : Option User
  pub role : Role

-- `email_verified`
abbrev pub email_verified : AuthContext → Bool
email_verified a = elim a.user [
  | some u ↦ is_some u.email_verified_at
  | none ↦ is_some a.tenant.email_verified_at
]

-- `api_key.expires_at is not None and api_key.expires_at <= now`
abbrev pub is_expired : ℕ → Option ℕ → Bool
is_expired now none = false
is_expired now (some t) = leb t now

-- `LAST_USED_RESOLUTION`
abbrev pub last_used_resolution : ℕ
last_used_resolution = 60

-- `api_key.last_used_at is None or now - ... >= LAST_USED_RESOLUTION`, for a clock that does not go back
abbrev pub is_due : ℕ → Option ℕ → Bool
is_due now none = true
is_due now (some t) = leb last_used_resolution (now - t)

-- The user of a session key, and the role that the request has.
unfoldable pub acting : Workspace → Option String → Store → Result AccountError (Option User × Role)
acting w none s = ok (none, developer)
acting w (some id) s = or_raise (find (has_id id) s.users) AccountError.ended_session >>= λ u.
    raise_if (not u.is_active || not (str_eq u.tenant_id w.id)) AccountError.ended_session
    >> ok (some u, u.role)

-- The use of the key is noted, at most once a minute.
pub used : ApiKey → ℕ → Store → Store
used k now s =
    if is_due now k.last_used_at
    then record s {
      api_keys =
          change (has_hash k.key_hash) (λ (x : ApiKey). record x { last_used_at = some now })
            s.api_keys;
    }
    else s

-- `authenticate`
unfoldable pub authenticate :
    (String → String) → Option String → ℕ → Store → Result AccountError (AuthContext × Store)
unfolding acting used
authenticate hash raw now s = or_raise raw AccountError.missing_key >>= λ plain.
    raise_if (str_eq plain "") AccountError.missing_key
    >> or_raise (find (has_hash (hash plain)) s.api_keys) AccountError.invalid_key
    >>= λ k.
        or_raise (find (has_workspace k.tenant_id) s.workspaces) AccountError.invalid_key >>= λ w.
        raise_if (not k.is_active) AccountError.invalid_key
        >> raise_if (is_expired now k.expires_at) AccountError.expired_key
        >> raise_if (not w.is_active) AccountError.suspended
        >> acting w k.user_id s
        >>= λ (user, role).
            ok (record { tenant = w; api_key = k; user = user; role = role }, used k now s)

-- `require_role`
unfoldable pub require_role : Role → AuthContext → Result AccountError AuthContext
require_role minimum a =
    raise_if (not (at_least a.role minimum)) (AccountError.needs_role minimum) >> ok a

-- `require_platform_admin`
unfoldable pub require_platform_admin : List String → AuthContext → Result AccountError User
require_platform_admin admins a = or_raise a.user AccountError.needs_admin >>= λ u.
    raise_if (not (member u.id admins)) AccountError.needs_admin >> ok u
