-- ===== src/Team.antt =====
-- services/team_service.py: the members of a workspace and the invitations to it, with models/user.py
-- and models/invitation.py. An operation takes the three tables and returns them changed, or the error
-- that it raises, in which case nothing is committed. Times are seconds.
pub mod Owner
pub mod Reach
use recommendation_engine.Base.{
  ℕ, ◌+◌, ◌*◌, ◌≡◌, String, Bool, true, false, not, ◌&&◌, ◌||◌, Option, none, some, List, [], ◌∷◌,
  ◌++◌, keep, any_of, is_some, ltb, leb, str_eq, if◌then◌else◌, or_else,
}
use recommendation_engine.Base.Result.{Result, ok, err, ◌>>=◌, ◌>>◌, raise_if, or_raise}

-- From least to most privileged.
pub data Role : Type 0 where
  viewer developer admin owner : Role

-- `list(Role).index(self)`
abbrev pub rank : Role → ℕ
rank viewer = 0
rank developer = 1
rank admin = 2
rank owner = 3

abbrev pub at_least : Role → Role → Bool
at_least r other = leb (rank other) (rank r)

abbrev pub is_owner : Role → Bool
is_owner viewer = false
is_owner developer = false
is_owner admin = false
is_owner owner = true

pub record User : Type 0 where
  pub id : String
  pub tenant_id : String
  pub email : String
  pub role : Role
  pub password_hash : Option String
  pub email_verified_at : Option ℕ
  pub is_active : Bool

pub record Invitation : Type 0 where
  pub id : String
  pub tenant_id : String
  pub email : String
  pub role : Role
  pub token_hash : String
  pub expires_at : ℕ
  pub accepted_at : Option ℕ

pub record Workspace : Type 0 where
  pub id : String
  pub email : String
  pub email_verified_at : Option ℕ
  pub is_active : Bool

pub record Tables : Type 0 where
  pub users : List User
  pub invitations : List Invitation
  pub workspaces : List Workspace

pub data TeamError : Type 0 where
  already_member : TeamError
  invalid_role invalid_invitation already_owner not_eligible : TeamError
  invitation_not_found member_not_found : TeamError
  own_role owner_role owner_removal wrong_password not_allowed : TeamError

-- The row with an id, the first of a test, and a row updated in place.
abbrev pub find : {A : Type 0} → (A → Bool) → List A → Option A
find p [] = none
find p (x ∷ xs) = let rest = find p xs in if p x then some x else rest

abbrev pub change : {A : Type 0} → (A → Bool) → (A → A) → List A → List A
change p f [] = []
change p f (x ∷ xs) = let rest = change p f xs in if p x then f x ∷ xs else x ∷ rest

abbrev pub remove_first : {A : Type 0} → (A → Bool) → List A → List A
remove_first p [] = []
remove_first p (x ∷ xs) = let rest = remove_first p xs in if p x then xs else x ∷ rest

abbrev pub has_id : String → User → Bool
has_id i u = str_eq u.id i

abbrev pub has_email : String → User → Bool
has_email e u = str_eq u.email e

-- A pending invitation of the workspace to the address.
abbrev replaced : String → String → Invitation → Bool
replaced tenant email i =
    str_eq i.tenant_id tenant && str_eq i.email email && not (is_some i.accepted_at)

-- The validators of `InviteRequest` and `RoleUpdate` in schemas/account.py
abbrev pub not_owner : Role → Result TeamError (Unit {0})
not_owner r = raise_if (is_owner r) TeamError.invalid_role

-- `invite`: `id` and `token_hash` are the new row's, `ttl` is the setting in seconds.
unfoldable pub invite :
    String → String → Role → String → String → ℕ → ℕ → Tables → Result TeamError Tables
invite tenant email role id token_hash ttl now t =
    not_owner role
    >> raise_if (is_some (find (has_email email) t.users)) TeamError.already_member
    >> ok (record t {
      invitations =
          record {
            id = id;
            tenant_id = tenant;
            email = email;
            role = role;
            token_hash = token_hash;
            expires_at = now + ttl;
            accepted_at = none;
          }
          ∷ keep (λ (i : Invitation). not (replaced tenant email i)) t.invitations;
    })

abbrev pub revocable : String → String → Invitation → Bool
revocable tenant id i = str_eq i.id id && str_eq i.tenant_id tenant && not (is_some i.accepted_at)

unfoldable pub revoke_invitation : String → String → Tables → Result TeamError Tables
revoke_invitation tenant id t =
    raise_if (not (any_of (revocable tenant id) t.invitations)) TeamError.invitation_not_found
    >> ok (record t {
      invitations = keep (λ (i : Invitation). not (revocable tenant id i)) t.invitations;
    })

abbrev pub has_token : String → Invitation → Bool
has_token h i = str_eq i.token_hash h

abbrev pub has_workspace : String → Workspace → Bool
has_workspace id w = str_eq w.id id

-- `open_invitation`, for the hash of the token
pub open_invitation : String → ℕ → Tables → Result TeamError Invitation
open_invitation hash now t =
    or_raise (find (has_token hash) t.invitations) TeamError.invalid_invitation >>= λ i.
    raise_if (is_some i.accepted_at || leb i.expires_at now) TeamError.invalid_invitation
    >> or_raise (find (has_workspace i.tenant_id) t.workspaces) TeamError.invalid_invitation
    >>= λ w. raise_if (not w.is_active) TeamError.invalid_invitation >> ok i

-- `accept`, for the hash of the token, the new user's id and the hash of the password
unfoldable pub accept : String → String → String → ℕ → Tables → Result TeamError Tables
unfolding open_invitation
accept hash id password_hash now t = open_invitation hash now t >>= λ i.
    raise_if (is_some (find (has_email i.email) t.users)) TeamError.already_member
    >> ok (record t {
      users =
          record {
            id = id;
            tenant_id = i.tenant_id;
            email = i.email;
            role = i.role;
            password_hash = some password_hash;
            email_verified_at = some now;
            is_active = true;
          }
          ∷ t.users;
      invitations =
          change (has_token hash) (λ (i : Invitation). record i { accepted_at = some now })
            t.invitations;
    })

-- `_member`
pub member_of : String → String → Tables → Result TeamError User
member_of tenant id t = or_raise (find (has_id id) t.users) TeamError.member_not_found >>= λ u.
    raise_if (not (str_eq u.tenant_id tenant)) TeamError.member_not_found >> ok u

abbrev pub is_actor : Option String → User → Bool
is_actor none u = false
is_actor (some a) u = str_eq u.id a

abbrev pub with_role : Role → User → User
with_role r u = record u { role = r }

-- `change_role` by the actor, if it is a person
unfoldable pub change_role :
    String → Option String → String → Role → Tables → Result TeamError Tables
unfolding member_of
change_role tenant actor id role t = not_owner role >> member_of tenant id t >>= λ u.
    raise_if (is_actor actor u) TeamError.own_role
    >> raise_if (is_owner u.role) TeamError.owner_role
    >> ok (record t { users = change (has_id id) (with_role role) t.users })

-- `remove`
unfoldable pub remove : String → String → Tables → Result TeamError Tables
unfolding member_of
remove tenant id t = member_of tenant id t >>= λ u.
    raise_if (is_owner u.role) TeamError.owner_removal
    >> ok (record t { users = remove_first (has_id id) t.users })

-- `owner.has_password and not verify_password(password or "", owner.password_hash)`; `verify` is the
-- password check of the library.
abbrev pub password_fails : (String → String → Bool) → Option String → Option String → Bool
password_fails verify none given = false
password_fails verify (some hash) none = not (verify "" hash)
password_fails verify (some hash) (some p) = not (verify p hash)

-- `transfer_ownership` by a signed-in user whose role passes `require_role(Role.OWNER)`
unfoldable pub transfer_ownership :
    (String → String → Bool)
    → String
    → String
    → String
    → Option String
    → Tables
    → Result TeamError Tables
unfolding member_of
transfer_ownership verify tenant actor id password t = member_of tenant actor t >>= λ o.
    raise_if (not (at_least o.role owner)) TeamError.not_allowed
    >> raise_if (password_fails verify o.password_hash password) TeamError.wrong_password
    >> member_of tenant id t
    >>= λ u.
        raise_if (str_eq id actor) TeamError.already_owner
        >> raise_if (not (u.is_active && is_some u.email_verified_at)) TeamError.not_eligible
        >> ok (record t {
          users =
              change (has_id actor) (with_role admin)
                (change (has_id id) (with_role owner) t.users);
          workspaces =
              change (has_workspace tenant)
                (λ (w : Workspace). record w {
                  email = u.email;
                  email_verified_at = u.email_verified_at;
                })
                t.workspaces;
        })

-- `pending_invitations`, the newest first; the table has them in that order.
unfoldable pub pending_invitations : String → ℕ → Tables → List Invitation
pending_invitations tenant now t =
    keep
      (λ (i : Invitation).
        str_eq i.tenant_id tenant && not (is_some i.accepted_at) && ltb now i.expires_at)
      t.invitations
