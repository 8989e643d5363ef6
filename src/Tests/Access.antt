-- ===== src/Tests/Access.antt =====
-- Examples for accounts: links, sessions, keys.
use recommendation_engine.Base.{◌≡◌, refl, String, true, none, some, [], ◌∷◌, arith}
use recommendation_engine.Base.Result.{ok, err, Then}
use recommendation_engine.Team.{Role, User, Workspace}
use recommendation_engine.Accounts.{Purpose, Store, AccountError, issue, consume, active_user}
use recommendation_engine.Accounts.Service.{authenticate, reset_link}
use recommendation_engine.Accounts.Tokens.{consume-once, consume-issue}
use recommendation_engine.Accounts.Access.{
  IsAllowed, authenticate-IsAllowed, SignedOut, reset_link-SignedOut,
}

abbrev ann : User
ann = record {
  id = "ann";
  tenant_id = "acme";
  email = "ann@acme";
  role = Role.admin;
  password_hash = some "old";
  email_verified_at = none;
  is_active = true;
}

abbrev acme : Workspace
acme = record { id = "acme"; email = "it@acme"; email_verified_at = none; is_active = true }

-- A link that was sent at 0, and a session.
abbrev store : Store
store = record {
  users = ann ∷ [];
  workspaces = acme ∷ [];
  tokens =
      record {
        user_id = "ann";
        purpose = Purpose.reset_password;
        token_hash = "link";
        expires_at = 60;
        used_at = none;
      }
      ∷ [];
  api_keys =
      record {
        tenant_id = "acme";
        user_id = some "ann";
        key_hash = "key";
        is_active = true;
        is_session = true;
        expires_at = some 100;
        last_used_at = none;
      }
      ∷ [];
  logins = [];
  admins = [];
}

abbrev same_text : String → String
same_text t = t

consume-once_example :
    Then
      (λ r. consume same_text "link" Purpose.reset_password 40 r.1 ≡ err AccountError.invalid_link)
      (consume same_text "link" Purpose.reset_password 30 store)
consume-once_example =
    consume-once same_text "link" Purpose.reset_password 30 40 store (omega arith)

consume-issue_example :
    (s2 : Store) × (consume same_text "new" Purpose.reset_password 40
        (issue same_text "ann" Purpose.reset_password 60 "new" 30 store).1
      ≡ ok (ann, s2))
consume-issue_example =
    consume-issue same_text "new" Purpose.reset_password ann 60 30 40 store
      (unfold active_user in refl) (omega arith)

authenticate-IsAllowed_example :
    Then
      (λ r. IsAllowed same_text (some "key") 50 store r.0)
      (authenticate same_text (some "key") 50 store)
authenticate-IsAllowed_example = authenticate-IsAllowed same_text (some "key") 50 store

reset_link-SignedOut_example :
    Then
      (λ r. SignedOut r.0.id (authenticate same_text (some "key") 50 r.1))
      (reset_link same_text same_text "link" "secret" 40 store)
reset_link-SignedOut_example =
    reset_link-SignedOut same_text same_text "link" "secret" 40 store (some "key") 50
