-- ===== src/Accounts/Access.antt =====
-- Who a request acts for, and what a password reset ends.
use mathlib.Core.Path.{subst}
use recommendation_engine.Base.{
  ℕ, ◌≡◌, ◌⊎◌, refl, inl, inr, String, Bool, true, false, not, ◌||◌, Option, none, some, List, [],
  ◌∷◌, map, arith, str_eq, eq_iff, All, All-In, In, All-intro, Bool-cases, if◌then◌else◌,
}
use recommendation_engine.Base.Result.{Result, ok, err, Then, Then-bind, Then-raise_if, Then-found}
use recommendation_engine.Team.{Role, developer, User, Workspace, find, has_id, has_workspace}
use recommendation_engine.Accounts.{ApiKey, Store, AccountError, has_hash, reset_password, consume}
use recommendation_engine.Accounts.Service.{
  AuthContext, is_session_of, set_password, mark_verified, reset_link, is_expired, acting, used,
  authenticate,
}

find-All :
    {A : Type 0} (P : A → Type 0) (p : A → Bool) (l : List A) (x : A)
    → All P l
    → find p l ≡ some x
    → P x × (p x ≡ true)
find-All P p [] x h e = absurd (cc)
find-All P p (y ∷ l) x h e = elim (Bool-cases (p y)) [
  | inl t ↦ let same : y ≡ x = ground arith in subst (λ z. P z × (p z ≡ true)) same (h.0, t)
  | inr t ↦ find-All P p l x h.1 (ground arith)
]

found_passes : {A : Type 0} (p : A → Bool) (l : List A) (x : A) → find p l ≡ some x → p x ≡ true
found_passes p l x e = (find-All (λ y. Unit {0}) p l x (All-intro (λ y. Unit {0}) (λ y. tt) l) e).1

In-found : {A : Type 0} (p : A → Bool) (l : List A) (x : A) → find p l ≡ some x → In x l
In-found p l x e = (find-All (λ y. In y l) p l x (All-In l) e).0

-- Whom a request acts for: the user with this id, with their role, active and of the workspace; or,
-- without an id, the workspace itself, as a developer.
abbrev pub IsActor : Workspace → Store → Option String → Option User × Role → Type 0
IsActor w s none (user, role) = (user ≡ none) × (role ≡ developer)
IsActor w s (some id) (user, role) =
    (u : User) × (user ≡ some u)
    × In u s.users
    × (u.id ≡ id)
    × (role ≡ u.role)
    × (u.is_active ≡ true)
    × (str_eq u.tenant_id w.id ≡ true)

acting-IsActor :
    (w : Workspace) (id : Option String) (s : Store) → Then (IsActor w s id) (acting w id s)
unfolding acting
acting-IsActor w none s = (refl, refl)
acting-IsActor w (some id) s =
    Then-found (IsActor w s (some id)) (find (has_id id) s.users) AccountError.ended_session _
      (λ u e.
        Then-raise_if (IsActor w s (some id)) (not u.is_active || not (str_eq u.tenant_id w.id))
          AccountError.ended_session _
          (λ h. (
            u,
            refl,
            In-found (has_id id) s.users u e,
            (eq_iff u.id id).0 (found_passes (has_id id) s.users u e),
            refl,
            ground (arith, h),
            ground (arith, h),
          )))

-- The context of a request that is let in.
abbrev pub IsAllowed : (String → String) → Option String → ℕ → Store → AuthContext → Type 0
IsAllowed hash raw now s a =
    (plain : String) × (raw ≡ some plain)
    × In a.api_key s.api_keys
    × In a.tenant s.workspaces
    × (a.api_key.key_hash ≡ hash plain)
    × (a.api_key.is_active ≡ true)
    × (is_expired now a.api_key.expires_at ≡ false)
    × (a.tenant.id ≡ a.api_key.tenant_id)
    × (a.tenant.is_active ≡ true)
    × IsActor a.tenant s a.api_key.user_id (a.user, a.role)

-- A request that is let in has passed every check: what they say holds of it.
authenticate-Then :
    (hash : String → String) (raw : Option String) (now : ℕ) (s : Store)
    (Q : AuthContext × Store → Type 0)
    → ((plain : String) (k : ApiKey) (w : Workspace) (a : Option User × Role)
        → raw ≡ some plain
        → find (has_hash (hash plain)) s.api_keys ≡ some k
        → find (has_workspace k.tenant_id) s.workspaces ≡ some w
        → not k.is_active ≡ false
        → is_expired now k.expires_at ≡ false
        → not w.is_active ≡ false
        → IsActor w s k.user_id a
        → Q (record { tenant = w; api_key = k; user = a.0; role = a.1 }, used k now s))
    → Then Q (authenticate hash raw now s)
unfolding authenticate
authenticate-Then hash raw now s Q f = Then-found Q raw AccountError.missing_key _ (λ plain given.
    Then-raise_if Q (str_eq plain "") AccountError.missing_key _ (λ nonempty.
      Then-found Q (find (has_hash (hash plain)) s.api_keys) AccountError.invalid_key _ (λ k found.
        Then-found Q (find (has_workspace k.tenant_id) s.workspaces) AccountError.invalid_key _
          (λ w its. Then-raise_if Q (not k.is_active) AccountError.invalid_key _ (λ active.
            Then-raise_if Q (is_expired now k.expires_at) AccountError.expired_key _ (λ unexpired.
              Then-raise_if Q (not w.is_active) AccountError.suspended _ (λ running.
                Then-bind (IsActor w s k.user_id) Q (acting w k.user_id s) _
                  (acting-IsActor w k.user_id s)
                  (λ a. f plain k w a given found its active unexpired running))))))))

-- A request is let in only with a stored key that is active and has not expired, of an active
-- workspace; if the key names no user it acts for that workspace as a developer, else for the active
-- user of the workspace whose id the key names, with the user's role.
pub authenticate-IsAllowed :
    (hash : String → String) (raw : Option String) (now : ℕ) (s : Store)
    → Then (λ r. IsAllowed hash raw now s r.0) (authenticate hash raw now s)
authenticate-IsAllowed hash raw now s =
    authenticate-Then hash raw now s (λ r. IsAllowed hash raw now s r.0)
      (λ plain k w a given found its active unexpired running actor. (
        plain,
        given,
        In-found (has_hash (hash plain)) s.api_keys k found,
        In-found (has_workspace k.tenant_id) s.workspaces w its,
        (eq_iff k.key_hash (hash plain)).0
            (found_passes (has_hash (hash plain)) s.api_keys k found),
        ground (arith, active),
        unexpired,
        (eq_iff w.id k.tenant_id).0 (found_passes (has_workspace k.tenant_id) s.workspaces w its),
        ground (arith, running),
        actor,
      ))

-- A key that is no session of the user, or is not active.
abbrev IsOver : String → ApiKey → Type 0
IsOver user k = (is_session_of user k ≡ false) ⊎ (k.is_active ≡ false)

-- No session of the user lets a request in.
abbrev pub SignedOut : String → Result AccountError (AuthContext × Store) → Type 0
SignedOut user r = Then (λ (c : AuthContext × Store). is_session_of user c.0.api_key ≡ false) r

authenticate-SignedOut :
    (hash : String → String) (raw : Option String) (now : ℕ) (user : String) (s : Store)
    → All (IsOver user) s.api_keys
    → SignedOut user (authenticate hash raw now s)
authenticate-SignedOut hash raw now user s h =
    authenticate-Then hash raw now s (λ r. is_session_of user r.0.api_key ≡ false)
      (λ plain k w a given found its active unexpired running actor.
        let over = (find-All (IsOver user) (has_hash (hash plain)) s.api_keys k h found).0 in
        ground (arith, over, active))

set_password-IsOver :
    (hash_password : String → String) (u : User) (password : String) (s : Store)
    → All (IsOver u.id) (set_password hash_password u password s).api_keys
unfolding set_password
set_password-IsOver hash_password u password s = over s.api_keys
  where
    over :
        (l : List ApiKey)
        → All (IsOver u.id) (
            map
              (λ (k : ApiKey). if is_session_of u.id k then record k { is_active = false } else k)
              l)
    over [] = tt
    over (k ∷ l) = elim (Bool-cases (is_session_of u.id k)) [
      | inl e ↦ rw e (inr refl, over l)
      | inr e ↦ rw e (inl e, over l)
    ]

Then-any : {E A : Type 0} (r : Result E A) → Then (λ a. Unit {0}) r
Then-any (ok a) = tt
Then-any (err e) = tt

-- Once a password is reset by a link, no session that the user had lets a request in.
pub reset_link-SignedOut :
    (hash hash_password : String → String) (plain password : String) (now : ℕ) (s : Store)
    (raw : Option String) (later : ℕ)
    → Then
        (λ r. SignedOut r.0.id (authenticate hash raw later r.1))
        (reset_link hash hash_password plain password now s)
unfolding reset_link
reset_link-SignedOut hash hash_password plain password now s raw later =
    let Q = λ (r : User × Store). SignedOut r.0.id (authenticate hash raw later r.1) in
    Then-bind (λ a. Unit {0}) Q (consume hash plain reset_password now s) _
      (Then-any (consume hash plain reset_password now s))
      (λ (u, t) h.
        Then-bind (λ a. Unit {0}) Q (mark_verified u now t) _ (Then-any (mark_verified u now t))
          (λ v k.
            authenticate-SignedOut hash raw later u.id (set_password hash_password u password v)
              (set_password-IsOver hash_password u password v)))
