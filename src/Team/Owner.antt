-- ===== src/Team/Owner.antt =====
-- The number of a workspace's owners, under the operations that do not transfer it.
use mathlib.Core.Path.{subst}
use recommendation_engine.Base.{
  ℕ, ◌+◌, ◌≤◌, ◌≡◌, refl, ap, inl, inr, String, Bool, true, false, not, ◌&&◌, Option, none, some,
  List, [], ◌∷◌, keep, any_of, All, arith, str_eq, eq_iff, Bool-cases, Option-cases, if◌then◌else◌,
  is_some,
}
use recommendation_engine.Base.Result.{Result, ok, raise_if, ◌>>◌, or_raise, Then, Then-bind}
use recommendation_engine.Team.{
  Role, is_owner, User, Invitation, Tables, TeamError, find, change, remove_first, has_id,
  with_role, invite, revoke_invitation, accept, change_role, remove, member_of, Workspace,
  has_workspace, has_email, revocable, is_actor, open_invitation, has_token,
}

-- 1 for the owner of the workspace, 0 for others.
abbrev pub owns : String → User → ℕ
owns w u = if str_eq u.tenant_id w && is_owner u.role then 1 else 0

abbrev pub owners : String → List User → ℕ
owners w [] = 0
owners w (u ∷ us) = owns w u + owners w us

abbrev pub NoOwner : List Invitation → Type 0
NoOwner = All (λ (i : Invitation). is_owner i.role ≡ false)

-- The workspace has one owner, and nobody is invited to be one.
abbrev pub OneOwner : String → Tables → Type 0
OneOwner w t = (owners w t.users ≡ 1) × NoOwner t.invitations

some_user : (a b : User) → some a ≡ some b → a ≡ b
some_user a b e = ap (λ o. elim o [ none ↦ a | some x ↦ x ]) e

pub owners-change :
    (w id : String) (f : User → User) (us : List User) (u : User)
    → find (has_id id) us ≡ some u
    → owners w (change (has_id id) f us) + owns w u ≡ owners w us + owns w (f u)
owners-change w id f [] u h = absurd (cc)
owners-change w id f (v ∷ us) u h = elim (Bool-cases (has_id id v)) [
  | inl e ↦
      let p : v ≡ u = some_user v u (ground (arith, e, h)) in
      rw e (
        subst
          (λ (x : User).
            owns w (f v) + owners w us + owns w x ≡ owns w v + owners w us + owns w (f x))
          p (omega arith))
  | inr e ↦ let r = owners-change w id f us u (ground (arith, e, h)) in rw e (omega (arith, r))
]

owners-remove_first :
    (w id : String) (us : List User) (u : User)
    → find (has_id id) us ≡ some u
    → owners w (remove_first (has_id id) us) + owns w u ≡ owners w us
owners-remove_first w id [] u h = absurd (cc)
owners-remove_first w id (v ∷ us) u h = elim (Bool-cases (has_id id v)) [
  | inl e ↦
      let p : v ≡ u = some_user v u (ground (arith, e, h)) in
      rw e (subst (λ (x : User). owners w us + owns w x ≡ owns w v + owners w us) p (omega arith))
  | inr e ↦ let r = owners-remove_first w id us u (ground (arith, e, h)) in rw e (omega (arith, r))
]

pub owns-le :
    (w id : String) (us : List User) (u : User)
    → find (has_id id) us ≡ some u
    → owns w u ≤ owners w us
owns-le w id us u h = let r = owners-remove_first w id us u h in omega (arith, r)

pub find-change :
    (i j : String) (r : Role) (us : List User)
    → str_eq i j ≡ false
    → find (has_id j) (change (has_id i) (with_role r) us) ≡ find (has_id j) us
find-change i j r [] n = refl
find-change i j r (v ∷ us) n = elim (Bool-cases (has_id i v)) [
  | inl e ↦ let f : str_eq v.id j ≡ false = rw ((eq_iff v.id i).0 e) n in rw (e, f) refl
  | inr e ↦ rw (e, find-change i j r us n) refl
]

Then-raise_if : {E : Type 0} (b : Bool) (e : E) → Then (λ (u : Unit {0}). b ≡ false) (raise_if b e)
Then-raise_if true e = tt
Then-raise_if false e = refl

-- What is known of a member that was found.
abbrev pub Found : String → String → Tables → User → Type 0
Found tenant id t u = (find (has_id id) t.users ≡ some u) × (str_eq u.tenant_id tenant ≡ true)

pub member_of-Found :
    (tenant id : String) (t : Tables) → Then (Found tenant id t) (member_of tenant id t)
unfolding member_of
member_of-Found tenant id t = elim (Option-cases (find (has_id id) t.users)) [
  | inl n ↦ rw n tt
  | inr (u, f) ↦ elim (Bool-cases (str_eq u.tenant_id tenant)) [
    | inl s ↦ rw (f, s) (f, s)
    | inr s ↦ rw (f, s) tt
  ]
]

pub guard :
    {B : Type 0} (Q : B → Type 0) (b : Bool) (e : TeamError) (k : Result TeamError B)
    → (b ≡ false → Then Q k)
    → Then Q (raise_if b e >> k)
guard Q true e k h = tt
guard Q false e k h = h refl

-- A member whose role is changed to one that is not the owner's, and is not the owner.
pub owners-demoted :
    (w id : String) (r : Role) (us : List User) (u : User)
    → find (has_id id) us ≡ some u
    → is_owner r ≡ false
    → owners w (change (has_id id) (with_role r) us) + owns w u ≡ owners w us
owners-demoted w id r us u h n =
    let c = owners-change w id (with_role r) us u h in
    let z : owns w (with_role r u) ≡ 0 = ground (arith, n) in omega (arith, c, z)

NoOwner-keep : (p : Invitation → Bool) (is : List Invitation) → NoOwner is → NoOwner (keep p is)
NoOwner-keep p [] h = tt
NoOwner-keep p (i ∷ is) h = elim (Bool-cases (p i)) [
  | inl e ↦ rw e (h.0, NoOwner-keep p is h.1)
  | inr e ↦ rw e (NoOwner-keep p is h.1)
]

NoOwner-change :
    (now : ℕ) (p : Invitation → Bool) (is : List Invitation)
    → NoOwner is
    → NoOwner (change p (λ (i : Invitation). record i { accepted_at = some now }) is)
NoOwner-change now p [] h = tt
NoOwner-change now p (i ∷ is) h = elim (Bool-cases (p i)) [
  | inl e ↦ rw e h
  | inr e ↦ rw e (h.0, NoOwner-change now p is h.1)
]

find-role :
    (p : Invitation → Bool) (is : List Invitation) (e : TeamError)
    → NoOwner is
    → Then (λ (i : Invitation). is_owner i.role ≡ false) (or_raise (find p is) e)
find-role p [] e h = tt
find-role p (i ∷ is) e h = elim (Bool-cases (p i)) [
  | inl f ↦ rw f h.0
  | inr f ↦ rw f (find-role p is e h.1)
]

open_invitation-role :
    (hash : String) (now : ℕ) (t : Tables)
    → NoOwner t.invitations
    → Then (λ (i : Invitation). is_owner i.role ≡ false) (open_invitation hash now t)
unfolding open_invitation
open_invitation-role hash now t h =
    let Q : Invitation → Type 0 = λ i. is_owner i.role ≡ false in
    Then-bind Q Q (or_raise (find (has_token hash) t.invitations) TeamError.invalid_invitation) _
      (find-role (has_token hash) t.invitations TeamError.invalid_invitation h)
      (λ i q. guard Q _ TeamError.invalid_invitation _ (λ m.
        Then-bind (λ x. Unit {0}) Q
          (or_raise (find (has_workspace i.tenant_id) t.workspaces) TeamError.invalid_invitation) _
          (any_workspace (find (has_workspace i.tenant_id) t.workspaces))
          (λ x u. guard Q (not x.is_active) TeamError.invalid_invitation (ok i) (λ n. q))))
  where
    any_workspace :
        (o : Option Workspace) → Then (λ x. Unit {0}) (or_raise o TeamError.invalid_invitation)
    any_workspace none = tt
    any_workspace (some x) = tt

module _ (w : String) where
  pub change_role-OneOwner :
      (tenant : String) (actor : Option String) (id : String) (role : Role) (t : Tables)
      → OneOwner w t
      → Then (OneOwner w) (change_role tenant actor id role t)
  unfolding change_role
  change_role-OneOwner tenant actor id role t o =
      guard (OneOwner w) (is_owner role) TeamError.invalid_role _ (λ n.
        Then-bind (Found tenant id t) (OneOwner w) (member_of tenant id t) _
          (member_of-Found tenant id t)
          (λ u f. guard (OneOwner w) (is_actor actor u) TeamError.own_role _ (λ m.
            guard (OneOwner w) (is_owner u.role) TeamError.owner_role
              (ok (record t { users = change (has_id id) (with_role role) t.users }))
              (λ k.
                let d = owners-demoted w id role t.users u f.0 n in
                let z : owns w u ≡ 0 = ground (arith, k) in (omega (arith, d, z, o.0), o.1)))))

  pub remove-OneOwner :
      (tenant id : String) (t : Tables) → OneOwner w t → Then (OneOwner w) (remove tenant id t)
  unfolding remove
  remove-OneOwner tenant id t o =
      Then-bind (Found tenant id t) (OneOwner w) (member_of tenant id t) _
        (member_of-Found tenant id t)
        (λ u f. guard (OneOwner w) (is_owner u.role) _ _ (λ k.
          let d = owners-remove_first w id t.users u f.0 in
          let z : owns w u ≡ 0 = ground (arith, k) in (omega (arith, d, z, o.0), o.1)))

  pub invite-OneOwner :
      (tenant email : String) (role : Role) (id token_hash : String) (ttl now : ℕ) (t : Tables)
      → OneOwner w t
      → Then (OneOwner w) (invite tenant email role id token_hash ttl now t)
  unfolding invite
  invite-OneOwner tenant email role id token_hash ttl now t o =
      guard (OneOwner w) (is_owner role) TeamError.invalid_role _ (λ n.
        guard (OneOwner w) (is_some (find (has_email email) t.users)) TeamError.already_member _
          (λ m. (o.0, (n, NoOwner-keep _ t.invitations o.1))))

  pub revoke_invitation-OneOwner :
      (tenant id : String) (t : Tables)
      → OneOwner w t
      → Then (OneOwner w) (revoke_invitation tenant id t)
  unfolding revoke_invitation
  revoke_invitation-OneOwner tenant id t o =
      guard (OneOwner w) (not (any_of (revocable tenant id) t.invitations))
        TeamError.invitation_not_found _ (λ m. (o.0, NoOwner-keep _ t.invitations o.1))

  pub accept-OneOwner :
      (hash id password_hash : String) (now : ℕ) (t : Tables)
      → OneOwner w t
      → Then (OneOwner w) (accept hash id password_hash now t)
  unfolding accept
  accept-OneOwner hash id password_hash now t o =
      Then-bind (λ (i : Invitation). is_owner i.role ≡ false) (OneOwner w)
        (open_invitation hash now t) _ (open_invitation-role hash now t o.1)
        (λ i n.
          guard (OneOwner w) (is_some (find (has_email i.email) t.users)) TeamError.already_member _
            (λ m. (ground (arith, n, o.0), NoOwner-change now (has_token hash) t.invitations o.1)))
