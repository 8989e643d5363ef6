-- ===== src/Team/Reach.antt =====
-- A workspace's owner, over any sequence of the operations of team_service.py.
use mathlib.Core.Path.{refl, subst}
use recommendation_engine.Base.{
  ℕ, ◌≡◌, inl, inr, String, Bool, true, false, not, ◌&&◌, Option, some, List, arith, str_eq, eq_iff,
  Bool-cases, is_some,
}
use recommendation_engine.Base.Result.{Result, ok, Then, Then-bind}
use recommendation_engine.Team.Owner.{
  owns, owners, OneOwner, Found, guard, member_of-Found, owners-change, owners-demoted, find-change,
  owns-le, change_role-OneOwner, remove-OneOwner, invite-OneOwner, revoke_invitation-OneOwner,
  accept-OneOwner,
}
use recommendation_engine.Team.{
  Role, at_least, is_owner, User, Tables, TeamError, find, change, has_id, with_role,
  password_fails, invite, revoke_invitation, accept, change_role, remove, member_of,
  transfer_ownership,
}

at_least-owner : (r : Role) → not (at_least r Role.owner) ≡ false → is_owner r ≡ true
at_least-owner Role.viewer h = absurd (cc)
at_least-owner Role.developer h = absurd (cc)
at_least-owner Role.admin h = absurd (cc)
at_least-owner Role.owner h = refl

owns-member :
    (w tenant : String) (u : User)
    → str_eq u.tenant_id tenant ≡ true
    → str_eq tenant w ≡ true
    → is_owner u.role ≡ true
    → owns w u ≡ 1
owns-member w tenant u t e r = rw ((eq_iff u.tenant_id tenant).0 t) (rw (e, r) refl)

owns-stranger :
    (w tenant : String) (u : User)
    → str_eq u.tenant_id tenant ≡ true
    → str_eq tenant w ≡ false
    → owns w u ≡ 0
owns-stranger w tenant u t e = rw ((eq_iff u.tenant_id tenant).0 t) (rw e refl)

module _ (w : String) where
  -- Two members, one of them the owner: the other takes over.
  owners-transferred :
      (tenant actor id : String) (us : List User) (o u : User)
      → find (has_id actor) us ≡ some o
      → find (has_id id) us ≡ some u
      → str_eq o.tenant_id tenant ≡ true
      → str_eq u.tenant_id tenant ≡ true
      → is_owner o.role ≡ true
      → str_eq id actor ≡ false
      → owners w us ≡ 1
      → owners w (
          change
            (has_id actor)
            (with_role Role.admin)
            (change (has_id id) (with_role Role.owner) us))
        ≡ 1
  owners-transferred tenant actor id us o u fo fu to tu ro n h =
      let us1 = change (has_id id) (with_role Role.owner) us in
      let up = owners-change w id (with_role Role.owner) us u fu in
      let fo1 = find-change id actor Role.owner us n in
      let down = owners-demoted w actor Role.admin us1 o (rw fo1 fo) refl in
      let without = owners-demoted w id Role.admin us u fu refl in
      let fo2 = find-change id actor Role.admin us n in
      let rest = owns-le w actor (change (has_id id) (with_role Role.admin) us) o (rw fo2 fo) in
      elim (Bool-cases (str_eq tenant w)) [
        | inl e ↦
            let a : owns w o ≡ 1 = owns-member w tenant o to e ro in
            let b : owns w (with_role Role.owner u) ≡ 1 =
              owns-member w tenant (with_role Role.owner u) tu e refl in
            omega (arith, up, down, without, rest, a, b)
        | inr e ↦
            let a : owns w o ≡ 0 = owns-stranger w tenant o to e in
            let b : owns w (with_role Role.owner u) ≡ 0 =
              owns-stranger w tenant (with_role Role.owner u) tu e in
            let c : owns w u ≡ 0 = owns-stranger w tenant u tu e in omega (arith, up, down, a, b, c)
      ]

  transfer_ownership-OneOwner :
      (verify : String → String → Bool) (tenant actor id : String) (password : Option String)
      (t : Tables)
      → OneOwner w t
      → Then (OneOwner w) (transfer_ownership verify tenant actor id password t)
  unfolding transfer_ownership
  transfer_ownership-OneOwner verify tenant actor id password t h =
      Then-bind (Found tenant actor t) (OneOwner w) (member_of tenant actor t) _
        (member_of-Found tenant actor t)
        (λ o fo. guard (OneOwner w) (not (at_least o.role Role.owner)) TeamError.not_allowed _ (λ r.
          guard (OneOwner w) (password_fails verify o.password_hash password)
            TeamError.wrong_password _
            (λ v.
              Then-bind (Found tenant id t) (OneOwner w) (member_of tenant id t) _
                (member_of-Found tenant id t)
                (λ u fu. guard (OneOwner w) (str_eq id actor) TeamError.already_owner _ (λ n.
                  guard (OneOwner w) (not (u.is_active && is_some u.email_verified_at))
                    TeamError.not_eligible _
                    (λ m. (
                      owners-transferred tenant actor id t.users o u fo.0 fu.0 fo.1 fu.1
                          (at_least-owner o.role r) n h.0,
                      h.1,
                    )))))))

-- One operation that succeeds, and any number of them one after the other. `verify` is the check of a
-- password against its hash.
pub data Step (verify : String → String → Bool) (t : Tables) : Tables → Type 0 where
  invited :
      (tenant email : String) (role : Role) (id hash : String) (ttl now : ℕ) (after : Tables)
      → invite tenant email role id hash ttl now t ≡ ok after
      → Step verify t after
  revoked :
      (tenant id : String) (after : Tables)
      → revoke_invitation tenant id t ≡ ok after
      → Step verify t after
  accepted :
      (hash id password_hash : String) (now : ℕ) (after : Tables)
      → accept hash id password_hash now t ≡ ok after
      → Step verify t after
  role_changed :
      (tenant : String) (actor : Option String) (id : String) (role : Role) (after : Tables)
      → change_role tenant actor id role t ≡ ok after
      → Step verify t after
  removed :
      (tenant id : String) (after : Tables) → remove tenant id t ≡ ok after → Step verify t after
  transferred :
      (tenant actor id : String) (password : Option String) (after : Tables)
      → transfer_ownership verify tenant actor id password t ≡ ok after
      → Step verify t after

pub data Reach (verify : String → String → Bool) (t : Tables) : Tables → Type 0 where
  here : Reach verify t t
  next : (mid after : Tables) → Reach verify t mid → Step verify mid after → Reach verify t after

of_result :
    (w : String) (r : Result TeamError Tables) (after : Tables)
    → r ≡ ok after
    → Then (OneOwner w) r
    → OneOwner w after
of_result w r after e h = subst (Then (OneOwner w)) e h

Step-OneOwner :
    (verify : String → String → Bool) (w : String) (t after : Tables)
    → OneOwner w t
    → Step verify t after
    → OneOwner w after
Step-OneOwner verify w t after h (invited tenant email role id hash ttl now _ e) =
    of_result w _ after e (invite-OneOwner w tenant email role id hash ttl now t h)
Step-OneOwner verify w t after h (revoked tenant id _ e) =
    of_result w _ after e (revoke_invitation-OneOwner w tenant id t h)
Step-OneOwner verify w t after h (accepted hash id password_hash now _ e) =
    of_result w _ after e (accept-OneOwner w hash id password_hash now t h)
Step-OneOwner verify w t after h (role_changed tenant actor id role _ e) =
    of_result w _ after e (change_role-OneOwner w tenant actor id role t h)
Step-OneOwner verify w t after h (removed tenant id _ e) =
    of_result w _ after e (remove-OneOwner w tenant id t h)
Step-OneOwner verify w t after h (transferred tenant actor id password _ e) =
    of_result w _ after e (transfer_ownership-OneOwner w verify tenant actor id password t h)

-- A workspace with one owner, and without invitations to be the owner, is still such a workspace after
-- any sequence of invitations, revocations, acceptances, changes of role, removals and transfers of
-- ownership in any of the workspaces.
pub Reach-OneOwner :
    (verify : String → String → Bool) (w : String) (t after : Tables)
    → OneOwner w t
    → Reach verify t after
    → OneOwner w after
Reach-OneOwner verify w t after h here = h
Reach-OneOwner verify w t after h (next mid _ r s) =
    Step-OneOwner verify w mid after (Reach-OneOwner verify w t mid h r) s
