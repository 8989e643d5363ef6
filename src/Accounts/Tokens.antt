-- ===== src/Accounts/Tokens.antt =====
-- The links that are sent by email: one use, and only the latest.
use recommendation_engine.Base.{
  ℕ, ◌+◌, ◌≤◌, ◌<◌, ◌≡◌, refl, ◌⊎◌, inl, inr, String, true, false, not, ◌&&◌, none, some, List, [],
  ◌∷◌, map, keep, arith, str_eq, eq_iff, All, Bool-cases, Option-cases, if◌then◌else◌,
}
use recommendation_engine.Base.Result.{ok, err, Then, Result-cases}
use recommendation_engine.Team.{User, find}
use recommendation_engine.Accounts.{
  Purpose, verify_email, reset_password, same_purpose, AuthToken, Store, invalid_link, retired,
  usable, issue, active_user, consume,
}

same_purpose_refl : (p : Purpose) → same_purpose p p ≡ true
same_purpose_refl verify_email = refl
same_purpose_refl reset_password = refl

abbrev marked : String → Purpose → ℕ → AuthToken → AuthToken
marked h p now x = if usable h p now x then record x { used_at = some now } else x

not_usable :
    (h : String) (p : Purpose) (now later : ℕ) (x : AuthToken)
    → now ≤ later
    → usable h p later (marked h p now x) ≡ false
not_usable h p now later x l = elim (Bool-cases (usable h p now x)) [
  | inl e ↦ rw e (ground arith)
  | inr e ↦ rw e (ground (arith, e, l))
]

find-marked :
    (h : String) (p : Purpose) (now later : ℕ) (l : List AuthToken)
    → now ≤ later
    → find (usable h p later) (map (marked h p now) l) ≡ none
find-marked h p now later [] n = refl
find-marked h p now later (x ∷ l) n =
    rw (not_usable h p now later x n) (find-marked h p now later l n)

module _ (hash : String → String) (plain : String) (p : Purpose) where
  consume-none :
      (now : ℕ) (s : Store)
      → find (usable (hash plain) p now) s.tokens ≡ none
      → consume hash plain p now s ≡ err invalid_link
  unfolding consume
  consume-none now s e = rw (e, consume) refl

  -- A link that was used cannot be used again.
  pub consume-once :
      (now later : ℕ) (s : Store)
      → now ≤ later
      → Then (λ r. consume hash plain p later r.1 ≡ err invalid_link) (consume hash plain p now s)
  unfolding consume
  consume-once now later s n = elim (Option-cases (find (usable (hash plain) p now) s.tokens)) [
    | inl e ↦ rw (e, consume) tt
    | inr (t, e) ↦ elim (Result-cases (active_user t.user_id s)) [
      | inr (x, f) ↦ rw (e, f, consume) tt
      | inl (u, f) ↦
          rw (e, f, consume)
            (consume-none later _ (find-marked (hash plain) p now later s.tokens n))
    ]
  ]

  consume-found :
      (now : ℕ) (s : Store) (t : AuthToken) (u : User)
      → find (usable (hash plain) p now) s.tokens ≡ some t
      → active_user t.user_id s ≡ ok u
      → consume hash plain p now s
        ≡ ok (u, record s { tokens = map (marked (hash plain) p now) s.tokens })
  unfolding consume
  consume-found now s t u e f = rw (e, f, consume) refl

  module _ (user : User) (ttl now later : ℕ) (s : Store) where
    abbrev new : AuthToken
    new = record {
      user_id = user.id;
      purpose = p;
      token_hash = hash plain;
      expires_at = now + ttl;
      used_at = none;
    }

    find-issue :
        later < now + ttl
        → find (usable (hash plain) p later) (issue hash user.id p ttl plain now s).1.tokens
          ≡ some new
    unfolding issue
    find-issue l =
        let u : usable (hash plain) p later new ≡ true =
          ground (arith, eq_iff (hash plain) (hash plain), same_purpose_refl p) in
        rw u refl

    -- The link that was issued works until it expires, for a user who is active in an active
    -- workspace: it is that user's.
    pub consume-issue :
        active_user user.id s ≡ ok user
        → later < now + ttl
        → (s2 : Store) × (consume hash plain p later (issue hash user.id p ttl plain now s).1
            ≡ ok (user, s2))
    unfolding issue active_user
    consume-issue a l =
        (_, consume-found later (issue hash user.id p ttl plain now s).1 new user (find-issue l) a)

-- No token of the list is another user's, or for another purpose, with this hash.
abbrev pub IsOwn : String → String → Purpose → AuthToken → Type 0
IsOwn h user p t =
    (str_eq t.token_hash h ≡ false) ⊎ (str_eq t.user_id user && same_purpose t.purpose p ≡ true)

find-retired :
    (h user : String) (p : Purpose) (later : ℕ) (l : List AuthToken)
    → All (IsOwn h user p) l
    → find (usable h p later) (keep (λ (t : AuthToken). not (retired user p t)) l) ≡ none
find-retired h user p later [] k = refl
find-retired h user p later (t ∷ l) k = elim (Bool-cases (retired user p t)) [
  | inl e ↦ rw e (find-retired h user p later l k.1)
  | inr e ↦
      let n : usable h p later t ≡ false = ground (arith, k.0, e) in
      rw e (rw n (find-retired h user p later l k.1))
]

-- Once a link is issued, the user's earlier links for the same purpose do not work any more.
pub consume-latest :
    (hash : String → String) (plain old : String) (p : Purpose) (user : String) (ttl now later : ℕ)
    (s : Store)
    → str_eq (hash plain) (hash old) ≡ false
    → All (IsOwn (hash old) user p) s.tokens
    → consume hash old p later (issue hash user p ttl plain now s).1 ≡ err invalid_link
unfolding issue
consume-latest hash plain old p user ttl now later s d k =
    consume-none hash old p later (issue hash user p ttl plain now s).1
      (rw d (find-retired (hash old) user p later s.tokens k))
