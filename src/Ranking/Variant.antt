-- ===== src/Ranking/Variant.antt =====
-- experiment.py: the split of traffic between ranking variants.
use recommendation_engine.Base.{
  String, ◌≡◌, Bool, true, false, not, ◌||◌, Option, none, some, arith, str_eq, if◌then◌else◌,
}
use recommendation_engine.Base.Number.{Num, lt}

pub data RankingVariant : Type 0 where
  control reranked : RankingVariant

module _ {N : Type 0} ⦃num : Num N⦄ where
  -- A request's number in [0, 1): the hash of workspace and user for a request with a user id, else a
  -- fresh random number. `if user_id` takes the empty id for none.
  abbrev pub bucket_of : (String → N) → N → Option String → N
  bucket_of hash random none = random
  bucket_of hash random (some u) = if str_eq u "" then random else hash u

  -- `assign_variant`, for a config's `enabled` and `control_share`
  unfoldable pub assign_variant : Bool → N → (String → N) → N → Option String → RankingVariant
  assign_variant enabled control_share hash random user_id =
      if not enabled || num.le num.one control_share
      then control
      else if num.le control_share num.zero
      then reranked
      else if lt (bucket_of hash random user_id) control_share
      then control
      else reranked

  -- Raising the share of the control group never takes anyone out of it.
  pub assign_variant-monotone :
      (enabled : Bool) (s t : N) (hash : String → N) (random : N) (user : Option String)
      → num.le s t ≡ true
      → assign_variant enabled s hash random user ≡ control
      → assign_variant enabled t hash random user ≡ control
  unfolding assign_variant
  assign_variant-monotone enabled s t hash random user h e = ground (
    arith,
    num.le_trans num.one s t,
    num.le_trans s t num.zero,
    num.le_trans s t (bucket_of hash random user),
    num.le_trans num.one s t,
  )

  -- The variant of a request with a user id does not depend on chance.
  pub assign_variant-stable :
      (enabled : Bool) (s : N) (hash : String → N) (r1 r2 : N) (user : String)
      → str_eq user "" ≡ false
      → assign_variant enabled s hash r1 (some user) ≡ assign_variant enabled s hash r2 (some user)
  unfolding assign_variant
  assign_variant-stable enabled s hash r1 r2 user h = rw h
