-- ===== src/Base/Dict.antt =====
-- A Python dict with text keys: an association list in insertion order, without repeated keys.
use Prim.Native.String.{String}
use mathlib.Core.Path.{◌≡◌, refl, sym, subst, subst₂}
use mathlib.Core.Logic.{◌⊎◌, inl, inr}
use mathlib.Core.Bool.{Bool, true, false, ◌||◌}
use mathlib.Core.Option.{Option, none, some}
use mathlib.Core.Logic.Or
use mathlib.Core.Bool.{false≢true}
use mathlib.Core.List.{List, [], ◌∷◌, Mem, Nodup, Nodup-nil, Nodup-cons, mem-cons, not-mem-nil}
use native.Mathlib.Omega.{arith}
use text.Mathlib.Text.{◌==◌ as str_eq}
use text.Mathlib.TextEquality.{eq_iff}
use recommendation_engine.Base.Tests.{if◌then◌else◌, Bool-cases}

abbrev pub Dict {ℓ} : Type ℓ → Type ℓ
Dict V = List (String × V)

-- `k in texts`
abbrev pub member : String → List String → Bool
member k [] = false
member k (j ∷ js) = let rest = member k js in str_eq j k || rest

pub member-cases :
    (k j : String) (js : List String) → member k (j ∷ js) ≡ true → (j ≡ k) ⊎ (member k js ≡ true)
member-cases k j js h = ground (arith, eq_iff j k)

module _ {ℓ} {V : Type ℓ} where
  -- `d.get(k)`
  abbrev pub lookup : String → Dict V → Option V
  lookup k [] = none
  lookup k ((j, v) ∷ d) = let rest = lookup k d in if str_eq j k then some v else rest

  -- `d[k] = v`: a present key keeps its place
  abbrev pub put : String → V → Dict V → Dict V
  put k v [] = (k, v) ∷ []
  put k v ((j, w) ∷ d) = let rest = put k v d in if str_eq j k then (j, v) ∷ d else (j, w) ∷ rest

  abbrev pub keys : Dict V → List String
  keys [] = []
  keys ((j, _) ∷ d) = j ∷ keys d

  pub lookup-put :
      (k j : String) (v : V) (d : Dict V)
      → lookup j (put k v d) ≡ (if str_eq k j then some v else lookup j d)
  lookup-put k j v [] = refl
  lookup-put k j v ((i, w) ∷ d) =
      ground (arith, eq_iff k j, eq_iff i k, eq_iff i j, lookup-put k j v d)

-- No key twice.
abbrev pub Distinct : List String → Type 0
Distinct [] = Unit
Distinct (k ∷ ks) = (member k ks ≡ false) × Distinct ks

module _ {ℓ} {V : Type ℓ} where
  pub member-put :
      (k j : String) (v : V) (d : Dict V)
      → member j (keys (put k v d)) ≡ (str_eq k j || member j (keys d))
  member-put k j v [] = refl
  member-put k j v ((i, w) ∷ d) =
      ground (arith, eq_iff k j, eq_iff i k, eq_iff i j, member-put k j v d)

  pub put-Distinct :
      (k : String) (v : V) (d : Dict V) → Distinct (keys d) → Distinct (keys (put k v d))
  put-Distinct k v [] h = (refl, tt)
  put-Distinct k v ((i, w) ∷ d) h =
      ground (arith, eq_iff i k, eq_iff k i, member-put k i v d, put-Distinct k v d h.1)

-- What holds of every entry of a dict.
module _ {ℓ κ} {V : Type ℓ} (P : String → V → Type κ) where
  abbrev pub Entries : Dict V → Type κ
  Entries [] = Unit
  Entries ((k, v) ∷ d) = P k v × Entries d

  pub put-Entries : (k : String) (v : V) (d : Dict V) → P k v → Entries d → Entries (put k v d)
  put-Entries k v [] p h = (p, tt)
  put-Entries k v ((j, w) ∷ d) p h = elim (Bool-cases (str_eq j k)) [
    | inl e ↦ rw e (subst (λ i. P i v) (sym ((eq_iff j k).0 e)) p, h.1)
    | inr e ↦ rw e (h.0, put-Entries k v d p h.1)
  ]

  pub lookup-Entries : (k : String) (d : Dict V) {v : V} → Entries d → lookup k d ≡ some v → P k v
  lookup-Entries k [] h e = absurd (cc)
  lookup-Entries k ((j, w) ∷ d) {v} h e = elim (Bool-cases (str_eq j k)) [
    | inl s ↦ let q : w ≡ v = ground arith in subst₂ P ((eq_iff j k).0 s) q h.0
    | inr s ↦ lookup-Entries k d h.1 (ground arith)
  ]

not_mem-member : (k : String) (ks : List String) → member k ks ≡ false → ¬ Mem k ks
not_mem-member k [] h m = not-mem-nil m
not_mem-member k (j ∷ ks) h m =
    Or.elim (λ a b. absurd a) (mem-cons.0 m) (λ e. false≢true (ground (arith, eq_iff j k)))
      (not_mem-member k ks (ground arith))

-- Distinct keys are without duplicates in the library's sense.
pub Distinct-Nodup : (ks : List String) → Distinct ks → Nodup ks
Distinct-Nodup [] h = Nodup-nil
Distinct-Nodup (k ∷ ks) h = Nodup-cons.1 (not_mem-member k ks h.0, Distinct-Nodup ks h.1)
