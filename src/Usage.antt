-- ===== src/Usage.antt =====
-- core/usage.py and services/token_usage.py: what a unit of work spent on embeddings, and the running
-- totals of it in the database, by workspace, day, source and model.
use recommendation_engine.Base.{
  ℕ, ◌+◌, ◌≡◌, refl, String, Bool, true, false, not, ◌&&◌, ◌||◌, Option, none, some, List, [], ◌∷◌,
  ◌==◌, arith, str_eq, eq_iff, inl, inr, Bool-cases, if◌then◌else◌,
}

-- EmbeddingUsage; `model` is that of the last call.
pub record Usage : Type 0 where
  pub tokens : ℕ
  pub api_calls : ℕ
  pub texts : ℕ
  pub cache_hits : ℕ
  pub model : Option String

abbrev pub no_usage : Usage
no_usage = record { tokens = 0; api_calls = 0; texts = 0; cache_hits = 0; model = none }

-- `if model: usage.model = model`
abbrev last_model : Option String → Option String → Option String
last_model before none = before
last_model before (some m) = if str_eq m "" then before else some m

-- `add_embedding_usage`, for the scope that is open
abbrev pub add_usage : Usage → Usage → Usage
add_usage u v = record {
  tokens = u.tokens + v.tokens;
  api_calls = u.api_calls + v.api_calls;
  texts = u.texts + v.texts;
  cache_hits = u.cache_hits + v.cache_hits;
  model = last_model u.model v.model;
}

abbrev pub is_empty : Usage → Bool
is_empty u = u.texts == 0 && u.api_calls == 0

pub data Source : Type 0 where
  ingest query : Source

abbrev same_source : Source → Source → Bool
same_source ingest ingest = true
same_source query query = true
same_source _ _ = false

-- A row of token_usage.
pub record Row : Type 0 where
  pub tenant : String
  pub day : ℕ
  pub source : Source
  pub model : String
  pub tokens : ℕ
  pub api_calls : ℕ
  pub texts : ℕ
  pub cache_hits : ℕ

-- The columns of the unique constraint.
abbrev pub same_key : Row → Row → Bool
same_key r s =
    str_eq r.tenant s.tenant
    && r.day == s.day
    && same_source r.source s.source
    && str_eq r.model s.model

-- `usage.model or settings.EMBEDDING_MODEL`
abbrev model_or : Option String → String → String
model_or none setting = setting
model_or (some m) setting = if str_eq m "" then setting else m

-- `values`
row_of : String → String → ℕ → Source → Usage → Row
row_of setting tenant day source u = record {
  tenant = tenant;
  day = day;
  source = source;
  model = model_or u.model setting;
  tokens = u.tokens;
  api_calls = u.api_calls;
  texts = u.texts;
  cache_hits = u.cache_hits;
}

-- INSERT ... ON CONFLICT DO UPDATE, adding up the counters
upsert : Row → List Row → List Row
upsert new [] = new ∷ []
upsert new (r ∷ rows) =
    let rest = upsert new rows in
    if same_key new r
    then record r {
      tokens = r.tokens + new.tokens;
      api_calls = r.api_calls + new.api_calls;
      texts = r.texts + new.texts;
      cache_hits = r.cache_hits + new.cache_hits;
    }
      ∷ rows
    else r ∷ rest

-- `record_embedding_usage`. `fails` says whether the database refuses the statement, which is then
-- rolled back.
unfoldable pub record_embedding_usage :
    String → Bool → String → ℕ → Source → Usage → List Row → List Row
unfolding row_of upsert
record_embedding_usage setting fails tenant day source u rows =
    if is_empty u || fails then rows else upsert (row_of setting tenant day source u) rows

-- What the rows say that a workspace spent, whatever the day, source and model.
abbrev pub spent : String → List Row → ℕ
spent t [] = 0
spent t (r ∷ rows) = (if str_eq r.tenant t then r.tokens else 0) + spent t rows

abbrev has_key : Row → List Row → Bool
has_key k [] = false
has_key k (r ∷ rows) = same_key k r || has_key k rows

-- The unique constraint.
abbrev pub IsUnique : List Row → Type 0
IsUnique [] = Unit
IsUnique (r ∷ rows) = (has_key r rows ≡ false) × IsUnique rows

spent-upsert :
    (new : Row) (t : String) (rows : List Row)
    → spent t (upsert new rows) ≡ (if str_eq new.tenant t then new.tokens else 0) + spent t rows
unfolding upsert
spent-upsert new t [] = refl
spent-upsert new t (r ∷ rows) = ground (arith, eq_iff new.tenant r.tenant, spent-upsert new t rows)

-- What a workspace spent grows by the tokens of its own units of work, where the database takes the
-- statement and something was embedded, and by nothing else.
pub spent-record_embedding_usage :
    (setting : String) (fails : Bool) (tenant : String) (day : ℕ) (source : Source) (u : Usage)
    (t : String) (rows : List Row)
    → spent t (record_embedding_usage setting fails tenant day source u rows)
      ≡ (if str_eq tenant t && not (is_empty u) && not fails then u.tokens else 0) + spent t rows
unfolding record_embedding_usage row_of
spent-record_embedding_usage setting fails tenant day source u t rows =
    ground (arith, spent-upsert (row_of setting tenant day source u) t rows)

same_source_trans : (a b c : Source) → same_source a b ≡ true → same_source a c ≡ same_source b c
same_source_trans ingest ingest c h = refl
same_source_trans query query c h = refl
same_source_trans ingest query c h = absurd (cc)
same_source_trans query ingest c h = absurd (cc)

same_key_trans : (k r s : Row) → same_key k r ≡ true → same_key k s ≡ same_key r s
same_key_trans k r s h = ground (
  arith,
  eq_iff k.tenant r.tenant,
  eq_iff k.model r.model,
  same_source_trans k.source r.source s.source,
)

same_source_sym : (a b : Source) → same_source a b ≡ same_source b a
same_source_sym ingest ingest = refl
same_source_sym ingest query = refl
same_source_sym query ingest = refl
same_source_sym query query = refl

same_key_sym : (r s : Row) → same_key r s ≡ same_key s r
same_key_sym r s = ground (
  arith,
  eq_iff r.tenant s.tenant,
  eq_iff s.tenant r.tenant,
  eq_iff r.model s.model,
  eq_iff s.model r.model,
  same_source_sym r.source s.source,
)

has_key-upsert :
    (k new : Row) (rows : List Row)
    → has_key k (upsert new rows) ≡ (same_key k new || has_key k rows)
unfolding upsert
has_key-upsert k new [] = refl
has_key-upsert k new (r ∷ rows) = elim (Bool-cases (same_key new r)) [
  | inl e ↦ rw e (ground (arith, same_key_trans new r k e, same_key_sym k r, same_key_sym k new))
  | inr e ↦ rw e (ground (arith, has_key-upsert k new rows))
]

upsert-IsUnique : (new : Row) (rows : List Row) → IsUnique rows → IsUnique (upsert new rows)
unfolding upsert
upsert-IsUnique new [] h = (refl, tt)
upsert-IsUnique new (r ∷ rows) h = elim (Bool-cases (same_key new r)) [
  | inl e ↦ rw e h
  | inr e ↦ rw e (
    ground (arith, has_key-upsert r new rows, same_key_sym r new, h.0),
    upsert-IsUnique new rows h.1,
  )
]

-- A workspace keeps at most one row for a day, source and model.
pub record_embedding_usage-IsUnique :
    (setting : String) (fails : Bool) (tenant : String) (day : ℕ) (source : Source) (u : Usage)
    (rows : List Row)
    → IsUnique rows
    → IsUnique (record_embedding_usage setting fails tenant day source u rows)
unfolding record_embedding_usage
record_embedding_usage-IsUnique setting fails tenant day source u rows h =
    elim (Bool-cases (is_empty u || fails)) [
      | inl e ↦ rw e h
      | inr e ↦ rw e (upsert-IsUnique (row_of setting tenant day source u) rows h)
    ]
