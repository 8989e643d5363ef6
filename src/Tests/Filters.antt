-- ===== src/Tests/Filters.antt =====
-- Examples for filter_builder.py and query_understanding.py.
use recommendation_engine.Base.{ℕ, ◌≡◌, ◌≢◌, refl, String, true, none, some, List, [], ◌∷◌}
use recommendation_engine.Base.Number.{nat_num}
use recommendation_engine.Base.Dict.{Dict, lookup}
use recommendation_engine.Base.Result.{ok, err}
use recommendation_engine.Filter.{
  Scalar, Value, null, scalar, Condition, build_pinecone_filter, condition_of,
}
use recommendation_engine.Filter.Build.{
  problems, expected, build_pinecone_filter-accepts, build_pinecone_filter-reports,
}
use recommendation_engine.Filter.Match.{between}
use recommendation_engine.Understanding.{
  Answer, Kind, FieldProfile, RawFilter, AskError, Reply, interpret,
}
use recommendation_engine.Understanding.Interpret.{IsUsable, bounds, interpret-IsUsable}

abbrev filter_fields : List String
filter_fields = "city" ∷ "price" ∷ []

abbrev city : Value ℕ
city = scalar (Scalar.text "Pune")

-- {"city": "Pune", "price": {"gte": 3, "lte": 9}}
abbrev request : Dict (Value ℕ)
request = ("city", city) ∷ ("price", between 3 9) ∷ []

-- {"colour": "Pune", "price": {"gte": 9, "lte": 3}}
abbrev bad_request : Dict (Value ℕ)
bad_request = ("colour", city) ∷ ("price", between 9 3) ∷ []

request-accepted : problems filter_fields request ≡ []
unfolding problems condition_of
request-accepted = refl

bad_request-refused : problems filter_fields bad_request ≢ []
unfolding problems condition_of
bad_request-refused h = absurd (cc)

build_pinecone_filter-accepts_example :
    (r : Dict (Condition ℕ)) × (build_pinecone_filter (some request) filter_fields ≡ ok r)
    × ((f : String) → lookup f r ≡ expected filter_fields request f)
build_pinecone_filter-accepts_example =
    build_pinecone_filter-accepts filter_fields request (refl, (refl, tt)) request-accepted

build_pinecone_filter-reports_example :
    build_pinecone_filter (some bad_request) filter_fields
    ≡ err (problems filter_fields bad_request)
build_pinecone_filter-reports_example =
    build_pinecone_filter-reports filter_fields bad_request bad_request-refused

-- Texts as they are.
abbrev same : String → String
same s = s

abbrev profiles : Dict FieldProfile
profiles =
    ("city", record { kind = Kind.text; values = "Pune" ∷ "Goa" ∷ [] })
    ∷ ("price", record { kind = Kind.number; values = [] })
    ∷ []

abbrev in_city : RawFilter ℕ
in_city = record { name = "city"; op = "eq"; text_values = "Pune" ∷ []; number = null }

abbrev silent : Reply ℕ
silent = record { prompt_tokens = 7; completion_tokens = 0; answer = err AskError.timeout }

interpret-IsUsable_example :
    IsUsable same same filter_fields "in Pune?"
      (interpret same same true "in Pune?" profiles filter_fields none silent).0
interpret-IsUsable_example =
    interpret-IsUsable same same true "in Pune?" profiles filter_fields none silent

-- A city, and a price over 9 and under 3.
abbrev reversed : Answer ℕ
reversed = record { search_text = "rooms"; filters = in_city ∷ bounds same same "price" 9 3 }
