-- ===== src/Tests/Work.antt =====
-- Examples for the embedding pipeline and the team.
use recommendation_engine.Base.{
  ℕ, ◌+◌, ◌==◌, ◌≡◌, refl, String, Bool, true, false, none, some, List, [], ◌∷◌, keep, arith,
}
use recommendation_engine.Base.Dict.{Dict, member, Distinct}
use recommendation_engine.Base.Result.{ok, err}
use recommendation_engine.Pipeline.{
  Status, Item, EmbedError, PipelineError, Services, process_items,
}
use recommendation_engine.Pipeline.Loop.{Progress, Ending, process_batch}
use recommendation_engine.Pipeline.Loop.Ends.{Drained, process_batch-Drained}
use recommendation_engine.Pipeline.Worker.{work_chunk}
use recommendation_engine.Pipeline.Worker.Laws.{Back, work_chunk-Back}
use recommendation_engine.Pipeline.Queue.{ids}
use recommendation_engine.Pipeline.Process.{Settled, process_items-Settled}
use recommendation_engine.Pipeline.Queue.{
  BatchStatus, ItemBatch, claim, count_status, in_batch, is_complete, refresh_batch, claim-disjoint,
  refresh_batch_complete,
}
use recommendation_engine.Team.{Role, User, Tables, invite, accept, transfer_ownership}
use recommendation_engine.Team.Owner.{OneOwner}
use recommendation_engine.Team.Reach.{Step, Reach, Reach-OneOwner}

-- An item whose text is the given one.
abbrev an_item : String → String → Status → Item String
an_item id text status = record {
  id = id;
  tenant_id = "shop";
  batch_id = some "batch";
  external_id = id;
  raw_data = ("name", text) ∷ [];
  embedding_status = status;
  pinecone_id = none;
  item_metadata = [];
  search_text = none;
  created_at = 1;
  updated_at = 1;
}

abbrev first_text : Dict String → String
first_text [] = ""
first_text ((k, v) ∷ d) = v

-- Services that reject a batch, embed one by one, and then fail to store.
abbrev services : Services String ℕ
services = record {
  blank = λ v. false;
  of_text = λ s. s;
  filter_fields = [];
  no_text = "no text";
  refusal = λ m. m;
  embedding_text = first_text;
  keyword_text = first_text;
  embed_batch = λ texts. err (EmbedError.rejected "too long");
  embed_text = λ text. ok 1;
  ensure_index = ok tt;
  upsert_batch = λ vectors. err PipelineError.store_unavailable;
}

abbrev claimed : List (Item String)
claimed =
    an_item "a" "red shoe" Status.processing
    ∷ an_item "b" "" Status.processing
    ∷ an_item "c" "blue hat" Status.processing
    ∷ []

process_items-Settled_example : Settled (process_items services claimed)
process_items-Settled_example = process_items-Settled services claimed (refl, (refl, (refl, tt)))

abbrev table : List (Item String)
table = an_item "a" "red shoe" Status.pending ∷ an_item "b" "" Status.failed ∷ []

chosen : member "a" (claim 5 ("a" ∷ []) table).0 ≡ true
unfolding claim
chosen = refl

claim-disjoint_example :
    member "a" (claim 6 ("a" ∷ "b" ∷ []) (claim 5 ("a" ∷ []) table).1).0 ≡ false
claim-disjoint_example = claim-disjoint 5 6 ("a" ∷ []) ("a" ∷ "b" ∷ []) table "a" chosen

abbrev batch : ItemBatch
batch = record {
  id = "batch";
  total_items = 2;
  processed_items = 0;
  failed_items = 0;
  status = BatchStatus.pending;
  completed_at = none;
}

refresh_batch_complete_example :
    (is_complete (refresh_batch 9 table batch).status ≡ (
      count_status Status.pending (keep (in_batch "batch") table)
        + count_status Status.processing (keep (in_batch "batch") table)
      == 0))
    × ((refresh_batch 9 table batch).processed_items
        ≡ count_status Status.done (keep (in_batch "batch") table))
    × ((refresh_batch 9 table batch).failed_items
        ≡ count_status Status.failed (keep (in_batch "batch") table))
refresh_batch_complete_example = refresh_batch_complete 9 table batch refl

-- Passwords are their own hashes here.
abbrev plain : String → String → Bool
plain p h = true

abbrev ann : User
ann = record {
  id = "ann";
  tenant_id = "shop";
  email = "ann@shop";
  role = Role.owner;
  password_hash = some "secret";
  email_verified_at = some 1;
  is_active = true;
}

abbrev start : Tables
start = record {
  users = ann ∷ [];
  invitations = [];
  workspaces =
      record { id = "shop"; email = "ann@shop"; email_verified_at = some 1; is_active = true } ∷ [];
}

abbrev asked : Tables
asked = record start {
  invitations =
      record {
        id = "i";
        tenant_id = "shop";
        email = "bo@shop";
        role = Role.developer;
        token_hash = "t";
        expires_at = 17;
        accepted_at = none;
      }
      ∷ [];
}

abbrev bo : User
bo = record {
  id = "bo";
  tenant_id = "shop";
  email = "bo@shop";
  role = Role.developer;
  password_hash = some "pw";
  email_verified_at = some 11;
  is_active = true;
}

abbrev joined : Tables
joined = record start {
  users = bo ∷ ann ∷ [];
  invitations =
      record {
        id = "i";
        tenant_id = "shop";
        email = "bo@shop";
        role = Role.developer;
        token_hash = "t";
        expires_at = 17;
        accepted_at = some 11;
      }
      ∷ [];
}

abbrev handed_over : Tables
handed_over = record joined {
  users = record bo { role = Role.owner } ∷ record ann { role = Role.admin } ∷ [];
  workspaces =
      record { id = "shop"; email = "bo@shop"; email_verified_at = some 11; is_active = true } ∷ [];
}

invites : invite "shop" "bo@shop" Role.developer "i" "t" 7 10 start ≡ ok asked
unfolding invite
invites = refl

joins : accept "t" "bo" "pw" 11 asked ≡ ok joined
unfolding accept
joins = refl

hands_over : transfer_ownership plain "shop" "ann" "bo" (some "secret") joined ≡ ok handed_over
unfolding transfer_ownership
hands_over = refl

-- Ann invites Bo, Bo accepts, and Ann hands the workspace over to Bo.
reached : Reach plain start handed_over
reached =
    Reach.next joined handed_over
      (Reach.next asked joined
        (Reach.next start asked Reach.here
          (Step.invited "shop" "bo@shop" Role.developer "i" "t" 7 10 asked invites))
        (Step.accepted "t" "bo" "pw" 11 joined joins))
      (Step.transferred "shop" "ann" "bo" (some "secret") handed_over hands_over)

Reach-OneOwner_example : OneOwner "shop" handed_over
Reach-OneOwner_example = Reach-OneOwner plain "shop" start handed_over (refl, tt) reached

abbrev waiting : List (Item String)
waiting = an_item "x" "red" Status.pending ∷ an_item "y" "" Status.pending ∷ []

abbrev upload : ItemBatch
upload = record {
  id = "batch";
  total_items = 2;
  processed_items = 0;
  failed_items = 0;
  status = BatchStatus.pending;
  completed_at = none;
}

waiting-Distinct : Distinct (ids waiting)
unfolding ids
waiting-Distinct = (refl, (refl, tt))

process_batch-Drained_example :
    (r : Progress String × Ending) × (process_batch services
        (λ a b. true)
        1
        5
        3
        (record { items = waiting; batch = upload })
      ≡ some r)
    × Drained r
process_batch-Drained_example =
    process_batch-Drained services (λ a b. true) 1 5 (omega arith) 3
      (record { items = waiting; batch = upload }) waiting-Distinct (omega arith)

work_chunk-Back_example :
    let r =
      work_chunk
        (λ tenant. some services)
        (λ a b. true)
        5
        ("x" ∷ "y" ∷ [])
        (record { items = claimed; batches = upload ∷ [] }) in
    Back (λ tenant. some services) (λ a b. true) ("x" ∷ "y" ∷ []) (r.0, r.1.items)
work_chunk-Back_example =
    work_chunk-Back (λ tenant. some services) (λ a b. true) 5 ("x" ∷ "y" ∷ [])
      (record { items = claimed; batches = upload ∷ [] })
