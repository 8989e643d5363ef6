-- ===== src/Lib.antt =====
-- Verification of the recommendation engine: a service to which workspaces upload items, which are
-- embedded and stored in a vector index, and which answers queries with ranked items.
--
-- Base holds what the modules share: lists and dicts measured by native naturals, Python's stable
-- sort, results with errors, and the interface `Num` of the numbers that scores are made of.
--
-- Filter (app/services/recommendation/filter_builder.py): the filters of a request become metadata
-- filters, by `build_pinecone_filter`, and metadata is tested against them, by `matches_filter`.
-- Filter/Build, Filter/Good and Filter/Match hold the theorems.
--
-- Understanding (query_understanding.py there): a chat model's reading of a question, checked and
-- merged by `to_filters`, and `interpret` with its cache and fallbacks. It hands its filters to Filter.
--
-- Ranking: the stages that order matches. Ranking/Hybrid is hybrid.py (vector and keyword hits fused),
-- Ranking/Feedback is reranker.py (statistics of shown and clicked items), Ranking/Llm is
-- llm_reranker.py (a chat model's verdicts), Ranking/Format is result_formatter.py, Ranking/Variant is
-- `assign_variant` of experiment.py. A match is a record of the keys that the stages read and add.
--
-- Billing (app/services/billing): the plan in force and its limits (plans.py), and in
-- Billing/Webhooks the events of Stripe and the sync of a customer (webhooks.py). The store is the
-- table of workspaces and that of handled events; a raised error leaves it. Billing/Checkout is the
-- checkout and portal pages (stripe_billing.py).
--
-- Limits (app/middleware/rate_limit.py, app/services/workspace_limits.py): counters in Redis, whose
-- calls may fail one by one; the caps on items in Limits/Capacity, the month's quota
-- in Limits/Queries, the demo's caps in Limits/Demo.
--
-- Pipeline (app/services/embedding/pipeline.py): claimed items are embedded and stored. The embedder
-- and the vector store are a record of functions, any of which may fail. Pipeline/Cover and
-- Pipeline/Process follow the items through `process_items`; Pipeline/Queue is the claiming
-- of items and the progress of batches, as statements on the table of items; Pipeline/Loop is
-- `process_batch`, whose loop runs on fuel, and Pipeline/Worker is `process_pending`.
--
-- Items (app/services/item_service.py, embedding/pinecone_service.py there): Items/Uploads is the upsert
-- of an upload into the table of items, with batches and the rebuild; Items/Vectors the deletion of
-- items, whose vectors are deleted first and in chunks. A workspace's namespace at Pinecone is the
-- list of its vectors' ids, and the client's two calls are functions on it that may fail.
--
-- Usage (app/core/usage.py, app/services/token_usage.py): the tokens that a unit of work spent, and the
-- running totals of a workspace.
--
-- Keywords and Personal (app/services/recommendation/keyword_search.py, personalization.py): full-text
-- search over the table of items, and the history and the taste of a user.
--
-- Engine (query_engine.py and cache.py there): the queries, which compose the parts above. Its state is
-- the result cache, the usage and the cache of verdicts; a `World` is what else a request meets: the
-- time, the services, each of which may fail and reports what it spent, and the tables. Engine/Search
-- finds matches, Engine/Stage is the LLM stage, Engine/Results the result cache, Engine/Answer the
-- path of every query with its theorems by what they are about, and Engine/Batch many queries at once.
--
-- Team (app/services/team_service.py): members, roles and invitations, as operations on three tables;
-- Team/Reach has the sequences of them.
--
-- Accounts (app/services/auth_tokens.py, account_service.py there, app/middleware/auth.py): single-use
-- links, sign-in and sessions; Accounts/Service has the operations on an account and the checks of a
-- request's key and role, Accounts/Tokens and Accounts/Access the theorems.
--
-- Scores are elements of any type with the operations and the laws of `Num`: a total order, and zero
-- as the neutral element of addition. Floats obey them where no NaN is involved; rounding is not
-- modelled further. Times are natural numbers of seconds. Texts of error messages are constructors
-- where no test reads them. OpenAI, Pinecone, Stripe, Redis' content, hashes, UUIDs and the text
-- functions of Python are parameters. There is fuel in three loops: over chunks of ids in Limits/Capacity,
-- where the number of ids is enough as each chunk takes at least one, in Items/Vectors likewise,
-- and over the chunks of a batch in
-- Pipeline/Loop, where one more than the pending items is enough as each turn claims at least one.
--
-- Not modelled: registration, workspaces and their keys, listings and CSV files of items, the item
-- statistics and the tracking of feedback, the tokens recorded for ingestion, the expiry of the failure counter,
-- evaluation, the HTTP routes, metrics and traces, and the rendering of prompts.
pub mod Base
pub mod Usage
pub mod Filter
pub mod Understanding
pub mod Ranking
pub mod Personal
pub mod Keywords
pub mod Engine
pub mod Billing
pub mod Limits
pub mod Pipeline
pub mod Items
pub mod Team
pub mod Accounts
pub mod Tests
