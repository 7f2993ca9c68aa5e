-- ===== src/Lib.antt =====
-- The verification library of vargate_telemetry, a service that pulls the usage of AI vendors
-- into hash-chained telemetry records, prices them, and watches budgets.
--
-- Parts and files. Base has the shared names; Base/Decimal is the rounding of Python's `Decimal`,
-- Base/Result the exceptions, Base/Text the texts.
--
-- * Chain models vargate_telemetry/chain.py and the constraints of
-- vargate_telemetry/models/records.py. Chain/Table has the rows of `telemetry_records`, newest
-- insert first, and what a session of one tenant sees; Chain/Json is `json.dumps` with sorted
-- keys; Chain/Append has `append_telemetry_record`, cut where its transaction is into `prepare`
-- and `commit`, and `verify_telemetry_chain`; `stored_row` is the row that a refresh reads back,
-- or nothing where a column refuses its value, and Chain/Stored the cases of an INSERT.
-- Chain/Package holds what is outside the repository: the package vargate_audit_chain with its
-- documented contract, SHA-256, and what the types timestamptz and jsonb read back, of which
-- Chain/Toy is an instance.
--
-- * Pricing models vargate_telemetry/pricing: Pricing/Rates the parts that the three vendors
-- share, Pricing/Anthropic, Pricing/OpenAi and Pricing/Vertex their cards and histories,
-- Pricing/VendorCost the estimate of one record. Rates are ten-thousandths of a dollar for a
-- million tokens, costs are micro-dollars; both are exact for the rates on the cards.
--
-- * Budgets models vargate_telemetry/budgets and vargate_telemetry/tasks/evaluate_budgets.py:
-- Budgets/Calendar is the calendar of `datetime.date`, Budgets/Period the windows, Budgets/Spend
-- the spend query with its pricing loop (which uses Pricing/Anthropic), Budgets/Evaluate the
-- alerts, Budgets/Forecasts those of vargate_telemetry/tasks/evaluate_forecasts.py, whose
-- forecast is an argument and whose breach dates are computed exactly. A datetime has its date
-- and time in its own zone, and its offset. Dates are ordinals; instants are microseconds, from
-- the calendar's start for windows and from 1970 for records. The comparison of a ratio with a
-- threshold is multiplied out.
--
-- * Metering models vargate_telemetry/metering.py and `report_usage` of
-- vargate_telemetry/billing/stripe_client.py: Metering/Field the fields of the Redis hash,
-- `fromisoformat` and `isoformat` are a record with their round trip; Metering/Counters has the
-- increments, Metering/Flush the flush. Stripe is a function that takes and leaves a state and
-- says whether it raised; which transactions commit is a parameter.
--
-- * Mcp models mcp_server/auth/token_verifier.py and mcp_server/auth/oauth_state.py: Mcp/States
-- has the one-shot authorization states, Mcp/Tokens has the cache, `verify_token` and
-- `identity_from_access_token`; the SHA-256 of a bearer and the rows of the table are parameters.
--
-- * Mcp/Oauth models the authorization server, mcp_server/auth/oauth_routes.py with the settings
-- of mcp_server/config.py: Mcp/Oauth/Stores the in-memory stores, Mcp/Oauth/Server the state,
-- Mcp/Oauth/Authorize registration, authorization and callback (which use Mcp/States),
-- Mcp/Oauth/Token the token endpoint (which fills the table that Mcp/Tokens reads),
-- Mcp/Oauth/Requests the requests one after the other, Mcp/Oauth/Spent what they do to the
-- stores, and Mcp/Oauth/Bridge the key cache of mcp_server/auth/bridge_verifier.py and the
-- gateway's vargate_telemetry/api/mcp_bridge.py. The random values that a handler draws are
-- arguments; hashes, the decoding and signing of a JWT and the public key are fields of Host and
-- Gateway. Times of the stores are microseconds, those of Redis seconds; a response keeps the
-- error code, not its text.
--
-- * Content models vargate_telemetry/crypto/seal.py and integrity.py in Content/Seal, with the
-- HSM, AES-GCM and HMAC as a record of functions whose contract Content/Toy shows can hold, and
-- Content/View is their abstract view; Content/Deletion models
-- vargate_telemetry/content_deletion.py over the chain of Chain/Append, with the object store as
-- any state.
--
-- * Users models vargate_telemetry/users/aliases.py: Users/Actors the identifier of a record's
-- actor and the SELECT DISTINCT over the tenant's records, Users/Aliases the loop of
-- `reconcile_aliases_for_tenant` with its match by e-mail and its UPSERT; the aliases are those
-- that a session of the tenant sees. Users/Roles models vargate_telemetry/auth/roles.py with
-- `set_user_role` of vargate_telemetry/api/users.py; a handler leaves the table of users beside
-- its answer, and its request is one step: two at the same time are not modelled.
--
-- No definition takes fuel but the retry loop of the bridge's key, which has the source's three
-- attempts; every other loop is over a list, and recursion is on that list.
--
-- Not modelled: the HTTP routes, the vendors' clients and pull tasks, notifications, object
-- storage, migrations and demo data, which are I/O or glue; Redis's expiry of hashes; the
-- metadata of a record is any JSON value, whose numbers are kept as they are printed; counts are
-- natural numbers, so the refusal of a negative count has no case here; nor have the overflow of
-- chain_seq, the InvalidOperation of a Decimal past 28 digits, and the TypeError of
-- `compare_digest` on a challenge that is not ASCII. The wrappers of
-- vargate_telemetry/crypto/hsm.py and dek.py are parameters. The projection of a tenant's spend
-- and the insights are left out. Of the authorization server the metadata documents are constants
-- and are left out; `urlencode` of a redirect's query is left out but for the bridge's nested
-- one.

pub mod Base
pub mod Chain
pub mod Pricing
pub mod Budgets
pub mod Metering
pub mod Mcp
pub mod Users
pub mod Content
