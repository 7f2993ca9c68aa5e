-- ===== src/Pricing/VendorCost.antt =====
-- The cross-vendor estimate of one captured record, pricing/vendor_cost.py. The metadata of a record
-- is given by the fields that the estimate reads; a key that is absent, `None` or of the wrong type
-- is `none`.
use vargate_telemetry.Base.{
  ℕ, ◌+◌, not, Option, none, some, List, [], ◌∷◌, String, ◌==◌, str_eq, starts_with, is_empty,
  lower_eq, ◌&&◌, if◌then◌else◌,
}
use vargate_telemetry.Pricing.Rates.{DateTime, utc, aware}
use vargate_telemetry.Pricing.Anthropic
use vargate_telemetry.Pricing.OpenAi
use vargate_telemetry.Pricing.Vertex

-- The nested `cache_creation` dict of a breakdown.
pub record Ephemeral : Type 0 where
  pub ephemeral_5m_input_tokens : Option ℕ
  pub ephemeral_1h_input_tokens : Option ℕ

-- One `results[i]` of an Anthropic usage record, with the keys that a budget's scope names.
pub record Breakdown : Type 0 where
  pub model : Option String
  pub workspace_id : Option String
  pub api_key_id : Option String
  pub input_tokens : Option ℕ
  pub output_tokens : Option ℕ
  pub cache_read_input_tokens : Option ℕ
  pub cache_creation_input_tokens : Option ℕ
  pub cache_creation : Option Ephemeral

-- The `result` of an OpenAI usage record.
pub record UsageResult : Type 0 where
  pub model : Option String
  pub input_uncached_tokens : Option ℕ
  pub input_cached_tokens : Option ℕ
  pub output_tokens : Option ℕ

-- `results` holds `none` for an entry that is no dict.
pub record Metadata : Type 0 where
  pub results : Option (List (Option Breakdown))
  pub result : Option UsageResult
  pub model : Option String
  pub token_type : Option String
  pub token_count : Option ℕ

pub data Vendor : Type 0 where
  anthropic open_ai google : Vendor

unfoldable pub vendor_of : String → Vendor
vendor_of source_api =
    if not (is_empty source_api) && starts_with source_api "vertex_"
    then google
    else if not (is_empty source_api) && starts_with source_api "openai_"
    then open_ai
    else anthropic

-- `_as_int`.
abbrev pub as_int : Option ℕ → ℕ
as_int none = 0
as_int (some n) = n

abbrev ephemeral_sum : Option Ephemeral → ℕ
ephemeral_sum none = 0
ephemeral_sum (some e) = as_int e.ephemeral_5m_input_tokens + as_int e.ephemeral_1h_input_tokens

-- `_anthropic_cache_creation_tokens`.
unfoldable pub cache_creation_tokens : Breakdown → ℕ
cache_creation_tokens b =
    let flat = as_int b.cache_creation_input_tokens in
    if flat == 0 then ephemeral_sum b.cache_creation else flat

-- `_anthropic_breakdown_cost`.
unfoldable pub breakdown_cost : Breakdown → DateTime → Option ℕ
unfolding cache_creation_tokens
breakdown_cost b occurred_at =
    Anthropic.compute_cost_usd b.model (as_int b.input_tokens) (as_int b.output_tokens)
      (as_int b.cache_read_input_tokens) (cache_creation_tokens b) occurred_at

-- `total = cost if total is None else total + cost`, where the cost is not `None`.
abbrev pub add_cost : Option ℕ → Option ℕ → Option ℕ
add_cost total none = total
add_cost none (some cost) = some cost
add_cost (some total) (some cost) = some (total + cost)

abbrev pub breakdown_or_none : Option Breakdown → DateTime → Option ℕ
breakdown_or_none none at = none
breakdown_or_none (some b) at = breakdown_cost b at

-- The loop over `results`, with `total`.
unfoldable pub sum_breakdowns : List (Option Breakdown) → DateTime → Option ℕ → Option ℕ
unfolding breakdown_cost
sum_breakdowns [] at total = total
sum_breakdowns (b ∷ bs) at total = sum_breakdowns bs at (add_cost total (breakdown_or_none b at))

-- `_estimate_anthropic_usage`.
unfoldable pub estimate_anthropic_usage : Option (List (Option Breakdown)) → DateTime → Option ℕ
unfolding sum_breakdowns
estimate_anthropic_usage none at = none
estimate_anthropic_usage (some results) at = sum_breakdowns results at none

-- `_estimate_openai_usage`.
unfoldable pub estimate_openai_usage : Option UsageResult → DateTime → Option ℕ
estimate_openai_usage none at = none
estimate_openai_usage (some r) at =
    OpenAi.compute_cost_usd r.model (as_int r.input_uncached_tokens) (as_int r.output_tokens)
      (as_int r.input_cached_tokens) 0 at

-- `_estimate_vertex_usage`; the token type is compared in lower case.
unfoldable pub estimate_vertex_usage :
    Option String → Option String → Option ℕ → DateTime → Option ℕ
unfolding lower_eq
estimate_vertex_usage model none count at = none
estimate_vertex_usage model (some token_type) count at =
    if lower_eq token_type "input"
    then Vertex.compute_cost_usd model (as_int count) 0 0 0 at
    else if lower_eq token_type "output"
    then Vertex.compute_cost_usd model 0 (as_int count) 0 0 at
    else none

unfoldable pub estimate_record_cost_usd : String → Metadata → DateTime → Option ℕ
unfolding estimate_anthropic_usage estimate_openai_usage estimate_vertex_usage
estimate_record_cost_usd source_api m occurred_at =
    let at = aware (utc occurred_at) in
    if str_eq source_api "admin"
    then estimate_anthropic_usage m.results at
    else if str_eq source_api "openai_admin_usage"
    then estimate_openai_usage m.result at
    else if str_eq source_api "vertex_token_usage"
    then estimate_vertex_usage m.model m.token_type m.token_count at
    else none
