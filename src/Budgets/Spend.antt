-- ===== src/Budgets/Spend.antt =====
-- `compute_spend_in_window` of budgets/spend.py: the SQL over the tenant's usage records and the
-- pricing loop. Amounts are micro-dollars until the last step, times are UTC microseconds.
use vargate_telemetry.Base.{
  ℕ, ◌+◌, ◌/◌, Bool, true, false, not, Option, none, some, List, [], ◌∷◌, String, ◌==◌, str_eq,
  is_empty, ◌&&◌, leb, ltb, any, if◌then◌else◌,
}
use vargate_telemetry.Base.Result.{Result, ok, err, value_error}
use vargate_telemetry.Base.Decimal.{div_half_even, micros_per_cent}
use vargate_telemetry.Pricing.Rates.{aware}
use vargate_telemetry.Pricing.Anthropic
use vargate_telemetry.Pricing.VendorCost.{Breakdown, Ephemeral, as_int}

pub data ScopeKind : Type 0 where
  api_key workspace model tenant : ScopeKind

-- A row of `telemetry_records` as far as the query reads it.
pub record UsageRow : Type 0 where
  pub record_type : String
  pub source_api : String
  pub occurred_at : ℕ
  pub results : List Breakdown

abbrev pub micros_per_day : ℕ
micros_per_day = 86400000000

-- `DATE(occurred_at AT TIME ZONE 'UTC')`, as a day number.
unfoldable pub utc_date : ℕ → ℕ
utc_date at = at / micros_per_day

abbrev pub is_some {ℓ} : {A : Type ℓ} → Option A → Bool
is_some none = false
is_some (some a) = true

-- SQL's `a + b`, which is NULL where a side is.
abbrev pub sql_add : Option ℕ → Option ℕ → Option ℕ
sql_add (some a) (some b) = some (a + b)
sql_add _ _ = none

abbrev pub sql_nullif_zero : Option ℕ → Option ℕ
sql_nullif_zero none = none
sql_nullif_zero (some n) = if n == 0 then none else some n

abbrev pub coalesce : Option ℕ → Option ℕ → ℕ
coalesce none b = as_int b
coalesce (some a) b = a

abbrev pub sql_ephemeral : Option Ephemeral → Option ℕ
sql_ephemeral none = none
sql_ephemeral (some e) = sql_add e.ephemeral_5m_input_tokens e.ephemeral_1h_input_tokens

-- The column `cache_creation_tokens` of the query.
unfoldable pub sql_cache_creation : Breakdown → ℕ
sql_cache_creation b =
    coalesce (sql_nullif_zero b.cache_creation_input_tokens) (sql_ephemeral b.cache_creation)

-- The text under a JSON key equals the scope's value.
abbrev pub has_value : Option String → Option String → Bool
has_value (some a) (some b) = str_eq a b
has_value _ _ = false

-- `scope_filter`, by `_SCOPE_KEY_BY_KIND`.
unfoldable pub in_scope : ScopeKind → Option String → Breakdown → Bool
in_scope tenant value b = true
in_scope api_key value b = has_value b.api_key_id value
in_scope workspace value b = has_value b.workspace_id value
in_scope model value b = has_value b.model value

unfoldable pub is_admin_usage : UsageRow → Bool
is_admin_usage r = str_eq r.record_type "usage" && str_eq r.source_api "admin"

-- The subquery: some usage row of that date has a breakdown with a model.
unfoldable pub has_typed_row : List UsageRow → ℕ → Bool
unfolding is_admin_usage utc_date
has_typed_row rows day =
    any
      (λ (r : UsageRow).
        is_admin_usage r
        && (utc_date r.occurred_at == day && any (λ (b : Breakdown). is_some b.model) r.results))
      rows

-- The supersession filter on one breakdown of a row.
unfoldable pub is_superseded : List UsageRow → ℕ → Breakdown → Bool
unfolding has_typed_row utc_date
is_superseded rows at b = not (is_some b.model) && has_typed_row rows (utc_date at)

abbrev pub cost_or_zero : Option ℕ → ℕ
cost_or_zero none = 0
cost_or_zero (some cost) = cost

-- The body of the loop: a row without a model, or with an empty one, is skipped; so is one that
-- has no price.
unfoldable pub breakdown_micros : Option String → Breakdown → ℕ → ℕ
unfolding sql_cache_creation
breakdown_micros none b at = 0
breakdown_micros (some name) b at =
    if is_empty name
    then 0
    else cost_or_zero (
        Anthropic.compute_cost_usd (some name) (as_int b.input_tokens) (as_int b.output_tokens)
          (as_int b.cache_read_input_tokens) (sql_cache_creation b) (aware at))

-- What the breakdowns of one row add to `total`.
unfoldable pub row_micros : (Breakdown → Bool) → List Breakdown → ℕ → ℕ
unfolding breakdown_micros
row_micros keep [] at = 0
row_micros keep (b ∷ bs) at =
    (if keep b then breakdown_micros b.model b at else 0) + row_micros keep bs at

abbrev pub in_window : ℕ → ℕ → ℕ → Bool
in_window start end at = leb start at && ltb at end

-- The query and the loop: `all` is the table that the subquery reads again.
unfoldable pub total_micros : List UsageRow → ScopeKind → Option String → ℕ → ℕ → List UsageRow → ℕ
unfolding row_micros is_admin_usage in_scope is_superseded
total_micros all kind value start end [] = 0
total_micros all kind value start end (r ∷ rows) =
    (if is_admin_usage r && in_window start end r.occurred_at
      then row_micros
          (λ (b : Breakdown). in_scope kind value b && not (is_superseded all r.occurred_at b))
          r.results r.occurred_at
      else 0)
    + total_micros all kind value start end rows

abbrev is_blank : Option String → Bool
is_blank none = true
is_blank (some s) = is_empty s

-- The two checks of the scope.
unfoldable pub scope_is_valid : ScopeKind → Option String → Bool
scope_is_valid tenant value = not (is_some value)
scope_is_valid _ value = not (is_blank value)

-- The total in cents, `total.quantize(Decimal("0.01"))`.
unfoldable pub compute_spend_in_window :
    List UsageRow → ScopeKind → Option String → ℕ → ℕ → Result ℕ
unfolding total_micros scope_is_valid
compute_spend_in_window rows kind value start end =
    if scope_is_valid kind value
    then ok (div_half_even (total_micros rows kind value start end rows) micros_per_cent)
    else err value_error
