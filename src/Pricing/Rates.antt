-- ===== src/Pricing/Rates.antt =====
-- What pricing/anthropic_rates.py, openai_rates.py and vertex_rates.py have in common: rate cards
-- versioned by date, the model lookup and the cost of one row. A rate is a whole number of
-- hundredths of a cent per million tokens, a cost one of micro-dollars, a time one of microseconds.
use vargate_telemetry.Base.{
  ℕ, ◌+◌, ◌*◌, Bool, true, ◌&&◌, Option, none, some, List, [], ◌∷◌, String, ltb, str_eq,
  starts_with, chars, if◌then◌else◌,
}
use vargate_telemetry.Base.Decimal.{div_half_even}
use mathlib.Core.List.{reverse}

pub record ModelRates : Type 0 where
  pub input_per_mtok : ℕ
  pub output_per_mtok : ℕ
  pub cache_read_per_mtok : ℕ
  pub cache_creation_per_mtok : ℕ

-- The four rates in the order of the fields.
abbrev pub model_rates : ℕ → ℕ → ℕ → ℕ → ModelRates
model_rates i o r c = record {
  input_per_mtok = i;
  output_per_mtok = o;
  cache_read_per_mtok = r;
  cache_creation_per_mtok = c;
}

-- A Python dict keyed by model names, in insertion order.
abbrev pub Card : Type 0 → Type 0
Card V = List (String × V)

pub record RateCardEntry (V : Type 0) : Type 0 where
  pub effective_from : ℕ
  pub effective_to : Option ℕ
  pub rates : Card V

-- `RATE_HISTORY`, which is never empty: the oldest entry, and the newer ones in order.
pub record History (V : Type 0) : Type 0 where
  pub oldest : RateCardEntry V
  pub newer : List (RateCardEntry V)

-- A `datetime`: an aware one by its UTC instant, a naive one by its wall clock.
pub data DateTime : Type 0 where
  aware : ℕ → DateTime
  naive : ℕ → DateTime

-- `occurred_at.replace(tzinfo=timezone.utc)` where it is naive.
abbrev pub utc : DateTime → ℕ
utc (aware n) = n
utc (naive n) = n

abbrev pub not_ended : Option ℕ → ℕ → Bool
not_ended none at = true
not_ended (some end) at = ltb at end

module _ {V : Type 0} where
  -- The walk of `rates_at`, newest entry first, with the card to fall back on.
  unfoldable pub walk : List (RateCardEntry V) → ℕ → Card V → Card V
  walk [] at fallback = fallback
  walk (e ∷ es) at fallback =
      let older = walk es at fallback in
      if ltb at e.effective_from
      then older
      else if not_ended e.effective_to at
      then e.rates
      else older

  unfoldable pub active_rates : History V → DateTime → Card V
  unfolding walk
  active_rates h occurred_at = walk (reverse (h.oldest ∷ h.newer)) (utc occurred_at) h.oldest.rates

  -- `rates.get(model)`.
  unfoldable pub get : String → Card V → Option V
  get model [] = none
  get model ((key, val) ∷ rates) = if str_eq key model then some val else get model rates

  -- The loop of `_lookup_model` over the items, with `best` and `best_len`.
  unfoldable pub longest_prefix : String → Card V → Option V → ℕ → Option V
  longest_prefix model [] best best_len = best
  longest_prefix model ((key, val) ∷ rates) best best_len =
      let better = starts_with model key && ltb best_len (chars key) in
      longest_prefix model rates (if better then some val else best)
        (if better then chars key else best_len)

  abbrev pub or_prefix : Option V → Option V → Option V
  or_prefix (some exact) prefix = some exact
  or_prefix none prefix = prefix

  unfoldable pub find_model : String → Card V → Option V
  unfolding get longest_prefix
  find_model model rates = or_prefix (get model rates) (longest_prefix model rates none 0)

-- The sum of the four products, in hundredths of a cent per million.
unfoldable pub raw_cost : ModelRates → ℕ → ℕ → ℕ → ℕ → ℕ
raw_cost r input_tokens output_tokens cache_read_tokens cache_creation_tokens =
    r.input_per_mtok * input_tokens
    + r.output_per_mtok * output_tokens
    + r.cache_read_per_mtok * cache_read_tokens
    + r.cache_creation_per_mtok * cache_creation_tokens

-- `cost.quantize(Decimal("0.000001"))`.
unfoldable pub row_cost : ModelRates → ℕ → ℕ → ℕ → ℕ → ℕ
unfolding raw_cost
row_cost r i o cr cc = div_half_even (raw_cost r i o cr cc) 10000

-- `None` where the lookup has no rates, else the cost.
abbrev pub priced : Option ModelRates → ℕ → ℕ → ℕ → ℕ → Option ℕ
priced none i o cr cc = none
priced (some r) i o cr cc = some (row_cost r i o cr cc)
