-- ===== src/Budgets/EstimateLaws.antt =====
-- The two ways to price an Anthropic usage record: the query loop of budgets/spend.py and the
-- estimate of pricing/vendor_cost.py.
use vargate_telemetry.Base.{
  ℕ, ◌+◌, ◌≡◌, ◌≢◌, ◌⊎◌, refl, true, Option, none, some, List, [], ◌∷◌, map, String, not-empty, All,
  arith, ap, ◌∙◌,
}
use vargate_telemetry.Pricing.Rates.{aware}
use vargate_telemetry.Pricing.Anthropic
use vargate_telemetry.Pricing.VendorCost.{
  Breakdown, Metadata, as_int, cache_creation_tokens, breakdown_cost, add_cost, sum_breakdowns,
  estimate_anthropic_usage, estimate_record_cost_usd,
}
use vargate_telemetry.Budgets.Spend.{tenant, in_scope, cost_or_zero, breakdown_micros, row_micros}
use vargate_telemetry.Budgets.SpendLaws.{HasBoth, cache_creation-agree}

-- The name of the model is not the empty text, and the counts of cache writes are of the shapes that
-- both read alike.
pub record IsRegular (b : Breakdown) : Type 0 where
  pub named : b.model ≢ some ""
  pub counted : (as_int b.cache_creation_input_tokens ≢ 0) ⊎ HasBoth b.cache_creation

breakdown-agree :
    (b : Breakdown) (at : ℕ)
    → IsRegular b
    → breakdown_micros b.model b at ≡ cost_or_zero (breakdown_cost b (aware at))
unfolding breakdown_micros breakdown_cost
breakdown-agree b at r = by_model b.model refl
  where
    cost : Option String → Option ℕ
    cost o =
        Anthropic.compute_cost_usd o (as_int b.input_tokens) (as_int b.output_tokens)
          (as_int b.cache_read_input_tokens) (cache_creation_tokens b) (aware at)

    by_model : (o : Option String) → b.model ≡ o → breakdown_micros o b at ≡ cost_or_zero (cost o)
    by_model none p = unfold Anthropic.compute_cost_usd in refl
    by_model (some name) p =
        let given : name ≢ "" = λ q. r.named (p ∙ ap some q) in
        rw (not-empty name given, cache_creation-agree b r.counted) refl

cost_or_zero-add_cost :
    (t c : Option ℕ) → cost_or_zero (add_cost t c) ≡ cost_or_zero t + cost_or_zero c
cost_or_zero-add_cost none none = omega arith
cost_or_zero-add_cost none (some c) = omega arith
cost_or_zero-add_cost (some t) none = omega arith
cost_or_zero-add_cost (some t) (some c) = refl

sum_breakdowns-agree :
    (bs : List Breakdown) (at : ℕ) (total : Option ℕ)
    → All IsRegular bs
    → cost_or_zero (sum_breakdowns (map some bs) (aware at) total)
      ≡ cost_or_zero total + row_micros (λ b. true) bs at
unfolding sum_breakdowns row_micros
sum_breakdowns-agree [] at total r = omega arith
sum_breakdowns-agree (b ∷ bs) at total r =
    let rest = sum_breakdowns-agree bs at (add_cost total (breakdown_cost b (aware at))) r.1 in
    let here = cost_or_zero-add_cost total (breakdown_cost b (aware at)) in
    let same = breakdown-agree b at r.0 in omega arith

-- The estimate of an admin usage record, where it has one and zero where not, is what the spend query
-- adds for the record's breakdowns in the tenant's scope, if all of them are regular.
pub estimate-row_micros :
    (m : Metadata) (bs : List Breakdown) (at : ℕ)
    → m.results ≡ some (map some bs)
    → All IsRegular bs
    → cost_or_zero (estimate_record_cost_usd "admin" m (aware at))
      ≡ row_micros (in_scope tenant none) bs at
unfolding estimate_record_cost_usd estimate_anthropic_usage in_scope
estimate-row_micros m bs at e r =
    rw e (let s = sum_breakdowns-agree bs at none r in omega (arith, s))
