-- ===== src/Budgets/SpendLaws.antt =====
-- The spend of budgets/spend.py: windows add up, scopes are parts of the whole, the supersession
-- filter does not change the amount, and where the two extractions of cache-creation tokens differ.
use vargate_telemetry.Base.{
  ℕ, ◌+◌, ◌≤◌, ◌≡◌, ◌≢◌, refl, Bool, true, false, not, Option, none, some, List, [], ◌∷◌, String,
  ◌&&◌, if◌then◌else◌, arith, Bool-cases, inl, inr, ◌⊎◌, eq_iff,
}
use vargate_telemetry.Pricing.VendorCost.{Breakdown, Ephemeral, as_int, cache_creation_tokens}
use vargate_telemetry.Budgets.Spend.{
  ScopeKind, api_key, workspace, tenant, UsageRow, in_scope, is_superseded, is_admin_usage,
  row_micros, total_micros, in_window, has_value, is_some, sql_cache_creation,
}

window_split :
    (g : Bool) (a b c at m : ℕ)
    → a ≤ b
    → b ≤ c
    → (if g && in_window a c at then m else 0)
      ≡ (if g && in_window a b at then m else 0) + (if g && in_window b c at then m else 0)
window_split g a b c at m ab bc = ground arith

-- A window that is cut in two has the unrounded total of its parts together; the cents that
-- `compute_spend_in_window` rounds each total to need not add up.
pub total_micros-split :
    (all rows : List UsageRow) (kind : ScopeKind) (value : Option String) (a b c : ℕ)
    → a ≤ b
    → b ≤ c
    → total_micros all kind value a c rows
      ≡ total_micros all kind value a b rows + total_micros all kind value b c rows
unfolding total_micros
total_micros-split all [] kind value a b c ab bc = refl
total_micros-split all (r ∷ rows) kind value a b c ab bc =
    let keep =
      λ (e : Breakdown). in_scope kind value e && not (is_superseded all r.occurred_at e) in
    let cost = row_micros keep r.results r.occurred_at in
    let rest = total_micros-split all rows kind value a b c ab bc in
    let here = window_split (is_admin_usage r) a b c r.occurred_at cost ab bc in omega arith

-- A breakdown without a model costs nothing, so hiding the superseded ones changes no amount.
row_micros-superseded :
    (all : List UsageRow) (kind : ScopeKind) (value : Option String) (bs : List Breakdown) (at : ℕ)
    → row_micros (λ (b : Breakdown). in_scope kind value b && not (is_superseded all at b)) bs at
      ≡ row_micros (in_scope kind value) bs at
unfolding row_micros is_superseded
row_micros-superseded all kind value [] at = refl
row_micros-superseded all kind value (b ∷ bs) at =
    ground (arith, row_micros-superseded all kind value bs at)

-- The reference: the cost of every breakdown in the scope, of every usage record in the window.
pub plain_micros : ScopeKind → Option String → ℕ → ℕ → List UsageRow → ℕ
plain_micros kind value start end [] = 0
plain_micros kind value start end (r ∷ rows) =
    (if is_admin_usage r && in_window start end r.occurred_at
      then row_micros (in_scope kind value) r.results r.occurred_at
      else 0)
    + plain_micros kind value start end rows

pub total_micros-plain :
    (all rows : List UsageRow) (kind : ScopeKind) (value : Option String) (a b : ℕ)
    → total_micros all kind value a b rows ≡ plain_micros kind value a b rows
unfolding total_micros plain_micros
total_micros-plain all [] kind value a b = refl
total_micros-plain all (r ∷ rows) kind value a b = rw (
  row_micros-superseded all kind value r.results r.occurred_at,
  total_micros-plain all rows kind value a b,
)

-- The breakdowns of two scopes that share none cost no more than all together.
row_micros-disjoint :
    (p q : Breakdown → Bool) (bs : List Breakdown) (at : ℕ)
    → ((b : Breakdown) → p b ≡ true → q b ≡ false)
    → row_micros p bs at + row_micros q bs at ≤ row_micros (in_scope tenant none) bs at
unfolding row_micros in_scope
row_micros-disjoint p q [] at h = omega arith
row_micros-disjoint p q (b ∷ bs) at h = ground (arith, row_micros-disjoint p q bs at h, h b)

has_value-disjoint :
    (o : Option String) (v w : String)
    → v ≢ w
    → has_value o (some v) ≡ true
    → has_value o (some w) ≡ false
has_value-disjoint none v w h e = refl
has_value-disjoint (some a) v w h e = ground (arith, eq_iff a v, eq_iff a w)

-- Two values of one kind of scope have no breakdown in common.
in_scope-disjoint :
    (kind : ScopeKind) (v w : String) (b : Breakdown)
    → kind ≢ tenant
    → v ≢ w
    → in_scope kind (some v) b ≡ true
    → in_scope kind (some w) b ≡ false
unfolding in_scope
in_scope-disjoint tenant v w b k h e = absurd (k refl)
in_scope-disjoint api_key v w b k h e = has_value-disjoint b.api_key_id v w h e
in_scope-disjoint workspace v w b k h e = has_value-disjoint b.workspace_id v w h e
in_scope-disjoint ScopeKind.model v w b k h e = has_value-disjoint b.model v w h e

plain_micros-disjoint :
    (kind : ScopeKind) (v w : String) (a b : ℕ) (rows : List UsageRow)
    → kind ≢ tenant
    → v ≢ w
    → plain_micros kind (some v) a b rows + plain_micros kind (some w) a b rows
      ≤ plain_micros tenant none a b rows
unfolding plain_micros
plain_micros-disjoint kind v w a b [] k h = omega arith
plain_micros-disjoint kind v w a b (r ∷ rows) k h =
    let apart =
      row_micros-disjoint (in_scope kind (some v)) (in_scope kind (some w)) r.results r.occurred_at
        (λ e. in_scope-disjoint kind v w e k h) in
    let rest = plain_micros-disjoint kind v w a b rows k h in
    elim (Bool-cases (is_admin_usage r && in_window a b r.occurred_at)) [
      | inl counted ↦ rw counted (omega arith)
      | inr other ↦ rw other (omega arith)
    ]

-- Two workspaces, models or keys never spend more together than the tenant in the same window.
pub total_micros-disjoint :
    (all : List UsageRow) (kind : ScopeKind) (v w : String) (a b : ℕ) (rows : List UsageRow)
    → kind ≢ tenant
    → v ≢ w
    → total_micros all kind (some v) a b rows + total_micros all kind (some w) a b rows
      ≤ total_micros all tenant none a b rows
total_micros-disjoint all kind v w a b rows k h =
    rw
      (
        total_micros-plain all rows kind (some v) a b,
        total_micros-plain all rows kind (some w) a b,
        total_micros-plain all rows tenant none a b,
      )
      (plain_micros-disjoint kind v w a b rows k h)

-- Both nested counts are there, or none is.
abbrev pub HasBoth : Option Ephemeral → Type 0
HasBoth none = Unit
HasBoth (some e) = is_some e.ephemeral_5m_input_tokens ≡ is_some e.ephemeral_1h_input_tokens

-- The two extractions agree where the nested counts are both there or both absent, and where the
-- flat count is not zero.
pub cache_creation-agree :
    (b : Breakdown)
    → (as_int b.cache_creation_input_tokens ≢ 0) ⊎ HasBoth b.cache_creation
    → sql_cache_creation b ≡ cache_creation_tokens b
unfolding sql_cache_creation cache_creation_tokens
cache_creation-agree b h = ground arith
