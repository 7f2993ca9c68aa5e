-- ===== src/Mcp/States.antt =====
-- mcp_server/auth/oauth_state.py: the state of an authorization that waits for its callback. The
-- keys are those of the namespace `_KEY_PREFIX`, without the prefix; a payload is kept as the record
-- whose JSON text Redis holds; times are seconds of Redis's clock.
use vargate_telemetry.Base.{
  ℕ, ◌+◌, ◌<◌, ◌≡◌, ◌≢◌, refl, false, Option, none, some, List, [], ◌∷◌, String, str_eq, eq_iff,
  is_empty, ltb, lt→ltb, if◌then◌else◌, Bool-cases, inl, inr, arith, ap, sym, ◌∙◌,
}
use vargate_telemetry.Base.Result.{Result, ok, err, value_error, err-ok, ok-injective}

pub record OauthState : Type 0 where
  pub client_id : String
  pub redirect_uri : String
  pub code_challenge : String
  pub code_challenge_method : String
  pub scope : String
  pub resource : String
  pub claude_state : Option String

pub record Stored : Type 0 where
  pub payload : OauthState
  pub expires_at : ℕ

abbrev pub Redis : Type 0
Redis = List (String × Stored)

abbrev pub state_ttl_seconds : ℕ
state_ttl_seconds = 600

unfoldable pub remove : String → Redis → Redis
remove k [] = []
remove k ((j, v) ∷ rest) =
    let others = remove k rest in if str_eq j k then others else (j, v) ∷ others

unfoldable pub find_live : ℕ → String → Redis → Option OauthState
find_live now k [] = none
find_live now k ((j, v) ∷ rest) =
    let others = find_live now k rest in
    if str_eq j k then (if ltb now v.expires_at then some v.payload else none) else others

-- `store`: `SET … EX`.
unfoldable pub store : ℕ → String → OauthState → Redis → Result Redis
unfolding remove
store now mcp_state payload redis =
    if is_empty mcp_state
    then err value_error
    else ok (
        (mcp_state, record { payload = payload; expires_at = now + state_ttl_seconds })
        ∷ remove mcp_state redis)

-- `claim`: `GETDEL`.
unfoldable pub claim : ℕ → String → Redis → Option OauthState × Redis
unfolding find_live remove
claim now mcp_state redis =
    if is_empty mcp_state
    then (none, redis)
    else (find_live now mcp_state redis, remove mcp_state redis)

find_live-remove : (now : ℕ) (k : String) (redis : Redis) → find_live now k (remove k redis) ≡ none
unfolding find_live remove
find_live-remove now k [] = refl
find_live-remove now k ((j, v) ∷ rest) = elim (Bool-cases (str_eq j k)) [
  | inl same ↦ rw same (find_live-remove now k rest)
  | inr other ↦ rw (other, other) (find_live-remove now k rest)
]

str_eq-ne : (j k : String) → j ≢ k → str_eq j k ≡ false
str_eq-ne j k n = ground (arith, eq_iff j k)

find_live-remove_ne :
    (now : ℕ) (k u : String) (redis : Redis)
    → k ≢ u
    → find_live now u (remove k redis) ≡ find_live now u redis
unfolding find_live remove
find_live-remove_ne now k u [] n = refl
find_live-remove_ne now k u ((j, v) ∷ rest) n = elim (Bool-cases (str_eq j k)) [
  | inl same ↦
      let apart : str_eq j u ≡ false = str_eq-ne j u (λ e. n (sym ((eq_iff j k).0 same) ∙ e)) in
      rw (same, apart) (find_live-remove_ne now k u rest n)
  | inr other ↦ rw (other, find_live-remove_ne now k u rest n) refl
]

-- A stored state is claimed with its payload until its ten minutes are over, and once: after a claim,
-- at whatever time, no claim of it answers with a payload.
pub claim-store :
    (now later again : ℕ) (k : String) (payload : OauthState) (redis redis' : Redis)
    → store now k payload redis ≡ ok redis'
    → later < now + state_ttl_seconds
    → ((claim later k redis').0 ≡ some payload)
      × ((claim again k (claim later k redis').1).0 ≡ none)
unfolding store claim
claim-store now later again k payload redis redis' e lt = elim (Bool-cases (is_empty k)) [
  | inl empty ↦ elim (err-ok value_error redis' (rw empty at e)) [ ]
  | inr given ↦
      let stored = ok-injective _ redis' (rw given at e) in
      (rw (given, sym stored) (first_claim given), rw given (find_live-remove again k redis'))
]
  where
    first_claim :
        is_empty k ≡ false
        → find_live later k (
            (k, record { payload = payload; expires_at = now + state_ttl_seconds })
            ∷ remove k redis)
          ≡ some payload
    first_claim given =
        unfold find_live in rw ((eq_iff k k).1 refl, lt→ltb later (now + state_ttl_seconds) lt) refl

-- Storing and claiming one state leaves what a claim of another would answer.
pub claim-other :
    (now later : ℕ) (k u : String) (payload : OauthState) (redis redis' : Redis)
    → k ≢ u
    → store now k payload redis ≡ ok redis'
    → ((claim later u redis').0 ≡ (claim later u redis).0)
      × ((claim later u (claim later k redis').1).0 ≡ (claim later u redis).0)
unfolding store claim
claim-other now later k u payload redis redis' n e = elim (Bool-cases (is_empty k)) [
  | inl empty ↦ elim (err-ok value_error redis' (rw empty at e)) [ ]
  | inr given ↦
      let kept = stored_kept (ok-injective _ redis' (rw given at e)) in
      elim (Bool-cases (is_empty u)) [
        | inl none_given ↦ rw none_given (refl, refl)
        | inr asked ↦ rw (given, asked) (kept, find_live-remove_ne later k u redis' n ∙ kept)
      ]
]
  where
    stored_kept :
        (k, record { payload = payload; expires_at = now + state_ttl_seconds }) ∷ remove k redis
          ≡ redis'
        → find_live later u redis' ≡ find_live later u redis
    stored_kept stored =
        sym (ap (find_live later u) stored)
        ∙ (unfold find_live in rw (str_eq-ne k u n) refl)
        ∙ find_live-remove_ne later k u redis n
