-- ===== src/Pricing/Lookup.antt =====
-- `_lookup_model` of the three rate modules returns the rates of the longest key that the model's
-- name starts with.
use vargate_telemetry.Base.{
  ℕ, ◌≤◌, ◌<◌, ◌≡◌, refl, true, false, ◌&&◌, Option, none, some, [], ◌∷◌, String, ltb, str_eq,
  starts_with, chars, arith, eq_iff, All, Bool-cases, Option-cases, and-eq-true, ltb→lt,
  starts_with_self, inl, inr, ◌⊎◌, chars-starts_with,
}
use vargate_telemetry.Pricing.Rates.{Card, get, longest_prefix, find_model}

not_better :
    (model k : String) (n : ℕ)
    → (starts_with model k && ltb n (chars k)) ≡ false
    → starts_with model k ≡ true
    → chars k ≤ n
not_better model k n worse st = ground arith

module _ {V : Type 0} where
  -- The card has this entry; it computes to a sum over the items.
  abbrev pub Has : String → V → Card V → Type 0
  Has key val [] = ⊥
  Has key val ((k, v) ∷ rates) = ((k ≡ key) × (v ≡ val)) ⊎ Has key val rates

  -- No key that the name starts with is longer than `n`.
  abbrev pub Longest : String → ℕ → Card V → Type 0
  Longest model n = All (λ (e : String × V). starts_with model e.0 ≡ true → chars e.0 ≤ n)

  -- What the loop leaves: what it was given, or an entry that is longer and is the longest.
  LoopResult : String → Card V → Option V → ℕ → Type 0
  LoopResult model rates best n =
      ((longest_prefix model rates best n ≡ best) × Longest model n rates)
      ⊎ ((key : String) × (val : V) × (longest_prefix model rates best n ≡ some val)
          × Has key val rates
          × (starts_with model key ≡ true)
          × (n < chars key)
          × Longest model (chars key) rates)

  Longest-le :
      (model : String) (m n : ℕ) (rates : Card V)
      → m ≤ n
      → Longest model m rates
      → Longest model n rates
  Longest-le model m n [] le h = tt
  Longest-le model m n (e ∷ rates) le h =
      (λ p. let q = h.0 p in omega arith, Longest-le model m n rates le h.1)

  after_better :
      (model k : String) (v : V) (rates : Card V) (n : ℕ)
      → starts_with model k ≡ true
      → n < chars k
      → LoopResult model rates (some v) (chars k)
      → (key : String) × (val : V) × (longest_prefix model rates (some v) (chars k) ≡ some val)
        × Has key val ((k, v) ∷ rates)
        × (starts_with model key ≡ true)
        × (n < chars key)
        × Longest model (chars key) ((k, v) ∷ rates)
  unfolding LoopResult
  after_better model k v rates n st lt (inl (e, longest)) =
      (k, v, e, inl (refl, refl), st, lt, (λ _. omega arith, longest))
  after_better model k v rates n st lt (inr (key, val, e, has, st', lt', longest)) =
      (key, val, e, inr has, st', omega arith, (λ _. omega arith, longest))

  after_worse :
      (model k : String) (v : V) (rates : Card V) (best : Option V) (n : ℕ)
      → (starts_with model k ≡ true → chars k ≤ n)
      → LoopResult model rates best n
      → ((longest_prefix model rates best n ≡ best) × Longest model n ((k, v) ∷ rates))
        ⊎ ((key : String) × (val : V) × (longest_prefix model rates best n ≡ some val)
            × Has key val ((k, v) ∷ rates)
            × (starts_with model key ≡ true)
            × (n < chars key)
            × Longest model (chars key) ((k, v) ∷ rates))
  unfolding LoopResult
  after_worse model k v rates best n short (inl (e, longest)) = inl (e, (short, longest))
  after_worse model k v rates best n short (inr (key, val, e, has, st, lt, longest)) =
      inr (key, val, e, inr has, st, lt, (λ p. let q = short p in omega arith, longest))

  longest_prefix-LoopResult :
      (model : String) (rates : Card V) (best : Option V) (n : ℕ) → LoopResult model rates best n
  unfolding LoopResult longest_prefix
  longest_prefix-LoopResult model [] best n = inl (refl, tt)
  longest_prefix-LoopResult model ((k, v) ∷ rates) best n =
      elim (Bool-cases (starts_with model k && ltb n (chars k))) [
        | inl better ↦
            let (st, lt) = and-eq-true (starts_with model k) (ltb n (chars k)) better in
            rw better (
              inr (
                after_better model k v rates n st (ltb→lt n (chars k) lt)
                  (longest_prefix-LoopResult model rates (some v) (chars k))))
        | inr worse ↦ rw worse (
            after_worse model k v rates best n (λ p. not_better model k n worse p)
              (longest_prefix-LoopResult model rates best n))
      ]

  get-Has : (model : String) (rates : Card V) (v : V) → get model rates ≡ some v → Has model v rates
  unfolding get
  get-Has model [] v e = cc
  get-Has model ((key, val) ∷ rates) v e = elim (Bool-cases (str_eq key model)) [
    | inl same ↦ let found : some val ≡ some v = rw same at e in inl ((eq_iff key model).0 same, cc)
    | inr other ↦ inr (get-Has model rates v (rw other at e))
  ]

  Longest-self : (model : String) (rates : Card V) → Longest model (chars model) rates
  Longest-self model [] = tt
  Longest-self model (e ∷ rates) = (chars-starts_with model e.0, Longest-self model rates)

  -- The lookup finds the rates of a key that the name starts with, and no key that it starts with
  -- is longer; or it finds nothing, and the name starts with no key but the empty one.
  pub find_model-cases :
      (model : String) (rates : Card V)
      → ((key : String) × (val : V) × (find_model model rates ≡ some val)
          × Has key val rates
          × (starts_with model key ≡ true)
          × Longest model (chars key) rates)
        ⊎ ((find_model model rates ≡ none) × Longest model 0 rates)
  unfolding find_model LoopResult
  find_model-cases model rates = elim (Option-cases (get model rates)) [
    | inr (v, exact) ↦ inl (
      model,
      v,
      rw exact,
      get-Has model rates v exact,
      starts_with_self model,
      Longest-self model rates,
    )
    | inl missing ↦ elim (longest_prefix-LoopResult model rates none 0) [
      | inl (e, longest) ↦ inr (rw (missing, e), longest)
      | inr (key, val, e, has, st, _, longest) ↦ inl (key, val, rw (missing, e), has, st, longest)
    ]
  ]
