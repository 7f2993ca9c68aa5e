-- ===== src/Content/SealExamples.antt =====
-- Calls of vargate_telemetry/crypto/seal.py under the concrete cryptography.
use vargate_telemetry.Base.{◌≡◌, ◌≢◌, ◌∙◌, ℕ, Option, none, some, [], ◌∷◌, List, ap, arith}
use vargate_telemetry.Base.Result.{ok}
use vargate_telemetry.Content.Seal.{
  Bytes, Vault, find_dek, find_secret, provision_tenant_dek, destroy_tenant_dek, unseal_secret,
}
use vargate_telemetry.Content.View.{View, Call, provisions, destroys, seals, unseals, exec, promise}
use vargate_telemetry.Content.Refinement.{Implements}
use vargate_telemetry.Content.Refined.{call-Agrees}
use vargate_telemetry.Content.Toy.{toy, toy-Contract}
use vargate_telemetry.Content.Shredded.{destroy-unreadable}

abbrev empty : Vault
empty = record { deks = []; secrets = [] }

abbrev nothing : View
nothing = record { key = λ t. none; secret = λ t name. none }

empty-Implements : Implements toy empty nothing
unfolding find_dek find_secret
empty-Implements = record { keys = λ t. tt; secrets = λ t name. tt }

abbrev calls : List Call
calls =
    provisions "acme" (1 ∷ [])
    ∷ seals 5 "acme" "admin" (7 ∷ 8 ∷ []) (0 ∷ [])
    ∷ unseals "acme" "admin"
    ∷ unseals "other" "admin"
    ∷ destroys "acme"
    ∷ unseals "acme" "admin"
    ∷ []

abbrev first : Call
first = provisions "acme" (1 ∷ [])

abbrev second : Call
second = seals 5 "acme" "admin" (7 ∷ 8 ∷ []) (0 ∷ [])

holding : Vault
unfolding exec toy
holding = (exec toy second (exec toy first empty).1).1

seen : View
unfolding promise toy
seen = (promise toy.kek_label second (promise toy.kek_label first nothing).1).1

holding-Implements : Implements toy holding seen
unfolding holding seen toy
holding-Implements =
    (call-Agrees toy toy-Contract second (exec toy first empty).1
      (promise toy.kek_label first nothing).1
      (call-Agrees toy toy-Contract first empty nothing empty-Implements).1).1

key_of : Option (Bytes × Bytes) → Bytes
key_of none = []
key_of (some x) = x.0

sealed_by_one : (s : Bytes × Bytes) → seen.secret "acme" "admin" ≡ some s → s.0 ≢ (2 ∷ [])
unfolding seen promise toy key_of
sealed_by_one s e q = ground (arith, ap head_or (keys e ∙ q))
  where
    head_or : Bytes → ℕ
    head_or [] = 0
    head_or (x ∷ xs) = x

    keys : some (1 ∷ [], 7 ∷ 8 ∷ []) ≡ some s → (1 ∷ []) ≡ s.0
    keys h = ap key_of h

destroy-unreadable_example :
    let v' = (destroy_tenant_dek "acme" holding).1 in
    (unseal_secret toy "acme" "admin" v' ≢ ok (7 ∷ 8 ∷ []))
    × (unseal_secret toy "acme" "admin" (provision_tenant_dek toy "acme" (2 ∷ []) v').1
        ≢ ok (7 ∷ 8 ∷ []))
destroy-unreadable_example =
    destroy-unreadable toy holding seen "acme" "admin" (2 ∷ []) (7 ∷ 8 ∷ []) toy-Contract
      holding-Implements sealed_by_one
