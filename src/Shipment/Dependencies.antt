-- ===== src/Shipment/Dependencies.antt =====
-- Prerequisites of shipments: `would_create_cycle` and `add_shipment_dependency` of
-- contracts/shipment/src/lib.rs.
pub mod Search
pub mod Acyclic
use navin_contracts.Host.{Env, ◌>>=◌, ◌>>◌, gets, modify, fail_if, require_auth, unwrap}
use navin_contracts.Shipment.Errors.{NavinError}
use navin_contracts.Shipment.Store.{Call, get_shipment}
use navin_contracts.Shipment.Guards.{require_initialized, require_not_paused}
use navin_contracts.Shipment.Milestones.{contains}
use navin_contracts.Shipment.Progress.{set_shipment_dependency}
use navin_contracts.Prelude.{
  ℕ, zero, suc, List, [], ◌∷◌, Option, none, some, Bool, true, false, not, ◌==◌, is_some,
}

-- The stack after pushing each of a list, the last one on top.
abbrev pub push_all : List ℕ → List ℕ → List ℕ
push_all [] stack = stack
push_all (p ∷ ps) stack = push_all ps (p ∷ stack)

-- The loop of `would_create_cycle`: whether the search from the stack meets `d`, and nothing if the
-- fuel, the number of turns that the host's budget allows, is used up. The first argument is
-- `storage::get_shipment_dependents`; only membership in `visited` counts, so its order is free.
unfoldable pub cycle_search : (ℕ → List ℕ) → ℕ → ℕ → List ℕ → List ℕ → Option Bool
cycle_search get d zero stack visited = none
cycle_search get d (suc fuel) [] visited = some false
cycle_search get d (suc fuel) (c ∷ stack) visited = elim (c == d) [
  | true ↦ some true
  | false ↦ elim (contains visited c) [
    | true ↦ cycle_search get d fuel stack visited
    | false ↦ cycle_search get d fuel (push_all (get c) stack) (c ∷ visited)
  ]
]

unfoldable pub would_create_cycle : (ℕ → List ℕ) → ℕ → ℕ → ℕ → Option Bool
unfolding cycle_search
would_create_cycle get fuel dependent_id prereq_id =
    cycle_search get dependent_id fuel (prereq_id ∷ []) []

module _ {T : Type 0} where
  -- A search that does not end within the fuel ends the call.
  unfoldable pub add_shipment_dependency : ℕ → Env → ℕ → ℕ → ℕ → Call T (Unit {0})
  unfolding require_initialized require_not_paused would_create_cycle
  add_shipment_dependency fuel env company dependent_id prereq_id = do
    require_initialized
    require_not_paused
    require_auth env company
    fail_if (dependent_id == prereq_id) NavinError.circular_dependency
    dependent ← gets (get_shipment dependent_id)
    fail_if (not (is_some dependent)) NavinError.shipment_not_found
    prereq ← gets (get_shipment prereq_id)
    fail_if (not (is_some prereq)) NavinError.shipment_not_found
    get ← gets (λ s. s.progress.prerequisites)
    found ← unwrap (would_create_cycle get fuel dependent_id prereq_id)
    fail_if found NavinError.circular_dependency
    modify (set_shipment_dependency dependent_id prereq_id)
