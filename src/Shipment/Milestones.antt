-- ===== src/Shipment/Milestones.antt =====
-- Payment by milestone: `release_milestone_payment` of contracts/shipment/src/lib.rs.
use navin_contracts.Host.{trap_unless, Env, ◌>>=◌, ◌>>◌, modify, fail_if, ok_or, require_auth, pure}
use navin_contracts.Shipment.Errors.{NavinError}
use navin_contracts.Shipment.Data.{Shipment, Event}
use navin_contracts.Shipment.Store.{Call, TokenApi, set_shipment, publish_counted}
use navin_contracts.Shipment.Guards.{
  get_admin, require_initialized, require_not_paused, require_active_carrier, require_not_finalized,
  checked_mul_div_i128, finalize_if_settled,
}
use navin_contracts.Shipment.Settlement.{internal_release_escrow}
use navin_contracts.Shipment.Escrow.{load}
use navin_contracts.Prelude.{
  ltb_ℤ, if◌then◌else◌, ◌==◌, ltb, ℤ, List, not, ℕ, [], true, length, ◌++◌, ◌∷◌, some, Option,
  false, suc, ◌||◌, ◌+◌, Bool, pos, none, ◌^◌,
}

abbrev pub contains : List ℕ → ℕ → Bool
contains [] a = false
contains (x ∷ xs) a = if x == a then true else contains xs a

-- The index and the percentage of the first milestone of that name.
unfoldable pub find_milestone : ℕ → List (ℕ × ℕ) → Option (ℕ × ℕ)
find_milestone name [] = none
find_milestone name ((n, pct) ∷ rest) =
    let later = find_milestone name rest in
    if n == name then some (0, pct) else elim later [ none ↦ none | some (i, p) ↦ some (suc i, p) ]

-- The percentages of the milestones that are completed, and of the one that is being paid.
unfoldable pub total_pct_paid : ℕ → List ℕ → List (ℕ × ℕ) → ℕ
total_pct_paid name completed [] = 0
total_pct_paid name completed ((n, pct) ∷ rest) =
    let more = total_pct_paid name completed rest in
    if contains completed n || n == name then pct + more else more

-- `total_escrow * pct / 100`, and all that is left for the milestone that completes 100 percent.
unfoldable pub release_amount : {T : Type 0} → ℕ → ℕ → Shipment → Call T ℤ
release_amount name pct x = do
  trap_unless (ltb (total_pct_paid name x.milestones_completed x.payment_milestones) (2 ^ 32))
  if total_pct_paid name x.milestones_completed x.payment_milestones == 100
      then pure x.escrow_amount
      else checked_mul_div_i128 x.total_escrow (pos pct) (pos 100)

abbrev pub pushed : List ℕ → ℕ → List ℕ
pushed xs a = xs ++ (a ∷ [])

module _ {T : Type 0} (api : TokenApi T) (self : ℕ) where
  unfoldable pub release_milestone_payment : Env → ℕ → ℕ → ℕ → Call T (Unit {0})
  unfolding require_initialized require_not_paused require_active_carrier
  release_milestone_payment env caller shipment_id name = do
    require_initialized
    require_not_paused
    require_auth env caller
    x ← load shipment_id
    require_not_finalized x
    admin ← get_admin
    fail_if (not (caller == x.carrier || caller == admin)) NavinError.unauthorized
    if caller == x.carrier then require_active_carrier caller else pure tt
    found ← ok_or (find_milestone name x.payment_milestones) NavinError.invalid_shipment_input
    fail_if (contains x.milestones_completed name) NavinError.milestone_already_paid
    fail_if (ltb (length x.milestones_completed) found.0) NavinError.invalid_status
    amount ← release_amount name found.1 x
    x' ←
        (if ltb_ℤ (pos 0) amount
          then (do
            modify (
                publish_counted shipment_id
                  (Event.milestone_payment_released shipment_id name amount x.carrier))
            internal_release_escrow api self env
                (record x {
                  milestones_completed = pushed x.milestones_completed name;
                  paid_milestones =
                      if contains x.paid_milestones name
                      then x.paid_milestones
                      else pushed x.paid_milestones name;
                })
                amount)
          else pure x)
    modify (set_shipment (finalize_if_settled x'))
