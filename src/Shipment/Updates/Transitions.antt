-- ===== src/Shipment/Updates/Transitions.antt =====
-- When `update_status` succeeds, and what it then leaves.
use navin_contracts.Host.Keeps.{
  Keeps-bind, Keeps-if, Keeps-require_auth, Keeps-trap_unless, Keeps-unwrap, Sets-modify,
  Keeps-ok_or, Sets-here, Keeps-fail_if, Keeps-modify, Sets-later, Keeps-gets, Sets, Keeps-pure,
  Keeps, Ends, Ends-map, IsOk-committed,
}
use navin_contracts.Shipment.Store.{set_shipment, Store, get_shipment}
use navin_contracts.Host.{modify, ok, err, trap, Outcome, ◌>>=◌, Env, IsOk, invoke}
use navin_contracts.Shipment.Updates.{
  update_status, too_soon, apply_update, check_update, first_unmet,
}
use navin_contracts.Shipment.Guards.{
  finalize_if_settled, persist_shipment, validate_shipment_invariants,
}
use navin_contracts.Shipment.Data.{Shipment, HostApi}
use navin_contracts.Shipment.Status.{ShipmentStatus, is_valid_transition}
use navin_contracts.Shipment.Escrow.{touched}
use navin_contracts.Shipment.Progress.{get_contract_config}
use navin_contracts.Shipment.Errors.{NavinError}
use navin_contracts.Prelude.{
  none, false, ◌≡◌, some, true, arith, ℕ, lookup-insert_self, List, [], ◌∷◌, ◌⊎◌, Option, lookup,
  refl,
}

abbrev pub status_of : Option Shipment → Option ShipmentStatus
status_of none = none
status_of (some x) = some x.status

-- Every shipment of the list is found, and is delivered.
abbrev pub AllDelivered : (ℕ → Option Shipment) → List ℕ → Type 0
AllDelivered get [] = Unit
AllDelivered get (p ∷ ps) =
    (status_of (get p) ≡ some ShipmentStatus.delivered) × AllDelivered get ps

-- The shipment that an update leaves.
abbrev pub updated_of : Env → ShipmentStatus → ℕ → Shipment → Shipment
updated_of env st hash x =
    finalize_if_settled (touched env (record x { status = st; data_hash = hash }))

-- How the check of an update ends: with the stored shipment, if the transition is a valid one, the
-- prerequisites are met, and the caller is the admin or has waited. It only notes the call.
abbrev pub Checked :
    {T : Type 0}
    → Env
    → ℕ
    → ℕ
    → ShipmentStatus
    → Store T
    → Outcome (Store T) NavinError Shipment
    → Type 0
Checked env caller id st s (ok x s') =
    (get_shipment id s ≡ some x)
    × (is_valid_transition x.status st ≡ true)
    × (st ≡ ShipmentStatus.in_transit
        → AllDelivered (λ p. get_shipment p s) (s.progress.prerequisites id))
    × ((s.admin ≡ some caller)
        ⊎ (too_soon env.timestamp (s.progress.last_status_update id)
              (get_contract_config s).min_status_update_interval
            ≡ false))
    × (s' ≡ record s { idempotency_window = s'.idempotency_window })
Checked env caller id st s (err e s') = Unit
Checked env caller id st s trap = Unit

first_unmet-AllDelivered :
    (get : ℕ → Option Shipment) (ps : List ℕ) → first_unmet get ps ≡ none → AllDelivered get ps
unfolding first_unmet
first_unmet-AllDelivered get [] e = tt
first_unmet-AllDelivered get (p ∷ ps) e = ground (arith, first_unmet-AllDelivered get ps)

module _ {T : Type 0} where
  pub check_update_lem :
      (host : HostApi) (env : Env) (caller id : ℕ) (st : ShipmentStatus) (hash : ℕ) (s : Store T)
      → Checked env caller id st s (check_update host env caller id st hash s)
  unfolding ◌>>=◌ check_update
  check_update_lem host env caller id st hash s =
      ground (arith, first_unmet-AllDelivered (λ p. get_shipment p s) (s.progress.prerequisites id))

-- The shipment is stored under this ID.
record Stored {T : Type 0} (id : ℕ) (y : Shipment) (s : Store T) : Type 0 where
  at_id : lookup id s.shipments ≡ some y

module _ {T : Type 0} (id : ℕ) (y : Shipment) where
  Keeps-Stored :
      (f : Store T → Store T)
      → ((s : Store T) → (f s).shipments ≡ s.shipments)
      → Keeps (Stored id y) (modify {E = NavinError} f)
  Keeps-Stored f e = Keeps-modify f (λ s h. record { at_id = rw (e s) h.at_id })

  ruleset stored_rules = (
    Keeps-pure, Keeps-gets, Keeps-Stored, Keeps-fail_if, Keeps-ok_or, Keeps-unwrap,
    Keeps-trap_unless, Keeps-require_auth, Keeps-if, Keeps-bind, refl,
  )

  set_shipment-Sets :
      y.id ≡ id → Sets (Stored {T = T} id y) (modify {E = NavinError} (set_shipment y))
  set_shipment-Sets e =
      Sets-modify _ (λ s. record { at_id = cc (lookup-insert_self y.id y s.shipments, e) })

  persist_shipment-Sets : y.id ≡ id → Sets (Stored {T = T} id y) (persist_shipment y)
  unfolding persist_shipment validate_shipment_invariants
  persist_shipment-Sets e =
      Sets-later _ _ (λ u. Sets-here _ _ (set_shipment-Sets e) (λ u. search stored_rules))

updated_of-id :
    (env : Env) (st : ShipmentStatus) (hash : ℕ) (x : Shipment)
    → (updated_of env st hash x).id ≡ x.id
unfolding finalize_if_settled
updated_of-id env st hash x = ground arith

module _ {T : Type 0} where
  apply_update-Sets :
      (env : Env) (st : ShipmentStatus) (hash : ℕ) (x : Shipment)
      → Sets (Stored {T = T} x.id (updated_of env st hash x)) (apply_update env x.id st hash x)
  unfolding apply_update
  apply_update-Sets env st hash x = Sets-later _ _ (λ u. Sets-later _ _ (λ u.
      Sets-here _ _
        (persist_shipment-Sets x.id (updated_of env st hash x) (updated_of-id env st hash x))
        (λ u. search stored_rules depth 80 fits 5000)))

  apply_update_lem :
      (env : Env) (st : ShipmentStatus) (hash : ℕ) (x : Shipment) (s : Store T)
      → Ends
          (λ s'. get_shipment x.id s' ≡ some (updated_of env st hash x))
          (apply_update env x.id st hash x s)
  apply_update_lem env st hash x s =
      Ends-map (apply_update env x.id st hash x s) (λ s' h. rw (h.at_id, get_shipment) refl)
        ((apply_update-Sets env st hash x).now s)

-- The transition of an update that has been made: valid, its prerequisites met, and in time.
abbrev pub Transits :
    {T : Type 0} → Env → ℕ → ShipmentStatus → ℕ → Shipment → Store T → Store T → Type 0
Transits env caller st hash x s s' =
    (is_valid_transition x.status st ≡ true)
    × (st ≡ ShipmentStatus.in_transit
        → AllDelivered (λ p. get_shipment p s) (s.progress.prerequisites x.id))
    × ((s.admin ≡ some caller)
        ⊎ (too_soon env.timestamp (s.progress.last_status_update x.id)
              (get_contract_config s).min_status_update_interval
            ≡ false))
    × (get_shipment x.id s' ≡ some (updated_of env st hash x))

Checked-Transits :
    {T : Type 0} (env : Env) (caller : ℕ) (st : ShipmentStatus) (hash : ℕ) (x : Shipment)
    (s : Store T) (o : Outcome (Store T) NavinError Shipment)
    → get_shipment x.id s ≡ some x
    → Checked env caller x.id st s o
    → Ends
        (Transits env caller st hash x s)
        (elim o as (λ r. Outcome (Store T) NavinError (Unit {0})) [
          | ok y s1 ↦ apply_update env x.id st hash y s1
          | err e s1 ↦ err e s1
          | trap ↦ trap
        ])
Checked-Transits env caller st hash x s (ok y s1) found c =
    let (here, valid, ready, waited, rest) = c in
    let same : y ≡ x = ground arith in
    Ends-map (apply_update env x.id st hash y s1)
      (λ s' left. (rw (← same, valid), ready, waited, left))
      (rw same (apply_update_lem env st hash x s1))
Checked-Transits env caller st hash x s (err e s1) found c = tt
Checked-Transits env caller st hash x s trap found c = tt

-- Let a shipment be stored under its own ID. A status update that succeeds is a valid transition of
-- the life cycle; to `in_transit` only if every prerequisite of the shipment is delivered; by anyone
-- but the admin only after the configured interval since the last update. It stores the shipment
-- with the new status and data hash, and finalizes it if that settles it.
pub update_status-Transits :
    {T : Type 0} (host : HostApi) (env : Env) (caller : ℕ) (st : ShipmentStatus) (hash : ℕ)
    (x : Shipment) (s : Store T)
    → get_shipment x.id s ≡ some x
    → IsOk (update_status host env caller x.id st hash s)
    → Transits env caller st hash x s (invoke (update_status host env caller x.id st hash) s)
unfolding ◌>>=◌ update_status invoke
update_status-Transits host env caller st hash x s found done =
    IsOk-committed (Transits env caller st hash x s) s _ done (
      Checked-Transits env caller st hash x s _ found
        (check_update_lem host env caller x.id st hash s))
