-- ===== src/Shipment/Status/Lifecycle.antt =====
-- The transition test against the life cycle drawn as a relation.
use navin_contracts.Shipment.Status.{
  ShipmentStatus, created, in_transit, at_checkpoint, partially_delivered, delivered, disputed,
  cancelled, partially_refunded, is_valid_transition,
}
use navin_contracts.Prelude.{arith, true, ◌⊎◌, ◌≡◌, ℕ, ◌≤◌}

-- A shipment that is on its way: nothing has been settled and no one objects.
pub data IsOpen : ShipmentStatus → Type 0 where
  created_open : IsOpen created
  in_transit_open : IsOpen in_transit
  at_checkpoint_open : IsOpen at_checkpoint
  partially_delivered_open : IsOpen partially_delivered

-- A shipment that moves between checkpoints.
pub data IsMoving : ShipmentStatus → Type 0 where
  in_transit_moving : IsMoving in_transit
  at_checkpoint_moving : IsMoving at_checkpoint

infix 40 ◌⟶◌ ◌⟶*◌
-- The edges of the life cycle.
pub data ◌⟶◌ : ShipmentStatus → ShipmentStatus → Type 0 where
  pick_up : created ⟶ in_transit
  arrive : in_transit ⟶ at_checkpoint
  leave : at_checkpoint ⟶ in_transit
  deliver_some : {s : ShipmentStatus} → IsMoving s → s ⟶ partially_delivered
  deliver_more : partially_delivered ⟶ partially_delivered
  deliver : {s : ShipmentStatus} → IsMoving s → s ⟶ delivered
  deliver_rest : partially_delivered ⟶ delivered
  dispute : {s : ShipmentStatus} → IsOpen s → s ⟶ disputed
  cancel : {s : ShipmentStatus} → IsOpen s → s ⟶ cancelled
  uphold : disputed ⟶ delivered
  withdraw : disputed ⟶ cancelled
  split : disputed ⟶ partially_refunded

-- A path of transitions that the test accepts.
pub data ◌⟶*◌ : ShipmentStatus → ShipmentStatus → Type 0 where
  here : {s : ShipmentStatus} → s ⟶* s
  step : {s t u : ShipmentStatus} → is_valid_transition s t ≡ true → t ⟶* u → s ⟶* u

ruleset open_states = (created_open, in_transit_open, at_checkpoint_open, partially_delivered_open)

ruleset edges = (
  pick_up, arrive, leave, deliver_some, deliver_more, deliver, deliver_rest, dispute, cancel,
  uphold, withdraw, split, in_transit_moving, at_checkpoint_moving, open_states,
)

-- How far along a shipment is; the ends that exclude each other have different ranks.
abbrev rank : ShipmentStatus → ℕ
rank created = 0
rank in_transit = 1
rank at_checkpoint = 1
rank partially_delivered = 2
rank disputed = 3
rank delivered = 4
rank cancelled = 5
rank partially_refunded = 6

rank-step : (s t : ShipmentStatus) → is_valid_transition s t ≡ true → rank s ≤ rank t
unfolding is_valid_transition
rank-step s t h = ground arith

rank-path : {s t : ShipmentStatus} → s ⟶* t → rank s ≤ rank t
rank-path here = omega arith
rank-path (step {s = s} {t = t} e r) = omega (arith, rank-step s t e, rank-path r)

rank-injective : (s t : ShipmentStatus) → rank s ≡ rank t → (s ≡ t) ⊎ (IsMoving s × IsMoving t)
rank-injective s t e = grind (arith, in_transit_moving, at_checkpoint_moving)

-- If accepted transitions lead from one status to another and back, the two are the same or both of
-- them are `in_transit` or `at_checkpoint`.
pub path-returns : {s t : ShipmentStatus} → s ⟶* t → t ⟶* s → (s ≡ t) ⊎ (IsMoving s × IsMoving t)
path-returns {s = s} {t = t} out back =
    rank-injective s t (omega (arith, rank-path out, rank-path back))
