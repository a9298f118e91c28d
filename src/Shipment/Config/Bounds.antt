-- ===== src/Shipment/Config/Bounds.antt =====
-- The configurations that the contract accepts.
use navin_contracts.Shipment.Config.{ContractConfig, validate_config, outside, none_of}
use navin_contracts.Prelude.{
  ◌≤◌, ◌≡◌, ◌↔◌, ◌||◌, ltb, true, false, arith, ℕ, Bool, List, ◌∷◌, refl, sym, false≢true,
}

-- The documented bounds of each parameter.
pub record IsInBounds (c : ContractConfig) : Type 0 where
  pub ttl_threshold : (1 ≤ c.shipment_ttl_threshold) × (c.shipment_ttl_threshold ≤ 1_000_000)
  pub ttl_extension : (1 ≤ c.shipment_ttl_extension) × (c.shipment_ttl_extension ≤ 10_000_000)
  pub update_interval :
      (10 ≤ c.min_status_update_interval) × (c.min_status_update_interval ≤ 86_400)
  pub batch : (1 ≤ c.batch_operation_limit) × (c.batch_operation_limit ≤ 100)
  pub metadata : (1 ≤ c.max_metadata_entries) × (c.max_metadata_entries ≤ 50)
  pub milestones : (1 ≤ c.max_milestones_per_shipment) × (c.max_milestones_per_shipment ≤ 1000)
  pub notes : (1 ≤ c.max_notes_per_shipment) × (c.max_notes_per_shipment ≤ 1000)
  pub evidence : (1 ≤ c.max_evidence_per_dispute) × (c.max_evidence_per_dispute ≤ 1000)
  pub breaches : (1 ≤ c.max_breaches_per_shipment) × (c.max_breaches_per_shipment ≤ 1000)
  pub shipments : (1 ≤ c.default_shipment_limit) × (c.default_shipment_limit ≤ 10_000)
  pub min_admins : 2 ≤ c.multisig_min_admins
  pub max_admins : (c.multisig_min_admins ≤ c.multisig_max_admins) × (c.multisig_max_admins ≤ 50)
  pub expiry : (3_600 ≤ c.proposal_expiry_seconds) × (c.proposal_expiry_seconds ≤ 2_592_000)
  pub grace : c.deadline_grace_seconds ≤ 604_800

module _ (lo hi n : ℕ) where
  inside : outside lo hi n ≡ false → (lo ≤ n) × (n ≤ hi)
  unfolding outside
  inside h = ground arith

  not_outside : (lo ≤ n) × (n ≤ hi) → outside lo hi n ≡ false
  unfolding outside
  not_outside h = ground arith

not_below : (lo n : ℕ) → lo ≤ n → ltb n lo ≡ false
not_below lo n h = ground arith

both_false : (b c : Bool) → b ≡ false → c ≡ false → (b || c) ≡ false
both_false b c h k = ground arith

none_of-cons :
    (b : Bool) (bs : List Bool) → none_of (b ∷ bs) ≡ true → (b ≡ false) × (none_of bs ≡ true)
unfolding none_of
none_of-cons true bs h = absurd (false≢true h)
none_of-cons false bs h = (refl, h)

cons-none_of : (b : Bool) (bs : List Bool) → b ≡ false → none_of bs ≡ true → none_of (b ∷ bs) ≡ true
unfolding none_of
cons-none_of true bs h k = absurd (false≢true (sym h))
cons-none_of false bs h k = k

accepted_lem : (c : ContractConfig) → validate_config c ≡ true → IsInBounds c
unfolding validate_config
accepted_lem c h0 =
    let (b1, h1) = none_of-cons _ _ h0 in
    let (b2, h2) = none_of-cons _ _ h1 in
    let (b3, h3) = none_of-cons _ _ h2 in
    let (b4, h4) = none_of-cons _ _ h3 in
    let (b5, h5) = none_of-cons _ _ h4 in
    let (b6, h6) = none_of-cons _ _ h5 in
    let (b7, h7) = none_of-cons _ _ h6 in
    let (b8, h8) = none_of-cons _ _ h7 in
    let (b9, h9) = none_of-cons _ _ h8 in
    let (b10, h10) = none_of-cons _ _ h9 in
    let (b11, h11) = none_of-cons _ _ h10 in
    let (b12, h12) = none_of-cons _ _ h11 in
    let (b13, h13) = none_of-cons _ _ h12 in
    let (b14, h14) = none_of-cons _ _ h13 in
    record {
      ttl_threshold = inside _ _ _ b1;
      ttl_extension = inside _ _ _ b2;
      update_interval = inside _ _ _ b3;
      batch = inside _ _ _ b4;
      metadata = inside _ _ _ b5;
      milestones = inside _ _ _ b6;
      notes = inside _ _ _ b7;
      evidence = inside _ _ _ b8;
      breaches = inside _ _ _ b9;
      shipments = inside _ _ _ b10;
      min_admins = ground arith;
      max_admins = ground arith;
      expiry = inside _ _ _ b13;
      grace = ground arith;
    }

in_bounds_lem : (c : ContractConfig) → IsInBounds c → validate_config c ≡ true
unfolding validate_config none_of
in_bounds_lem c h =
    search
      (
        cons-none_of, not_outside, not_below, both_false, h.ttl_threshold, h.ttl_extension,
        h.update_interval, h.batch, h.metadata, h.milestones, h.notes, h.evidence, h.breaches,
        h.shipments, h.min_admins, h.expiry, h.grace, h.max_admins.0, h.max_admins.1,
      )
      depth 60 fits 5000

-- A configuration is accepted exactly when every parameter lies in its documented bounds; the
-- idempotency window and the creation quota have none.
pub validate_config_iff : (c : ContractConfig) → (validate_config c ≡ true) ↔ IsInBounds c
unfolding validate_config
validate_config_iff c = (accepted_lem c, λ h. in_bounds_lem c h)
