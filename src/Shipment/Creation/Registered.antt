-- ===== src/Shipment/Creation/Registered.antt =====
-- What the creation of shipments guarantees: fresh consecutive IDs, milestones that add up, and the
-- quota.
use navin_contracts.Shipment.Creation.{
  register_all, validate_milestones, Shipment, validate_each, check_input, HostApi,
  register_shipment, new_shipment,
}
use navin_contracts.Host.Keeps.{
  Keeps, Same, keeps_rules, Keeps-bind, Keeps-fail_if, Gives, Gives-then, Ends-Gives,
}
use navin_contracts.Prelude.{
  ◌∙◌, zero, suc, Map, ◌||◌, ltb, ◌≡◌, insert, arith, ℕ, ◌+◌, [], ◌∷◌, List, refl, length, ◌==◌,
}
use navin_contracts.Host.{fail_if, ◌>>=◌, Env}
use navin_contracts.Shipment.Symbols.{validate_symbol, validate_symbol_chars}
use navin_contracts.Shipment.Guards.{
  persist_shipment, validate_shipment_invariants, shipment_invariants,
}
use navin_contracts.Shipment.Data.{ShipmentInput}
use navin_contracts.Shipment.Store.{Store}

-- What the registration of an input does: it takes the next ID, stores the new shipment under it,
-- and leaves the token alone.
abbrev pub Registers : {T : Type 0} → Env → ℕ → ShipmentInput → Store T → ℕ → Store T → Type 0
Registers env sender input s id s' =
    (id ≡ s.registry.shipment_counter + 1)
    × (s'.registry.shipment_counter ≡ id)
    × (s'.shipments ≡ insert id (new_shipment env.timestamp id sender input) s.shipments)
    × (s'.token ≡ s.token)

-- The IDs after `n`, and the shipments of the inputs stored under them.
abbrev pub ids_after : ℕ → ℕ → List ℕ
ids_after n zero = []
ids_after n (suc k) = (n + 1) ∷ ids_after (n + 1) k

abbrev pub all_stored : Env → ℕ → ℕ → List ShipmentInput → Map Shipment → Map Shipment
all_stored env sender n [] m = m
all_stored env sender n (input ∷ inputs) m =
    all_stored env sender (n + 1) inputs
      (insert (n + 1) (new_shipment env.timestamp (n + 1) sender input) m)

abbrev pub RegistersAll :
    {T : Type 0} → Env → ℕ → List ShipmentInput → Store T → List ℕ → Store T → Type 0
RegistersAll env sender inputs s ids s' =
    let n = s.registry.shipment_counter in
    (ids ≡ ids_after n (length inputs))
    × (s'.registry.shipment_counter ≡ n + length inputs)
    × (s'.shipments ≡ all_stored env sender n inputs s.shipments)
    × (s'.token ≡ s.token)

module _ {T : Type 0} where
  pub register_shipment-Registers :
      (env : Env) (sender : ℕ) (input : ShipmentInput) (s : Store T)
      → Gives (Registers env sender input s) (register_shipment env sender input s)
  unfolding ◌>>=◌ register_shipment persist_shipment validate_shipment_invariants
      shipment_invariants
  register_shipment-Registers env sender input s = ground arith

  -- The milestones' validators only read.
  pub validate_each-Keeps :
      {P : Store T → Type 0} (host : HostApi) (ms : List (ℕ × ℕ))
      → Keeps P (validate_each {T = T} host ms)
  unfolding validate_each validate_symbol validate_symbol_chars
  validate_each-Keeps host [] = search keeps_rules
  validate_each-Keeps host ((n, pct) ∷ rest) =
      Keeps-bind (validate_symbol (host.symbol_xdr n)) _ (search keeps_rules) (λ u.
        Keeps-bind (validate_symbol_chars (host.symbol_xdr n)) _ (search keeps_rules) (λ v.
          Keeps-bind (fail_if (pct == 0 || ltb 100 pct) _) _ (Keeps-fail_if _ _)
            (λ w. validate_each-Keeps host rest)))

  validate_milestones-Same :
      (s0 : Store T) (host : HostApi) (ms : List (ℕ × ℕ))
      → Keeps (Same s0) (validate_milestones host ms)
  unfolding validate_milestones
  validate_milestones-Same s0 host [] = search keeps_rules
  validate_milestones-Same s0 host (m ∷ ms) = search (keeps_rules, validate_each-Keeps)

  check_input-Same :
      (s0 : Store T) (host : HostApi) (env : Env) (input : ShipmentInput)
      → Keeps (Same s0) (check_input host env input)
  unfolding check_input
  check_input-Same s0 host env input = search (keeps_rules, validate_milestones-Same)

  Registers-cons :
      (env : Env) (sender id : ℕ) (ids : List ℕ) (input : ShipmentInput)
      (inputs : List ShipmentInput) (s s2 s3 : Store T)
      → Registers env sender input s id s2
      → RegistersAll env sender inputs s2 ids s3
      → RegistersAll env sender (input ∷ inputs) s (id ∷ ids) s3
  Registers-cons env sender id ids input inputs s s2 s3 (a, b, c, d) (e, f, g, h) =
      (cc, ground arith, cc, h ∙ d)

  pub register_all-RegistersAll :
      (host : HostApi) (env : Env) (sender : ℕ) (inputs : List ShipmentInput) (s : Store T)
      → Gives (RegistersAll env sender inputs s) (register_all host env sender inputs s)
  unfolding ◌>>=◌ register_all
  register_all-RegistersAll host env sender [] s = (refl, ground arith, refl, refl)
  register_all-RegistersAll host env sender (input ∷ inputs) s =
      Gives-then (λ u s1. Same s s1) _ (check_input host env input s) _
        (Ends-Gives (Same s) (check_input host env input s)
          ((check_input-Same s host env input).at s (record { same = refl })))
        (λ u s1 e.
          Gives-then (Registers env sender input s1) _ (register_shipment env sender input s1) _
            (register_shipment-Registers env sender input s1)
            (λ id s2 r.
              Gives-then (RegistersAll env sender inputs s2) _
                (register_all host env sender inputs s2) _
                (register_all-RegistersAll host env sender inputs s2)
                (λ ids s3 q.
                  rw (← e.same) (Registers-cons env sender id ids input inputs s1 s2 s3 r q))))
