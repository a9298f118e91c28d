-- ===== src/Shipment/Solvency.antt =====
-- What the contract owes and what it holds: the escrow of all stored shipments against the balance
-- of the contract in the token.
pub mod Steps
pub mod Payments
pub mod Rules
pub mod Progress
pub mod Deposits
pub mod Admins
pub mod Administration
pub mod Creation
pub mod Handlers
pub mod Transactions
pub mod Navin
use navin_contracts.Shipment.Data.{Shipment}
use navin_contracts.Shipment.Store.{Store, TokenApi}
use navin_contracts.Prelude.{
  ℕ, ℤ, pos, ◌+ℤ◌, ◌≤ℤ◌, ◌≡◌, refl, Map, lookup, insert, [], ◌∷◌, Option, some, none, arith,
  int_laws, ◌==◌, if◌then◌else◌, lookup-insert,
}

-- What the shipment contract takes a token to do: a transfer moves the amount and nothing else.
pub record IsLawful {T : Type 0} (api : TokenApi T) : Type 0 where
  pub moves :
      (from to : ℕ) (amount : ℤ) (t t' : T)
      → api.transfer from to amount t ≡ some t'
      → (k : ℕ)
      → api.balance k t' +ℤ (if k == from then amount else pos 0)
        ≡ api.balance k t +ℤ (if k == to then amount else pos 0)

abbrev pub escrow_of : Option Shipment → ℤ
escrow_of none = pos 0
escrow_of (some x) = x.escrow_amount

-- The escrow of a shipment by its ID, and of all of them.
abbrev pub held : ℕ → Map Shipment → ℤ
held id m = escrow_of (lookup id m)

abbrev pub locked : Map Shipment → ℤ
locked [] = pos 0
locked ((k, x) ∷ m) = x.escrow_amount +ℤ locked m

-- Every shipment stands under its own ID with an escrow of zero or more.
abbrev pub IsSound : Map Shipment → Type 0
IsSound [] = Unit
IsSound ((k, x) ∷ m) = (x.id ≡ k) × (pos 0 ≤ℤ x.escrow_amount) × IsSound m

pub insert-IsSound :
    (x : Shipment) (m : Map Shipment)
    → IsSound m
    → pos 0 ≤ℤ x.escrow_amount
    → IsSound (insert x.id x m)
insert-IsSound x [] h p = (refl, p, tt)
insert-IsSound x (e ∷ m) h p = ground (arith, insert-IsSound x m h.2 p)

pub held_nonneg : (id : ℕ) (m : Map Shipment) → IsSound m → pos 0 ≤ℤ held id m
held_nonneg id [] h = omega arith
held_nonneg id (e ∷ m) h = ground (arith, held_nonneg id m h.2)

pub lookup-id :
    (id : ℕ) (m : Map Shipment) (x : Shipment) → IsSound m → lookup id m ≡ some x → x.id ≡ id
lookup-id id [] x h e = ground arith
lookup-id id (y ∷ m) x h e = ground (arith, lookup-id id m x h.2)

-- A write changes the sum by the difference of the new escrow and the old one.
pub locked-insert :
    (id : ℕ) (x : Shipment) (m : Map Shipment)
    → locked (insert id x m) +ℤ held id m ≡ locked m +ℤ x.escrow_amount
locked-insert id x [] = omega int_laws
locked-insert id x (e ∷ m) = grind (int_laws, locked-insert id x m)

pub held-insert :
    (id : ℕ) (x : Shipment) (m : Map Shipment) → held id (insert id x m) ≡ x.escrow_amount
held-insert id x m = ground (arith, lookup-insert id id x m)

-- The shipments are sound, an archived one has no escrow, and the contract holds at least what it
-- owes: the escrow of all shipments together.
pub record IsSolvent {T : Type 0} (api : TokenApi T) (self : ℕ) (s : Store T) : Type 0 where
  pub sound : IsSound s.shipments
  pub archived :
      (k : ℕ) (x : Shipment) → s.archived k ≡ some x → (x.id ≡ k) × (x.escrow_amount ≡ pos 0)
  pub covered : locked s.shipments ≤ℤ api.balance self s.token

-- In the middle of a call: the escrow of shipment `id` is `h`, and the balance covers what is owed
-- with `d` to spare, or lacks that much.
pub record IsBacked {T : Type 0} (api : TokenApi T) (self id : ℕ) (h d : ℤ) (s : Store T)
    : Type 0 where
  pub sound : IsSound s.shipments
  pub archived :
      (k : ℕ) (x : Shipment) → s.archived k ≡ some x → (x.id ≡ k) × (x.escrow_amount ≡ pos 0)
  pub entry : held id s.shipments ≡ h
  pub covered : locked s.shipments +ℤ d ≤ℤ api.balance self s.token
