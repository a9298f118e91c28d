-- ===== src/Shipment/Keeps.antt =====
-- The rules for postconditions of the shipment contract's own ways to build a call.
use navin_contracts.Host.{Outcome, ok, err, trap, ◌>>=◌, ◌>>◌}
use navin_contracts.Host.Keeps.{Keeps, Ends}
use navin_contracts.Shipment.Errors.{NavinError}
use navin_contracts.Shipment.Store.{Store, Call}
use navin_contracts.Shipment.Guards.{fail}
use navin_contracts.Shipment.Settlement.{or_else}
use navin_contracts.Shipment.Escrow.{with_reentrancy_lock}
use navin_contracts.Prelude.{Bool, true, false, arith, if◌then◌else◌}

-- What follows a call that ends in `Err` does not count.
fail-Ends :
    {T : Type 0} (P : Store T → Type 0) (m : Call T (Unit {0})) (e : NavinError) (s : Store T)
    → Ends P ((m >> fail {A = Unit {0}} e) s)
unfolding ◌>>=◌
fail-Ends P m e s = ground arith

pub Ends-or_else :
    {T : Type 0} (P : Store T → Type 0) (o : Outcome (Store T) NavinError (Unit {0}))
    (k : Call T (Unit {0})) (h : NavinError → Call T (Unit {0}))
    → Ends P o
    → Keeps P k
    → Ends P (elim o as (λ x. Outcome (Store T) NavinError (Unit {0})) [
      | ok a s' ↦ k s'
      | err e s' ↦ (h e >> fail e) s'
      | trap ↦ trap
    ])
Ends-or_else P (ok a s') k h p d = d.at s' p
Ends-or_else P (err e s') k h p d = fail-Ends P (h e) e s'
Ends-or_else P trap k h p d = tt

Ends-unlock :
    {T A : Type 0} (P : Store T → Type 0) (o : Outcome (Store T) NavinError A)
    → ((s : Store T) (b : Bool) → P s → P (record s { reentrancy_lock = b }))
    → Ends P o
    → Ends P (elim o as (λ x. Outcome (Store T) NavinError A) [
      | ok a s' ↦ ok a (record s' { reentrancy_lock = false })
      | err e s' ↦ err e (record s' { reentrancy_lock = false })
      | trap ↦ trap
    ])
Ends-unlock P (ok a s') free p = free s' false p
Ends-unlock P (err e s') free p = tt
Ends-unlock P trap free p = tt

Ends-if :
    {T A : Type 0} (P : Store T → Type 0) (b : Bool) (e : NavinError) (s : Store T)
    (o : Outcome (Store T) NavinError A)
    → Ends P o
    → Ends P (if b then err e s else o)
Ends-if P true e s o h = tt
Ends-if P false e s o h = h

module _ {T : Type 0} {P : Store T → Type 0} where
  pub Keeps-or_else :
      (m k : Call T (Unit {0})) (h : NavinError → Call T (Unit {0}))
      → Keeps P m
      → Keeps P k
      → Keeps P (or_else m k h)
  Keeps-or_else m k h c d = record { at = λ s p. Ends-or_else P (m s) k h (c.at s p) d }

  -- The lock is no concern of `P`.
  pub Keeps-with_reentrancy_lock :
      {A : Type 0} (m : Call T A)
      → ((s : Store T) (b : Bool) → P s → P (record s { reentrancy_lock = b }))
      → Keeps P m
      → Keeps P (with_reentrancy_lock m)
  Keeps-with_reentrancy_lock m free c = record {
    at = λ s p. Ends-if P s.reentrancy_lock NavinError.reentrancy_detected s _ (
        Ends-unlock P (m (record s { reentrancy_lock = true })) free
          (c.at (record s { reentrancy_lock = true }) (free s true p)));
  }
