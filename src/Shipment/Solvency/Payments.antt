-- ===== src/Shipment/Solvency/Payments.antt =====
-- The steps of a call that read or write a shipment or move tokens, and what each does to the
-- balance to spare.
use navin_contracts.Shipment.Solvency.Steps.{IsBacked-IsStable, Keeps-beside}
use navin_contracts.Host.Turns.{Turns-bind, Turns-guard, Turns-Keeps, Turns}
use navin_contracts.Shipment.Custody.{invoke_token_transfer-Pays, Pays}
use navin_contracts.Host.{modify, Env, trap, err, Outcome, ◌>>=◌, ok_or, ok}
use navin_contracts.Shipment.Guards.{
  shipment_invariants, validate_shipment_invariants, persist_shipment,
}
use navin_contracts.Shipment.Settlement.{invoke_token_transfer}
use navin_contracts.Host.Keeps.{Keeps, Ends}
use navin_contracts.Shipment.Solvency.{
  held, held_nonneg, lookup-id, locked-insert, IsLawful, IsSolvent, IsBacked, insert-IsSound,
  held-insert,
}
use navin_contracts.Shipment.Errors.{NavinError}
use navin_contracts.Shipment.Escrow.{load}
use navin_contracts.Shipment.Store.{Call, Store, TokenApi, set_shipment, get_shipment}
use navin_contracts.Shipment.Data.{Shipment}
use navin_contracts.Prelude.{
  ℕ, ℤ, pos, ◌+ℤ◌, ◌-ℤ◌, ◌≤ℤ◌, ◌≡◌, some, arith, int_laws, none, refl, Option, false, not,
}

module _ {T : Type 0} (api : TokenApi T) (self : ℕ) where
  -- A write of the shipment.
  pub set_shipment-IsBacked :
      (id : ℕ) (h d : ℤ) (y : Shipment) (s : Store T)
      → y.id ≡ id
      → pos 0 ≤ℤ y.escrow_amount
      → IsBacked api self id h d s
      → IsBacked api self id y.escrow_amount (d +ℤ (h -ℤ y.escrow_amount)) (set_shipment y s)
  set_shipment-IsBacked id h d y s e p b = record {
    sound = insert-IsSound y s.shipments b.sound p;
    archived = b.archived;
    entry = cc (held-insert y.id y s.shipments, e);
    covered = grind (int_laws, locked-insert y.id y s.shipments, e, b.entry, b.covered);
  }

  found-held :
      (id : ℕ) (x : Shipment) (s : Store T)
      → IsSolvent api self s
      → get_shipment id s ≡ some x
      → (x.id ≡ id) × (pos 0 ≤ℤ x.escrow_amount) × (held id s.shipments ≡ x.escrow_amount)
  found-held id x s h e = ground (
    arith,
    lookup-id id s.shipments x h.sound,
    held_nonneg id s.shipments h.sound,
    h.archived id x,
  )

  -- Where the call starts: the shipment that is found, and its escrow.
  found-IsBacked :
      (id : ℕ) (x : Shipment) (s : Store T)
      → IsSolvent api self s
      → get_shipment id s ≡ some x
      → (x.id ≡ id) × (pos 0 ≤ℤ x.escrow_amount) × IsBacked api self id x.escrow_amount (pos 0) s
  found-IsBacked id x s h e =
      let entry = found-held id x s h e in
      (
        entry.0,
        entry.1,
        record {
          sound = h.sound;
          archived = h.archived;
          entry = entry.2;
          covered = omega (int_laws, h.covered);
        },
      )

  pub IsBacked-IsSolvent :
      (id : ℕ) (h d : ℤ) (s : Store T)
      → pos 0 ≤ℤ d
      → IsBacked api self id h d s
      → IsSolvent api self s
  IsBacked-IsSolvent id h d s p b = record {
    sound = b.sound;
    archived = b.archived;
    covered = omega (int_laws, p, b.covered);
  }

  pub IsBacked-less :
      (id : ℕ) (h d a : ℤ)
      → pos 0 ≤ℤ a
      → (s : Store T) → IsBacked api self id h d s
      → IsBacked api self id h (d -ℤ a) s
  IsBacked-less id h d a p s b = record {
    sound = b.sound;
    archived = b.archived;
    entry = b.entry;
    covered = omega (int_laws, b.covered, p);
  }

  -- A payment by the contract.
  paid-IsBacked :
      (id to : ℕ) (h d a : ℤ) (s s' : Store T)
      → IsLawful api
      → pos 0 ≤ℤ a
      → IsBacked api self id h d s
      → Pays api self to a s (ok tt s')
      → IsBacked api self id h (d -ℤ a) s'
  paid-IsBacked id to h d a s s' law p b e = record {
    sound = grind (arith, b.sound, e);
    archived = grind (arith, b.archived, e);
    entry = grind (arith, b.entry, e);
    covered = grind (int_laws, b.covered, e, law.moves self to a s.token s'.token);
  }

  -- A payment to the contract.
  received-IsBacked :
      (id from : ℕ) (h d a : ℤ) (s s' : Store T)
      → IsLawful api
      → ¬ (from ≡ self)
      → IsBacked api self id h d s
      → Pays api from self a s (ok tt s')
      → IsBacked api self id h (d +ℤ a) s'
  received-IsBacked id from h d a s s' law n b e = record {
    sound = grind (arith, b.sound, e);
    archived = grind (arith, b.archived, e);
    entry = grind (arith, b.entry, e);
    covered = grind (int_laws, b.covered, e, law.moves from self a s.token s'.token);
  }

load-Ends :
    {T A : Type 0} (Q : Store T → Type 0) (f : Shipment → Call T A) (s : Store T)
    (o : Option Shipment)
    → Ends Q (elim o as (λ y. Outcome (Store T) NavinError A) [
      | none ↦ err NavinError.shipment_not_found s
      | some x ↦ f x s
    ])
    → Ends Q
        (elim (ok_or o NavinError.shipment_not_found s) as (λ y. Outcome (Store T) NavinError A) [
          | ok a s ↦ f a s
          | err e s ↦ err e s
          | trap ↦ trap
        ])
unfolding ok_or
load-Ends Q f s none h = tt
load-Ends Q f s (some x) h = h

module _ {T : Type 0} {api : TokenApi T} {self : ℕ} {A : Type 0} {Q : Store T → Type 0} where
  found-Ends :
      (id : ℕ) (f : Shipment → Call T A) (s : Store T) (o : Option Shipment)
      → get_shipment id s ≡ o
      → IsSolvent api self s
      → ((x : Shipment)
          → x.id ≡ id
          → pos 0 ≤ℤ x.escrow_amount
          → Turns (IsBacked api self id x.escrow_amount (pos 0)) (f x) Q)
      → Ends Q (elim o as (λ y. Outcome (Store T) NavinError A) [
        | none ↦ err NavinError.shipment_not_found s
        | some x ↦ f x s
      ])
  found-Ends id f s none e p k = tt
  found-Ends id f s (some x) e p k =
      let b = found-IsBacked api self id x s p e in (k x b.0 b.1).from s b.2

  -- A call that finds the shipment first.
  pub load-Turns :
      (id : ℕ) (f : Shipment → Call T A)
      → ((x : Shipment)
          → x.id ≡ id
          → pos 0 ≤ℤ x.escrow_amount
          → Turns (IsBacked api self id x.escrow_amount (pos 0)) (f x) Q)
      → Turns (IsSolvent api self) (load id >>= f) Q
  unfolding ◌>>=◌
  load-Turns id f k = record {
    from =
        λ s p. load-Ends Q f s (get_shipment id s) (found-Ends id f s (get_shipment id s) refl p k);
  }

shipment_invariants-nonneg :
    (y : Shipment) → not (shipment_invariants y) ≡ false → pos 0 ≤ℤ y.escrow_amount
unfolding shipment_invariants
shipment_invariants-nonneg y c = ground arith

-- The balance to spare, put another way.
module _ {T : Type 0} {api : TokenApi T} {self : ℕ} where
  pub Turns-spare :
      {A : Type 0} (id : ℕ) (h d d' : ℤ) (m : Call T A) {Q : Store T → Type 0}
      → d ≡ d'
      → Turns (IsBacked api self id h d') m Q
      → Turns (IsBacked api self id h d) m Q
  Turns-spare id h d d' m e t = rw e t

  -- Where it is not below zero, the accounts are solvent.
  pub Turns-settled :
      {A : Type 0} (id : ℕ) (h d : ℤ) (m : Call T A)
      → pos 0 ≤ℤ d
      → Keeps (IsSolvent api self) m
      → Turns (IsBacked api self id h d) m (IsSolvent api self)
  Turns-settled id h d m p k = Turns-Keeps m (λ s b. IsBacked-IsSolvent api self id h d s p b) k

  set_shipment-Turns :
      (id : ℕ) (h d : ℤ) (y : Shipment)
      → y.id ≡ id
      → pos 0 ≤ℤ y.escrow_amount
      → Turns
          (IsBacked api self id h d)
          (modify {E = NavinError} (set_shipment y))
          (IsBacked api self id y.escrow_amount (d +ℤ (h -ℤ y.escrow_amount)))
  unfolding modify
  set_shipment-Turns id h d y e p = record {
    from = λ s b. set_shipment-IsBacked api self id h d y s e p b;
  }

  -- The write checks that the escrow is not below zero.
  pub persist-Turns :
      (id : ℕ) (h d : ℤ) (y : Shipment)
      → y.id ≡ id
      → Turns
          (IsBacked api self id h d)
          (persist_shipment y)
          (IsBacked api self id y.escrow_amount (d +ℤ (h -ℤ y.escrow_amount)))
  unfolding persist_shipment validate_shipment_invariants
  persist-Turns id h d y e = Turns-guard _ _ _ (λ c.
      Turns-bind _ _ (set_shipment-Turns id h d y e (shipment_invariants-nonneg y c)) (λ u.
        Turns-Keeps _ (λ s b. b) (Keeps-beside _ (IsBacked-IsStable api self id _ _) (λ s. refl))))

  transfer-Ends :
      (id to : ℕ) (h d a : ℤ) (s : Store T) (o : Outcome (Store T) NavinError (Unit {0}))
      → IsLawful api
      → pos 0 ≤ℤ a
      → IsBacked api self id h d s
      → Pays api self to a s o
      → Ends (IsBacked api self id h (d -ℤ a)) o
  transfer-Ends id to h d a s (ok u s') law p b e =
      paid-IsBacked api self id to h d a s s' law p b e
  transfer-Ends id to h d a s (err x s') law p b e = tt
  transfer-Ends id to h d a s trap law p b e = tt

  pub transfer-Turns :
      (env : Env) (id to : ℕ) (h d a : ℤ)
      → IsLawful api
      → pos 0 ≤ℤ a
      → Turns
          (IsBacked api self id h d)
          (invoke_token_transfer api self env self to a)
          (IsBacked api self id h (d -ℤ a))
  transfer-Turns env id to h d a law p = record {
    from = λ s b.
        transfer-Ends id to h d a s _ law p b (invoke_token_transfer-Pays api self env self to a s);
  }

  receive-Ends :
      (id from : ℕ) (h d a : ℤ) (s : Store T) (o : Outcome (Store T) NavinError (Unit {0}))
      → IsLawful api
      → ¬ (from ≡ self)
      → IsBacked api self id h d s
      → Pays api from self a s o
      → Ends (IsBacked api self id h (d +ℤ a)) o
  receive-Ends id from h d a s (ok u s') law n b e =
      received-IsBacked api self id from h d a s s' law n b e
  receive-Ends id from h d a s (err x s') law n b e = tt
  receive-Ends id from h d a s trap law n b e = tt

  pub receive-Turns :
      (env : Env) (id from : ℕ) (h d a : ℤ)
      → IsLawful api
      → ¬ (from ≡ self)
      → Turns
          (IsBacked api self id h d)
          (invoke_token_transfer api self env from self a)
          (IsBacked api self id h (d +ℤ a))
  receive-Turns env id from h d a law n = record {
    from = λ s b.
        receive-Ends id from h d a s _ law n b
          (invoke_token_transfer-Pays api self env from self a s);
  }
