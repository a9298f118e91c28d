-- ===== src/Shipment/Cancelled.antt =====
-- What a cancellation does to the escrow of a shipment.
use navin_contracts.Host.Keeps.{
  Keeps, Sets, sets_rules, IsOk-committed, Keeps-pure, Keeps-gets, Keeps-modify, Keeps-fail_if,
  Keeps-ok_or, Keeps-unwrap, Keeps-trap_unless, Keeps-require_auth, Keeps-if, Keeps-bind,
}
use navin_contracts.Host.{modify, ◌>>=◌, Env, IsOk, invoke}
use navin_contracts.Shipment.Errors.{NavinError}
use navin_contracts.Shipment.Store.{
  decrement_status_count, decrement_active_shipment_count, remove_escrow, Store, TokenApi,
  get_shipment, get_escrow,
}
use navin_contracts.Shipment.Guards.{
  require_initialized, require_not_paused, require_active_company, finalize_if_settled,
  validate_shipment_invariants, persist_shipment,
}
use navin_contracts.Prelude.{
  Bool, ◌∙◌, if◌then◌else◌, ◌≡◌, some, true, insert, pos, arith, ℕ, refl, lookup-insert_self,
  lookup,
}
use navin_contracts.Shipment.Data.{HostApi, Shipment}
use navin_contracts.Shipment.Status.{ShipmentStatus}
use navin_contracts.Shipment.Dispute.{cancel_shipment}
use navin_contracts.Shipment.Escrow.{touched}
use navin_contracts.Shipment.Calls.{Request, target, execute}
use navin_contracts.Shipment.Frozen.{finalized-execute}

-- The shipment that a cancellation leaves.
abbrev pub cancelled_of : Env → Shipment → Shipment
cancelled_of env x = record (touched env x) {
  status = ShipmentStatus.cancelled;
  escrow_amount = pos 0;
  finalized = true;
}

-- The token's ledger is `t`; the escrow entry of a shipment is clear.
record LedgerIs {T : Type 0} (t : T) (s : Store T) : Type 0 where
  ledger : s.token ≡ t

record EscrowIsClear {T : Type 0} (id : ℕ) (s : Store T) : Type 0 where
  clear : get_escrow id s ≡ pos 0

module _ {T : Type 0} where
  decrement_status_count-token :
      (st : ShipmentStatus) (s : Store T) → (decrement_status_count st s).token ≡ s.token
  decrement_status_count-token st s = ground arith

  decrement_unless-token :
      (b : Bool) (c : ℕ) (s : Store T)
      → (if b then s else decrement_active_shipment_count c s).token ≡ s.token
  decrement_unless-token b c s = ground arith

  Keeps-ledger :
      (t : T) (f : Store T → Store T)
      → ((s : Store T) → (f s).token ≡ s.token)
      → Keeps (LedgerIs t) (modify {E = NavinError} f)
  Keeps-ledger t f h = Keeps-modify f (λ s c. record { ledger = h s ∙ c.ledger })

  ruleset ledger_rules = (
    Keeps-pure, Keeps-gets, Keeps-ledger, Keeps-fail_if, Keeps-ok_or, Keeps-unwrap,
    Keeps-trap_unless, Keeps-require_auth, Keeps-if, Keeps-bind, decrement_status_count-token,
    decrement_unless-token, refl,
  )

  persist_shipment-Ledger : (t : T) (x : Shipment) → Keeps (LedgerIs t) (persist_shipment {T = T} x)
  unfolding persist_shipment validate_shipment_invariants
  persist_shipment-Ledger t x = search ledger_rules

  cancel_shipment-Ledger :
      (t : T) (env : Env) (caller id reason_hash : ℕ)
      → Keeps (LedgerIs t) (cancel_shipment {T = T} env caller id reason_hash)
  unfolding cancel_shipment require_initialized require_not_paused require_active_company
  cancel_shipment-Ledger t env caller id reason_hash =
      search (ledger_rules, persist_shipment-Ledger) depth 80 fits 5000

  -- What follows the last write to the escrow entry.
  remove_escrow-Clear : (id : ℕ) (s : Store T) → EscrowIsClear id (remove_escrow id s)
  remove_escrow-Clear id s = record { clear = ground arith }

  same-Clear :
      (id : ℕ) (s s' : Store T) → EscrowIsClear id s → s'.escrow ≡ s.escrow → EscrowIsClear id s'
  same-Clear id s s' h e = record { clear = ground (arith, h.clear) }

  Keeps-clear :
      (id : ℕ) (f : Store T → Store T)
      → ((s : Store T) → (f s).escrow ≡ s.escrow)
      → Keeps (EscrowIsClear id) (modify {E = NavinError} f)
  Keeps-clear id f h = Keeps-modify f (λ s c. same-Clear id s (f s) c (h s))

  cancel_shipment-Clear :
      (env : Env) (caller id reason_hash : ℕ)
      → Sets (EscrowIsClear id) (cancel_shipment {T = T} env caller id reason_hash)
  unfolding cancel_shipment
  cancel_shipment-Clear env caller id reason_hash =
      search (sets_rules, Keeps-clear, Keeps-bind, remove_escrow-Clear) depth 80 fits 5000

module _ {T : Type 0} (env : Env) (caller reason_hash : ℕ) (x : Shipment) (s : Store T) where
  cancel_shipment_clears :
      IsOk (cancel_shipment env caller x.id reason_hash s)
      → let s' = invoke (cancel_shipment env caller x.id reason_hash) s in
        (s'.token ≡ s.token) × (get_escrow x.id s' ≡ pos 0)
  unfolding invoke
  cancel_shipment_clears done = (
    (IsOk-committed (LedgerIs s.token) s _ done (
        (cancel_shipment-Ledger s.token env caller x.id reason_hash).at s
          (record { ledger = refl }))).ledger,
    (IsOk-committed (EscrowIsClear x.id) s _ done
        ((cancel_shipment-Clear env caller x.id reason_hash).now s)).clear,
  )

  cancel_shipment_leaves :
      get_shipment x.id s ≡ some x
      → IsOk (cancel_shipment env caller x.id reason_hash s)
      → let s' = invoke (cancel_shipment env caller x.id reason_hash) s in
        lookup x.id s'.shipments ≡ some (cancelled_of env x)
  unfolding ◌>>=◌ cancel_shipment invoke persist_shipment validate_shipment_invariants
      finalize_if_settled
  cancel_shipment_leaves found done = ground (
    arith,
    lookup-insert_self x.id (cancelled_of env x)
        (insert x.id (record (cancelled_of env x) { finalized = x.finalized }) s.shipments),
  )

get_shipment-lookup :
    {T : Type 0} (k : ℕ) (x : Shipment) (s : Store T)
    → lookup k s.shipments ≡ some x
    → get_shipment k s ≡ some x
get_shipment-lookup k x s e = rw (e, get_shipment)

-- Let a shipment be stored under its own ID. A cancellation that succeeds clears its escrow and
-- finalizes it, and transfers nothing: the token's ledger is the one before it, whatever the escrow
-- was. After it no handler that `Request` lists changes anything for this shipment, so what was
-- deposited stays in the contract.
pub cancel_shipment_strands :
    {T : Type 0} (api : TokenApi T) (self : ℕ) (host : HostApi) (env later : Env)
    (caller reason_hash : ℕ) (r : Request) (x : Shipment) (s : Store T)
    → get_shipment x.id s ≡ some x
    → target r ≡ x.id
    → IsOk (cancel_shipment env caller x.id reason_hash s)
    → let s' = invoke (cancel_shipment env caller x.id reason_hash) s in
      (s'.token ≡ s.token)
      × (get_escrow x.id s' ≡ pos 0)
      × (get_shipment x.id s' ≡ some (cancelled_of env x))
      × (execute api self host later r s' ≡ s')
cancel_shipment_strands api self host env later caller reason_hash r x s found t done =
    let s' = invoke (cancel_shipment env caller x.id reason_hash) s in
    let left : get_shipment x.id s' ≡ some (cancelled_of env x) =
      get_shipment-lookup x.id _ s'
        (cancel_shipment_leaves env caller reason_hash x s found done) in
    let (kept, cleared) = cancel_shipment_clears env caller reason_hash x s done in
    (
      kept,
      cleared,
      left,
      finalized-execute api self host later r (cancelled_of env x) s' (rw t left) refl,
    )
