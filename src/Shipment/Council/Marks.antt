-- ===== src/Shipment/Council/Marks.antt =====
-- The mark on an executed proposal: when it is set, that nothing removes it, and what it refuses.
use navin_contracts.Host.Keeps.{
  Ends-Gives, Gives-then, Ends, Keeps-bind, Keeps-if, Keeps, Keeps-pure, Keeps-gets, Keeps-modify,
  Keeps-fail_if, Keeps-ok_or, Keeps-unwrap, Keeps-trap_unless, Keeps-require_auth, Gives,
}
use navin_contracts.Shipment.Council.{
  execute_proposal, approve_action, add_approval, execute_proposal_internal, execute_action,
  force_settle, pay_if_known, mark_executed, get_threshold,
}
use navin_contracts.Shipment.Milestones.{pushed}
use navin_contracts.Shipment.Errors.{NavinError}
use navin_contracts.Shipment.Status.{ShipmentStatus}
use navin_contracts.Host.{ok, err, trap, ◌>>=◌, IsOk, Outcome, modify, Env}
use navin_contracts.Prelude.{
  ap, false, true, [], ◌∷◌, ◌≡◌, some, ℕ, ◌≤◌, length, none, arith, ℤ, Option, refl, List, ◌+◌,
}
use navin_contracts.Shipment.Custody.{Pays, invoke_token_transfer-Pays}
use navin_contracts.Shipment.Guards.{
  require_initialized, persist_shipment, validate_shipment_invariants,
}
use navin_contracts.Shipment.Store.{decrement_status_count, Store, TokenApi}
use navin_contracts.Shipment.Data.{Proposal, Event, AdminAction, Shipment}

pub length-pushed : (xs : List ℕ) (a : ℕ) → length (pushed xs a) ≡ length xs + 1
length-pushed [] a = refl
length-pushed (x ∷ xs) a = ground (arith, length-pushed xs a)

-- The proposal is stored as executed.
pub record Spent {T : Type 0} (id : ℕ) (p : Proposal) (s : Store T) : Type 0 where
  pub stored : s.council.proposals id ≡ some (record p { executed = true })

-- A proposal that may be executed: approved by enough admins, in time, and not executed before.
abbrev pub IsDue : {T : Type 0} → Env → Proposal → Store T → Type 0
IsDue env p s =
    (p.executed ≡ false) × (env.timestamp ≤ p.expires_at) × (get_threshold s ≤ length p.approvals)

module _ {T : Type 0} where
  mark_executed_lem :
      (env : Env) (p : Proposal) (s : Store T)
      → s.council.proposals p.id ≡ some p
      → Gives (λ q s'. IsDue env p s × Spent p.id p s') (mark_executed env p.id s)
  unfolding ◌>>=◌ mark_executed
  mark_executed_lem env p s e = ground arith

  Spent-alone :
      (id : ℕ) (p : Proposal) (s s' : Store T)
      → Spent id p s
      → s'.council.proposals ≡ s.council.proposals
      → Spent id p s'
  Spent-alone id p s s' h e = record { stored = rw e h.stored }

  Keeps-unspent :
      (id : ℕ) (p : Proposal) (f : Store T → Store T)
      → ((s : Store T) → (f s).council.proposals ≡ s.council.proposals)
      → Keeps (Spent id p) (modify {E = NavinError} f)
  Keeps-unspent id p f h = Keeps-modify f (λ s c. Spent-alone id p s (f s) c (h s))

  decrement_status_count-proposals :
      (st : ShipmentStatus) (s : Store T)
      → (decrement_status_count st s).council.proposals ≡ s.council.proposals
  decrement_status_count-proposals st s = ground arith

  ruleset spent_rules = (
    Keeps-pure, Keeps-gets, Keeps-unspent, Keeps-fail_if, Keeps-ok_or, Keeps-unwrap,
    Keeps-trap_unless, Keeps-require_auth, Keeps-if, Keeps-bind, decrement_status_count-proposals,
    refl,
  )

  persist_shipment-Spent :
      (id : ℕ) (p : Proposal) (x : Shipment) → Keeps (Spent id p) (persist_shipment {T = T} x)
  unfolding persist_shipment validate_shipment_invariants
  persist_shipment-Spent id p x = search spent_rules

  Pays-Spent :
      (api : TokenApi T) (id : ℕ) (p : Proposal) (from to : ℕ) (amount : ℤ) (s : Store T)
      (o : Outcome (Store T) NavinError (Unit {0}))
      → Pays api from to amount s o
      → Spent id p s
      → Ends (Spent id p) o
  Pays-Spent api id p from to amount s (ok a s') (paid, same, calm) h =
      Spent-alone id p s s' h (ap (λ r. r.council.proposals) same)
  Pays-Spent api id p from to amount s (err e s') h c = tt
  Pays-Spent api id p from to amount s trap h c = tt

module _ {T : Type 0} (api : TokenApi T) (self : ℕ) where
  pay_if_known-Spent :
      (id : ℕ) (p : Proposal) (env : Env) (to : ℕ) (amount : ℤ) (c : Option ℕ)
      → Keeps (Spent id p) (pay_if_known api self env to amount c)
  pay_if_known-Spent id p env to amount none = search spent_rules
  pay_if_known-Spent id p env to amount (some c) = record {
    at = λ s h.
        Pays-Spent api id p self to amount s _
          (invoke_token_transfer-Pays api self env self to amount s) h;
  }

  force_settle-Spent :
      (id : ℕ) (p : Proposal) (env : Env) (i : ℕ) (st : ShipmentStatus) (to : Shipment → ℕ)
      (event : Shipment → Event)
      → Keeps (Spent id p) (force_settle api self env i st to event)
  unfolding force_settle
  force_settle-Spent id p env i st to event =
      search (spent_rules, persist_shipment-Spent, pay_if_known-Spent) depth 80 fits 5000

  execute_action-Spent :
      (id : ℕ) (p : Proposal) (env : Env) (a : ℕ) (action : AdminAction)
      → Keeps (Spent id p) (execute_action api self env a action)
  unfolding execute_action
  execute_action-Spent id p env a (AdminAction.upgrade h) = search spent_rules depth 80 fits 5000
  execute_action-Spent id p env a (AdminAction.transfer_admin b) =
      search spent_rules depth 80 fits 5000
  execute_action-Spent id p env a (AdminAction.force_release i) = force_settle-Spent _ _ _ _ _ _ _
  execute_action-Spent id p env a (AdminAction.force_refund i) = force_settle-Spent _ _ _ _ _ _ _

  pub execute_internal_lem :
      (env : Env) (p : Proposal) (s : Store T)
      → s.council.proposals p.id ≡ some p
      → Gives
          (λ u s'. IsDue env p s × Spent p.id p s')
          (execute_proposal_internal api self env p.id s)
  unfolding ◌>>=◌ execute_proposal_internal
  execute_internal_lem env p s e =
      Gives-then (λ q s1. IsDue env p s × Spent p.id p s1) _ (mark_executed env p.id s) _
        (mark_executed_lem env p s e)
        (λ q s1 c.
          Gives-then (λ u s2. Spent p.id p s2) _
            (execute_action api self env q.proposer q.action s1) _
            (Ends-Gives (Spent p.id p) _
              ((execute_action-Spent p.id p env q.proposer q.action).at s1 c.1))
            (λ u s2 h. (c.0, Spent-alone p.id p s2 _ h refl)))

  initialized-Same : (s : Store T) → Gives (λ u s'. s' ≡ s) (require_initialized {T = T} s)
  unfolding ◌>>=◌ require_initialized
  initialized-Same s = ground arith

  pub execute_proposal_lem :
      (env : Env) (p : Proposal) (s : Store T)
      → s.council.proposals p.id ≡ some p
      → Gives (λ u s'. IsDue env p s × Spent p.id p s') (execute_proposal api self env p.id s)
  unfolding ◌>>=◌ execute_proposal
  execute_proposal_lem env p s e =
      Gives-then (λ u s'. s' ≡ s) _ (require_initialized s) _ (initialized-Same s)
        (λ u s' same. rw same (execute_internal_lem env p s e))

  pub Spent-execute :
      (env : Env) (p : Proposal) (s : Store T)
      → Spent p.id p s
      → ¬ (IsOk (execute_proposal api self env p.id s))
  unfolding ◌>>=◌ execute_proposal execute_proposal_internal mark_executed
  Spent-execute env p s h = let e = h.stored in ground arith

  pub Spent-approve :
      (env : Env) (a : ℕ) (p : Proposal) (s : Store T)
      → Spent p.id p s
      → ¬ (IsOk (approve_action api self env a p.id s))
  unfolding ◌>>=◌ approve_action add_approval
  Spent-approve env a p s h = let e = h.stored in ground arith
