-- ===== src/Shipment/Council/Execution.antt =====
-- What it takes to execute or approve a proposal of the multi-signature admins.
use navin_contracts.Host.Keeps.{IsOk-Gives, Gives-map, Gives-then, Gives}
use navin_contracts.Shipment.Council.{
  execute_proposal, approve_action, add_approval, is_admin, set_proposal, get_threshold,
}
use navin_contracts.Shipment.Milestones.{contains, pushed}
use navin_contracts.Host.{invoke, ◌>>=◌, IsOk, Env}
use navin_contracts.Prelude.{false, true, ◌<◌, ◌≡◌, some, ℕ, ◌≤◌, length, arith, ◌+◌, leb, sym}
use navin_contracts.Shipment.Store.{Store, TokenApi, publish, Call}
use navin_contracts.Shipment.Data.{Proposal, Event}
use navin_contracts.Shipment.Council.Marks.{
  Spent, IsDue, length-pushed, execute_internal_lem, execute_proposal_lem, Spent-execute,
  Spent-approve,
}

-- A call that may execute a proposal: `execute_proposal`, or the approval of an admin.
pub data Execution : Type 0 where
  called : Execution
  seconded : (approver : ℕ) → Execution

-- The proposal as the call executes it: with the approver, if the call approves it.
abbrev pub counted : Execution → Proposal → Proposal
counted called p = p
counted (seconded a) p = record p { approvals = pushed p.approvals a }

-- An approval that reaches the threshold executes the proposal at once.
abbrev pub Completes : {T : Type 0} → Execution → Proposal → Store T → Type 0
Completes called p s = Unit
Completes (seconded a) p s = get_threshold s ≤ length p.approvals + 1

-- An approver is a listed admin who signed the call and had not approved the proposal.
abbrev pub Votes : {T : Type 0} → Env → Execution → Proposal → Store T → Type 0
Votes env called p s = Unit
Votes env (seconded a) p s =
    (env.authorized a ≡ true) × (is_admin a s ≡ true) × (contains p.approvals a ≡ false)

module _ {T : Type 0} (api : TokenApi T) (self : ℕ) where
  abbrev pub run : Env → Execution → ℕ → Call T (Unit {0})
  run env called id = execute_proposal api self env id
  run env (seconded a) id = approve_action api self env a id

  add_approval_lem :
      (env : Env) (a : ℕ) (p : Proposal) (s : Store T)
      → s.council.proposals p.id ≡ some p
      → Gives
          (λ q s1.
            (q ≡ counted (seconded a) p)
            × (s1.council.proposals p.id ≡ some (counted (seconded a) p))
            × (get_threshold s1 ≡ get_threshold s)
            × Votes env (seconded a) p s)
          (add_approval env a p.id s)
  unfolding ◌>>=◌ add_approval
  add_approval_lem env a p s e = ground arith

  enough_lem :
      (p : Proposal) (a : ℕ) (s s1 : Store T) (q : Proposal)
      → get_threshold s ≤ length p.approvals + 1
      → q ≡ counted (seconded a) p
      → get_threshold s1 ≡ get_threshold s
      → leb (get_threshold s1) (length q.approvals) ≡ true
  enough_lem p a s s1 q c same kept = rw same (ground (arith, length-pushed p.approvals a))

  -- What a call that executes the proposal has checked and leaves.
  abbrev Executed : Env → Execution → Proposal → Store T → Store T → Type 0
  Executed env way p s s' =
      (IsDue env (counted way p) s × Votes env way p s) × Spent p.id (counted way p) s'

  run_lem :
      (env : Env) (way : Execution) (p : Proposal) (s : Store T)
      → s.council.proposals p.id ≡ some p
      → Completes way p s
      → Gives (λ u s'. Executed env way p s s') (run env way p.id s)
  unfolding ◌>>=◌ approve_action
  run_lem env called p s e c =
      Gives-map (λ u s'. IsDue env p s × Spent p.id p s') (λ u s'. Executed env called p s s') _
        (λ u s' h. ((h.0, tt), h.1)) (execute_proposal_lem api self env p s e)
  run_lem env (seconded a) p s e c =
      let p' = counted (seconded a) p in
      Gives-then _ _ (add_approval env a p.id s) _ (add_approval_lem env a p s e)
        (λ q s1 (same, found, kept, votes). rw (enough_lem p a s s1 q c same kept) (
          Gives-map (λ u s'. IsDue env p' s1 × Spent p.id p' s')
            (λ u s'. Executed env (seconded a) p s s') _
            (λ u s' h. ((rw (sym kept) h.0, votes), h.1))
            (execute_internal_lem api self env p' s1 found)))

  Spent-run :
      (env : Env) (way : Execution) (p : Proposal) (s : Store T)
      → Spent p.id p s
      → ¬ (IsOk (run env way p.id s))
  Spent-run env called p s h = Spent-execute api self env p s h
  Spent-run env (seconded a) p s h = Spent-approve api self env a p s h

  -- The same, of a proposal that the call `way` has executed.
  Spent-after :
      (env : Env) (way next : Execution) (p : Proposal) (s : Store T)
      → Spent p.id (counted way p) s
      → ¬ (IsOk (run env next p.id s))
  Spent-after env called next p s h = Spent-run env next p s h
  Spent-after env (seconded a) next p s h = Spent-run env next (counted (seconded a) p) s h

-- A proposal is executed, by `execute_proposal` or by the approval that reaches the threshold, only
-- if it has not been executed before, has not expired, and has at least as many approvals as the
-- threshold asks; such an approval is a listed admin's who signed the call and had not approved.
-- The proposal is then stored as executed, and no call of either kind executes or approves it again
-- in the storage that is left.
pub execute_proposal_once :
    {T : Type 0} (api : TokenApi T) (self : ℕ) (env later : Env) (way next : Execution)
    (p : Proposal) (s : Store T)
    → s.council.proposals p.id ≡ some p
    → Completes way p s
    → IsOk (run api self env way p.id s)
    → let s' = invoke (run api self env way p.id) s in
      (IsDue env (counted way p) s × Votes env way p s)
      × (s'.council.proposals p.id ≡ some (record (counted way p) { executed = true }))
      × (¬ (IsOk (run api self later next p.id s')))
unfolding invoke
execute_proposal_once api self env later way next p s found c done =
    let (due, spent) =
      IsOk-Gives (λ r. Executed api self env way p s r) s _ done
        (run_lem api self env way p s found c) in
    (due, spent.stored, Spent-after api self later way next p _ spent)

-- An approval that succeeds comes from a listed admin who signed the call and had not approved the
-- proposal, which was neither executed nor expired. While the approvals with this one stay below the
-- threshold, it only adds the admin to them and publishes that: nothing else in storage changes.
pub approve_action_waits :
    {T : Type 0} (api : TokenApi T) (self : ℕ) (env : Env) (a : ℕ) (p : Proposal) (s : Store T)
    → s.council.proposals p.id ≡ some p
    → IsOk (approve_action api self env a p.id s)
    → length p.approvals + 1 < get_threshold s
    → (env.authorized a ≡ true)
      × (is_admin a s ≡ true)
      × (contains p.approvals a ≡ false)
      × (p.executed ≡ false)
      × (env.timestamp ≤ p.expires_at)
      × (invoke (approve_action api self env a p.id) s
          ≡ publish
              (Event.action_approved p.id a (length p.approvals + 1))
              (set_proposal (record p { approvals = pushed p.approvals a }) s))
unfolding ◌>>=◌ approve_action add_approval invoke
approve_action_waits api self env a p s found done few = ground (arith, length-pushed p.approvals a)
