-- ===== src/Shipment/Tests/Registers.antt =====
-- The theorems on prerequisites and on the multi-signature admins at concrete inputs.
use navin_contracts.Shipment.Council.{
  set_proposal, propose_action_with_salt, approve_action, is_admin,
}
use navin_contracts.Shipment.Data.{Event, AdminAction, Proposal}
use navin_contracts.Shipment.Store.{publish, Store}
use navin_contracts.Shipment.Council.Salts.{propose_action_with_salt_once}
use navin_contracts.Shipment.Tests.{host, at, pool, parcel, running}
use navin_contracts.Host.{◌>>=◌, IsOk, invoke}
use navin_contracts.Shipment.Milestones.{contains, pushed}
use navin_contracts.Shipment.Dependencies.{add_shipment_dependency, would_create_cycle}
use navin_contracts.Shipment.Dependencies.Search.{
  Reaches, would_create_cycle_iff, would_create_cycle_ends,
}
use navin_contracts.Shipment.Dependencies.Acyclic.{
  IsAcyclic, with_edge, add_shipment_dependency-IsAcyclic,
}
use navin_contracts.Shipment.Council.Execution.{
  run, seconded, execute_proposal_once, approve_action_waits,
}
use navin_contracts.Shipment.Council.Marks.{IsDue}
use navin_contracts.Prelude.{
  ◌≡◌, ℤ, ℕ, refl, arith, [], ◌∷◌, List, some, none, true, false, false≢true, ◌≤◌, ◌↔◌, ◌==◌, Bool,
  if◌then◌else◌,
}

-- Shipment 1 waits for 2, which waits for 3.
abbrev chain : ℕ → List ℕ
chain k = if k == 1 then 2 ∷ [] else if k == 2 then 3 ∷ [] else []

would_create_cycle_iff_example : (true ≡ true) ↔ Reaches chain 1 3
unfolding would_create_cycle
would_create_cycle_iff_example = would_create_cycle_iff chain 10 3 1 true refl

would_create_cycle_ends_example : (found : Bool) × (would_create_cycle chain 4 5 1 ≡ some found)
would_create_cycle_ends_example =
    would_create_cycle_ends chain 5 1 (1 ∷ 2 ∷ 3 ∷ []) 4 refl (λ u w m e. ground arith)
      (omega arith)

abbrev two : Store ℤ
two = record running { shipments = (1, parcel) ∷ (2, record parcel { id = 2 }) ∷ [] }

add_shipment_dependency-IsAcyclic_example :
    let s' = invoke (add_shipment_dependency 10 (at 1000) 11 2 1) two in
    (s'.progress.prerequisites ≡ with_edge two.progress.prerequisites 2 1)
    × (¬ (Reaches two.progress.prerequisites 1 2))
    × IsAcyclic s'.progress.prerequisites
unfolding ◌>>=◌ add_shipment_dependency
add_shipment_dependency-IsAcyclic_example =
    add_shipment_dependency-IsAcyclic 10 (at 1000) 11 2 1 two (λ a b e r. false≢true e) tt

-- Put forward by 21, seconded by 22; the threshold is 2.
abbrev motion : Proposal
motion = record {
  id = 1;
  proposer = 21;
  action = AdminAction.transfer_admin 30;
  approvals = 21 ∷ 22 ∷ [];
  created_at = 900;
  expires_at = 5000;
  executed = false;
}

abbrev moved : Store ℤ
moved = record running {
  council = record running.council {
    proposals = λ k. if k == 1 then some (record motion { approvals = 21 ∷ [] }) else none;
  };
}

-- The approval of 22 reaches the threshold.
execute_proposal_once_example :
    let s' = invoke (run pool 100 (at 1000) (seconded 22) 1) moved in
    (IsDue (at 1000) motion moved
      × (((at 1000).authorized 22 ≡ true)
          × (is_admin 22 moved ≡ true)
          × (contains (21 ∷ []) 22 ≡ false)))
    × (s'.council.proposals 1 ≡ some (record motion { executed = true }))
    × (¬ (IsOk (run pool 100 (at 2000) (seconded 23) 1 s')))
unfolding ◌>>=◌ approve_action
execute_proposal_once_example =
    execute_proposal_once pool 100 (at 1000) (at 2000) (seconded 22) (seconded 23)
      (record motion { approvals = 21 ∷ [] }) moved refl (omega arith) tt

abbrev strict : Store ℤ
strict = record moved { council = record moved.council { threshold = some 3 } }

approve_action_waits_example :
    ((at 1000).authorized 22 ≡ true)
    × (is_admin 22 strict ≡ true)
    × (contains (21 ∷ []) 22 ≡ false)
    × (false ≡ false)
    × (1000 ≤ 5000)
    × (invoke (approve_action pool 100 (at 1000) 22 1) strict
        ≡ publish
            (Event.action_approved 1 22 2)
            (set_proposal (record motion { approvals = pushed (21 ∷ []) 22 }) strict))
unfolding ◌>>=◌ approve_action invoke
approve_action_waits_example =
    approve_action_waits pool 100 (at 1000) 22 (record motion { approvals = 21 ∷ [] }) strict refl
      tt (omega arith)

propose_action_with_salt_once_example : ¬ (
    IsOk (
      propose_action_with_salt host
        (at 2000)
        22
        (AdminAction.force_refund 1)
        77
        (invoke (propose_action_with_salt host (at 1000) 21 (AdminAction.upgrade 6) 77) running)))
unfolding ◌>>=◌ propose_action_with_salt
propose_action_with_salt_once_example =
    propose_action_with_salt_once host (at 1000) (at 2000) 21 22 77 (AdminAction.upgrade 6)
      (AdminAction.force_refund 1) running tt
