-- ===== src/Shipment/Tests/Accounts.antt =====
-- The theorems on the accounts at concrete inputs, over the Navin token.
use navin_contracts.Shipment.Settlement.{
  invoke_token_transfer, check_transfer_allowed, invoke_token_operation, record_transfer_success,
}
use navin_contracts.Shipment.Breaker.{should_allow_request}
use navin_contracts.Shipment.Tests.{at, stocked, host}
use navin_contracts.Shipment.Guards.{persist_shipment, shipment_invariants, finalize_if_settled}
use navin_contracts.Shipment.Dispute.{force_cancel_shipment}
use navin_contracts.Host.{◌>>=◌, Env}
use navin_contracts.Token.State.{Token, deployed}
use navin_contracts.Shipment.Store.{Store}
use navin_contracts.Shipment.Calls.{Request}
use navin_contracts.Shipment.Solvency.{IsSolvent, IsLawful}
use navin_contracts.Shipment.Solvency.Transactions.{
  Transaction, Step, Steps, transact, Steps-IsSolvent,
}
use navin_contracts.Shipment.Solvency.Navin.{navin_api, navin_api-IsLawful}
use navin_contracts.Prelude.{
  ◌+ℤ◌, ◌≡◌, pos, some, [], ◌∷◌, ◌==◌, not, refl, arith, ◌-ℤ◌, checked_add, in_i128, checked_sub,
}

navin_api-IsLawful_example : IsLawful (navin_api (at 1000))
navin_api-IsLawful_example = navin_api-IsLawful (at 1000)

-- The contract, address 100, holds a little more than the escrow of its one shipment.
abbrev banked : Store Token
banked = stocked (record deployed {
  admin = some 1;
  total_supply = some (pos 100);
  balances = (100, pos 45) ∷ (11, pos 55) ∷ [];
})

-- Everyone but the contract has signed.
abbrev outside : Env
outside = record { sequence = 10; timestamp = 1000; authorized = λ a. not (a == 100) }

abbrev called_off : Transaction
called_off = Transaction.request (Request.force_cancel 10 1 9)

banked-IsSolvent : IsSolvent (navin_api (at 1000)) 100 banked
unfolding navin_api ◌+ℤ◌
banked-IsSolvent = record {
  sound = (refl, omega arith, tt);
  archived = λ k x e. ground arith;
  covered = omega arith;
}

abbrev settled_up : Store Token
settled_up = transact (navin_api (at 1000)) 100 host 5 outside called_off banked

Steps-IsSolvent_example : IsSolvent (navin_api (at 1000)) 100 settled_up
Steps-IsSolvent_example =
    Steps-IsSolvent (navin_api (at 1000)) 100 host 5 (navin_api-IsLawful (at 1000))
      (Steps.next banked banked settled_up (Steps.start banked)
        (Step.called outside called_off banked refl))
      banked-IsSolvent

settled_up_pays : (navin_api (at 1000)).balance 100 settled_up.token ≡ pos 5
unfolding transact navin_api ◌>>=◌ force_cancel_shipment persist_shipment shipment_invariants
    finalize_if_settled ◌+ℤ◌ ◌-ℤ◌ checked_sub checked_add in_i128 invoke_token_transfer
    check_transfer_allowed should_allow_request invoke_token_operation record_transfer_success
settled_up_pays = refl
