-- ===== src/Token/Tests.antt =====
-- The token's theorems at concrete inputs, and a short run of the contract.
use navin_contracts.Host.{◌>>=◌, add_or_trap, sub_or_trap, Env, IsOk, invoke, ok}
use navin_contracts.Token.Batch.{batch_transfer_pays, legs, credit_all}
use navin_contracts.Token.Spending.{
  transfer_from_pays, transfer_pays, increase_allowance_ineffective, approve-get_allowance,
}
use navin_contracts.Token.Ledger.{balance_of}
use navin_contracts.Token.Conservation.{reachable-IsValid}
use navin_contracts.Token.Paused.{execute-Frozen, Frozen}
use navin_contracts.Token.Authority.{lowered-Consents, Consents}
use navin_contracts.Token.Governance.{Governed, unsigned-Governed}
use navin_contracts.Token.Invariant.{IsValid}
use navin_contracts.Prelude.{
  pos, arith, in_i128, ◌≡◌, ℤ, ◌+ℤ◌, insert, [], if◌then◌else◌, checked_add, List, refl, some, ◌∷◌,
  none, ◌==◌, false, true, checked_sub, ℕ, ◌&&◌, ◌-ℤ◌,
}
use navin_contracts.Token.State.{Token, deployed, HostCall}
use navin_contracts.Token.Storage.{get_allowance, expiration_or_zero}
use navin_contracts.Token.Transfer.{transfer, transfer_from, batch_transfer}
use navin_contracts.Token.Allowance.{approve, increase_allowance}
use navin_contracts.Token.Calls.{Request, execute, execute_all}
use navin_contracts.Token.Supply

abbrev signed : Env
signed = record { sequence = 10; timestamp = 1000; authorized = λ a. true }

-- Only account 2 has signed.
abbrev unsigned : Env
unsigned = record { sequence = 10; timestamp = 1000; authorized = λ a. a == 2 }

abbrev calls : List (Env × Request)
calls =
    (signed, Request.initialize 1 "Navin" "NVN" (pos 100))
    ∷ (signed, Request.transfer 1 2 (pos 40))
    ∷ (signed, Request.transfer 2 1 (pos 70))
    ∷ (signed, Request.mint 1 3 (pos 5))
    ∷ (signed, Request.mint 2 3 (pos 5))
    ∷ (signed, Request.burn 2 (pos 1))
    ∷ []

calls_run :
    let s = execute_all calls deployed in
    (s.balances ≡ (1, pos 60) ∷ (2, pos 39) ∷ (3, pos 5) ∷ []) × (s.total_supply ≡ some (pos 104))
unfolding ◌>>=◌ add_or_trap sub_or_trap execute_all execute Supply.initialize Supply.mint
    Supply.burn transfer in_i128 checked_add checked_sub ◌+ℤ◌ ◌-ℤ◌
calls_run = (refl, refl)

reachable-IsValid_example : IsValid (execute_all calls deployed)
reachable-IsValid_example = reachable-IsValid calls (omega arith)

abbrev funded : Token
funded = record {
  admin = some 1;
  name = some "Navin";
  symbol = some "NVN";
  total_supply = some (pos 100);
  balances = (1, pos 60) ∷ (2, pos 40) ∷ [];
  allowances = λ o p.
      if o == 2 && p == 3 then some (record { amount = pos 30; expiration_ledger = 50 }) else none;
  allowed_metadata_keys = λ k. false;
  metadata = λ k. none;
  is_paused = false;
  host_calls = [];
}

abbrev paused : Token
paused = record funded { is_paused = true }

funded-IsValid : IsValid funded
unfolding ◌>>=◌ add_or_trap sub_or_trap ◌+ℤ◌
funded-IsValid = record {
  nonneg = omega arith;
  accounted = refl;
  bounded = omega arith;
  stored = refl;
}

lowered-Consents_example : Consents signed 2 (Request.transfer 2 1 (pos 15)) funded
unfolding ◌>>=◌ add_or_trap sub_or_trap execute transfer in_i128 checked_add checked_sub ◌+ℤ◌ ◌-ℤ◌
lowered-Consents_example =
    lowered-Consents signed 2 (Request.transfer 2 1 (pos 15)) funded funded-IsValid (omega arith)

execute-Frozen_example : Frozen paused (execute signed (Request.mint 1 2 (pos 5)) paused)
execute-Frozen_example = execute-Frozen signed (Request.mint 1 2 (pos 5)) paused refl refl

unsigned-Governed_example :
    Governed funded (execute unsigned (Request.transfer 2 1 (pos 15)) funded)
unsigned-Governed_example =
    unsigned-Governed unsigned 1 (Request.transfer 2 1 (pos 15)) funded refl refl

transfer_pays_example :
    let s' = invoke (transfer signed 1 2 (pos 25)) funded in
    (IsOk (transfer signed 1 2 (pos 25) funded))
    × (balance_of 1 s'.balances ≡ pos 60 -ℤ pos 25)
    × (balance_of 2 s'.balances ≡ pos 40 +ℤ pos 25)
    × (balance_of 7 s'.balances ≡ pos 0)
    × (s'.total_supply ≡ some (pos 100))
    × (s'.allowances ≡ funded.allowances)
transfer_pays_example =
    transfer_pays signed 1 2 7 (pos 25) funded funded-IsValid refl refl refl (omega arith)
      (omega arith) (omega arith) (omega arith) (omega arith)

transfer_from_pays_example :
    let s' = invoke (transfer_from signed 3 2 1 (pos 25)) funded in
    (IsOk (transfer_from signed 3 2 1 (pos 25) funded))
    × (balance_of 2 s'.balances ≡ pos 40 -ℤ pos 25)
    × (balance_of 1 s'.balances ≡ pos 60 +ℤ pos 25)
    × (get_allowance signed 2 3 s' ≡ pos 30 -ℤ pos 25)
    × (expiration_or_zero (s'.allowances 2 3) ≡ 50)
transfer_from_pays_example =
    transfer_from_pays signed 3 2 1 (pos 25) funded funded-IsValid refl refl refl (omega arith)
      (omega arith) (omega arith) (omega arith) (omega arith)

abbrev legs_example : List (ℕ × ℤ)
legs_example = (1, pos 10) ∷ (4, pos 5) ∷ (1, pos 3) ∷ []

batch_transfer_pays_example :
    batch_transfer signed 2 legs_example funded
    ≡ ok tt (record funded {
      balances = credit_all legs_example (insert 2 (pos 40 -ℤ legs legs_example) funded.balances);
      host_calls = HostCall.batch_tr 2 3 ∷ [];
    })
unfolding ◌>>=◌ add_or_trap sub_or_trap ◌+ℤ◌
batch_transfer_pays_example =
    batch_transfer_pays signed 2 legs_example funded funded-IsValid refl refl refl (λ e. cc)
      (omega arith) (omega arith)

approve-get_allowance_example :
    get_allowance signed 1 4 (invoke (approve signed 1 4 (pos 9) 12) funded) ≡ pos 9
unfolding ◌>>=◌ add_or_trap sub_or_trap approve
approve-get_allowance_example = approve-get_allowance signed signed 1 4 1 4 (pos 9) 12 funded tt

increase_allowance_ineffective_example :
    IsOk (increase_allowance signed 1 4 (pos 9) funded)
    × (get_allowance signed 1 4 (invoke (increase_allowance signed 1 4 (pos 9)) funded) ≡ pos 0)
increase_allowance_ineffective_example =
    increase_allowance_ineffective signed 1 4 (pos 9) funded refl refl (omega arith) (omega arith)
      (omega arith) (omega arith)
