-- ===== src/Token/Spending.antt =====
-- Exact results of the token's transfers, and how an allowance behaves over time.
use navin_contracts.Host.{◌>>=◌, add_or_trap, sub_or_trap, IsOk, Env, invoke}
use navin_contracts.Token.Moves.{zero-+ℤ}
use navin_contracts.Token.Storage.{expiration_or_zero, get_allowance}
use navin_contracts.Token.Allowance.{approve, increase_allowance, decrease_allowance}
use navin_contracts.Token.State.{Token}
use navin_contracts.Token.Transfer.{transfer_from, transfer}
use navin_contracts.Token.Ledger.{
  sum, balance_of, balance_of-insert, balance_of_nonneg, balance_of-le-sum, two_balances-le-sum,
}
use navin_contracts.Prelude.{
  pos, ℤ, ◌≤ℤ◌, i128_max, ◌≢◌, in_i128, true, ◌-ℤ◌, ℕ, ◌≡◌, in_i128_of_bounds, is_some, insert,
  arith, checked_sub, int_laws, ◌+ℤ◌, checked_add, false, ◌&&◌, ◌≤◌, ◌<◌, +ℤ_cancel_right, ◌==◌,
  if◌then◌else◌, -ℤ-le_max, -ℤ_nonneg, +ℤ-ge_right, leb,
}
use navin_contracts.Token.Invariant.{IsValid}

-- Two accounts of a valid state: neither the debit nor the credit leaves the range of i128.
move_in_i128 :
    (j k : ℕ) (x : ℤ) (s : Token)
    → IsValid s
    → j ≢ k
    → pos 1 ≤ℤ x
    → x ≤ℤ balance_of j s.balances
    → (in_i128 (balance_of j s.balances -ℤ x) ≡ true)
      × (in_i128 (balance_of k s.balances +ℤ x) ≡ true)
move_in_i128 j k x s v ne p q = (
  in_i128_of_bounds _ (omega int_laws) (omega (int_laws, below, s_max)),
  in_i128_of_bounds _ (omega (int_laws, nonneg)) (omega (int_laws, both, s_max)),
)
  where
    s_max : sum s.balances ≤ℤ i128_max
    s_max = rw v.accounted v.bounded

    below : balance_of j s.balances ≤ℤ sum s.balances
    below = balance_of-le-sum j s.balances v.nonneg

    nonneg : pos 0 ≤ℤ balance_of k s.balances
    nonneg = balance_of_nonneg k s.balances v.nonneg

    both : balance_of j s.balances +ℤ balance_of k s.balances ≤ℤ sum s.balances
    both = two_balances-le-sum j k s.balances ne v.nonneg

-- In a valid, initialized, unpaused contract, a signed transfer of a positive amount that the sender holds, to
-- another account, succeeds: it takes the amount from the one, gives it to the other, and leaves
-- every third balance, the supply and the allowances alone.
pub transfer_pays :
    (env : Env) (from to third : ℕ) (amount : ℤ) (s : Token)
    → IsValid s
    → is_some s.admin ≡ true
    → s.is_paused ≡ false
    → env.authorized from ≡ true
    → from ≢ to
    → third ≢ from
    → third ≢ to
    → pos 1 ≤ℤ amount
    → amount ≤ℤ balance_of from s.balances
    → let s' = invoke (transfer env from to amount) s in
      (IsOk (transfer env from to amount s))
      × (balance_of from s'.balances ≡ balance_of from s.balances -ℤ amount)
      × (balance_of to s'.balances ≡ balance_of to s.balances +ℤ amount)
      × (balance_of third s'.balances ≡ balance_of third s.balances)
      × (s'.total_supply ≡ s.total_supply)
      × (s'.allowances ≡ s.allowances)
unfolding ◌>>=◌ add_or_trap sub_or_trap transfer invoke checked_add checked_sub
transfer_pays env from to third amount s v i p a ne nf nt positive covered = ground (
  arith,
  move_in_i128 from to amount s v ne positive covered,
  balance_of-insert from from (balance_of from s.balances -ℤ amount) s.balances,
  balance_of-insert third from (balance_of from s.balances -ℤ amount) s.balances,
  balance_of-insert from to (balance_of to s.balances +ℤ amount)
      (insert from (balance_of from s.balances -ℤ amount) s.balances),
  balance_of-insert to to (balance_of to s.balances +ℤ amount)
      (insert from (balance_of from s.balances -ℤ amount) s.balances),
  balance_of-insert third to (balance_of to s.balances +ℤ amount)
      (insert from (balance_of from s.balances -ℤ amount) s.balances),
)

-- In a valid, initialized, unpaused contract, a signed `transfer_from` of a positive amount that
-- the live allowance, itself within i128, and the sender's balance cover, to another account,
-- succeeds: the amount moves, and the allowance falls by it and keeps its expiration.
pub transfer_from_pays :
    (env : Env) (spender from to : ℕ) (amount : ℤ) (s : Token)
    → IsValid s
    → is_some s.admin ≡ true
    → s.is_paused ≡ false
    → env.authorized spender ≡ true
    → from ≢ to
    → pos 1 ≤ℤ amount
    → amount ≤ℤ get_allowance env from spender s
    → get_allowance env from spender s ≤ℤ i128_max
    → amount ≤ℤ balance_of from s.balances
    → let s' = invoke (transfer_from env spender from to amount) s in
      (IsOk (transfer_from env spender from to amount s))
      × (balance_of from s'.balances ≡ balance_of from s.balances -ℤ amount)
      × (balance_of to s'.balances ≡ balance_of to s.balances +ℤ amount)
      × (get_allowance env from spender s' ≡ get_allowance env from spender s -ℤ amount)
      × (expiration_or_zero (s'.allowances from spender)
          ≡ expiration_or_zero (s.allowances from spender))
unfolding ◌>>=◌ add_or_trap sub_or_trap transfer_from invoke
transfer_from_pays env spender from to amount s v i p a ne positive allowed fits covered = ground (
  arith,
  move_in_i128 from to amount s v ne positive covered,
  in_i128_of_bounds (get_allowance env from spender s -ℤ amount)
      (-ℤ_nonneg (get_allowance env from spender s) amount allowed)
      (-ℤ-le_max (get_allowance env from spender s) amount positive fits),
  balance_of-insert from from (balance_of from s.balances -ℤ amount) s.balances,
  balance_of-insert to from (balance_of from s.balances -ℤ amount) s.balances,
  balance_of-insert from to (balance_of to s.balances +ℤ amount)
      (insert from (balance_of from s.balances -ℤ amount) s.balances),
  balance_of-insert to to (balance_of to s.balances +ℤ amount)
      (insert from (balance_of from s.balances -ℤ amount) s.balances),
)

-- After an approval that succeeds, the spender's allowance reads as the approved amount in every
-- later environment up to the expiration ledger, and as 0 after it; no other allowance changes.
pub approve-get_allowance :
    (env later : Env) (from spender owner other : ℕ) (amount : ℤ) (expiration_ledger : ℕ)
    (s : Token)
    → IsOk (approve env from spender amount expiration_ledger s)
    → let s' = invoke (approve env from spender amount expiration_ledger) s in
      get_allowance later owner other s' ≡ (
        if owner == from && other == spender
        then (if leb later.sequence expiration_ledger then amount else pos 0)
        else get_allowance later owner other s)
unfolding ◌>>=◌ add_or_trap sub_or_trap approve invoke
approve-get_allowance env later from spender owner other amount expiration_ledger s done =
    ground arith

-- In an initialized contract (but at ledger 0) the owner's signed call that raises by a positive
-- delta within i128 an allowance of another account that was never set, or that has expired,
-- succeeds, and the allowance still reads as 0.
pub increase_allowance_ineffective :
    (env : Env) (owner spender : ℕ) (delta : ℤ) (s : Token)
    → is_some s.admin ≡ true
    → env.authorized owner ≡ true
    → owner ≢ spender
    → pos 1 ≤ℤ delta
    → delta ≤ℤ i128_max
    → expiration_or_zero (s.allowances owner spender) < env.sequence
    → IsOk (increase_allowance env owner spender delta s)
      × (get_allowance env owner spender (invoke (increase_allowance env owner spender delta) s)
          ≡ pos 0)
unfolding ◌>>=◌ add_or_trap sub_or_trap increase_allowance invoke checked_add
increase_allowance_ineffective env owner spender delta s i a ne positive fits expired =
    ground (arith, zero-+ℤ delta, in_i128_of_bounds delta)

-- While an allowance is live and between 0 and the maximum of i128, if raising it by a delta
-- succeeds, lowering it by the same delta succeeds next and restores it.
pub increase-decrease :
    (env : Env) (owner spender : ℕ) (delta : ℤ) (s : Token)
    → env.sequence ≤ expiration_or_zero (s.allowances owner spender)
    → pos 0 ≤ℤ get_allowance env owner spender s
    → get_allowance env owner spender s ≤ℤ i128_max
    → IsOk (increase_allowance env owner spender delta s)
    → let s' = invoke (increase_allowance env owner spender delta) s in
      IsOk (decrease_allowance env owner spender delta s')
      × (get_allowance env owner spender (invoke (decrease_allowance env owner spender delta) s')
          ≡ get_allowance env owner spender s)
unfolding ◌>>=◌ add_or_trap sub_or_trap increase_allowance decrease_allowance invoke checked_add
    checked_sub
increase-decrease env owner spender delta s live nonneg fits done = ground (
  arith,
  +ℤ_cancel_right (get_allowance env owner spender s) delta,
  in_i128_of_bounds (get_allowance env owner spender s),
  +ℤ-ge_right (get_allowance env owner spender s) delta nonneg,
)
