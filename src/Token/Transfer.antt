-- ===== src/Token/Transfer.antt =====
-- The entry points of contracts/token/src/lib.rs that move tokens between accounts.
use navin_contracts.Prelude.{
  ℕ, ℤ, pos, List, [], ◌∷◌, leb_ℤ, ltb_ℤ, ◌==◌, not, checked_add, checked_sub, length, Bool, true,
  false,
}
use navin_contracts.Host.{
  Env, Action, ◌>>=◌, ◌>>◌, pure, gets, modify, fail_if, ok_or, require_auth, add_or_trap,
  sub_or_trap,
}
use navin_contracts.Token.State.{Token, TokenError, HostCall}
use navin_contracts.Token.Storage.{
  is_initialized, get_balance, set_balance, get_allowance, get_allowance_raw, expiration_or_zero,
  set_allowance, extend_balance_ttl_for, host_call,
}

abbrev pub Call : Type 0 → Type 0
Call A = Action Token TokenError A

-- The test that stands first in every entry point.
abbrev pub require_initialized : Call (Unit {0})
require_initialized = do i ← gets is_initialized; fail_if (not i) TokenError.not_initialized

abbrev pub require_not_paused : Call (Unit {0})
require_not_paused = do p ← gets (λ s. s.is_paused); fail_if p TokenError.contract_paused

unfoldable pub transfer : Env → ℕ → ℕ → ℤ → Call (Unit {0})
transfer env from to amount = do
  require_initialized
  require_not_paused
  require_auth env from
  fail_if (leb_ℤ amount (pos 0)) TokenError.invalid_amount
  fail_if (from == to) TokenError.same_account
  from_balance ← gets (get_balance from)
  fail_if (ltb_ℤ from_balance amount) TokenError.insufficient_balance
  new_from_balance ← ok_or (checked_sub from_balance amount) TokenError.overflow
  to_balance ← gets (get_balance to)
  new_to_balance ← ok_or (checked_add to_balance amount) TokenError.overflow
  modify (set_balance from new_from_balance)
  modify (set_balance to new_to_balance)
  modify (extend_balance_ttl_for (from ∷ to ∷ []) 1000 500000)
  modify (host_call (HostCall.transfer from to amount))

unfoldable pub transfer_from : Env → ℕ → ℕ → ℕ → ℤ → Call (Unit {0})
transfer_from env spender from to amount = do
  require_initialized
  require_not_paused
  require_auth env spender
  fail_if (leb_ℤ amount (pos 0)) TokenError.invalid_amount
  fail_if (from == to) TokenError.same_account
  allowance ← gets (get_allowance env from spender)
  fail_if (ltb_ℤ allowance amount) TokenError.insufficient_allowance
  from_balance ← gets (get_balance from)
  fail_if (ltb_ℤ from_balance amount) TokenError.insufficient_balance
  raw ← gets (get_allowance_raw from spender)
  new_from_balance ← sub_or_trap from_balance amount
  modify (set_balance from new_from_balance)
  to_balance ← gets (get_balance to)
  new_to_balance ← add_or_trap to_balance amount
  modify (set_balance to new_to_balance)
  new_allowance ← sub_or_trap allowance amount
  modify (set_allowance from spender new_allowance (expiration_or_zero raw))
  modify (host_call (HostCall.tr_from from to spender amount))

-- The first loop of `batch_transfer`: every leg is tested, and the amounts are added up.
unfoldable pub batch_total : ℕ → List (ℕ × ℤ) → ℤ → Call ℤ
batch_total from [] total = pure total
batch_total from ((to, amount) ∷ rest) total = do
  fail_if (leb_ℤ amount (pos 0)) TokenError.invalid_amount
  fail_if (to == from) TokenError.same_account
  total' ← ok_or (checked_add total amount) TokenError.invalid_amount
  batch_total from rest total'

-- The second loop: the legs are paid one after the other.
unfoldable pub pay_all : List (ℕ × ℤ) → Call (Unit {0})
pay_all [] = pure tt
pay_all ((to, amount) ∷ rest) = do
  balance ← gets (get_balance to)
  balance' ← add_or_trap balance amount
  modify (set_balance to balance')
  pay_all rest

abbrev is_empty : List (ℕ × ℤ) → Bool
is_empty [] = true
is_empty (r ∷ rs) = false

unfoldable pub batch_transfer : Env → ℕ → List (ℕ × ℤ) → Call (Unit {0})
batch_transfer env from recipients = do
  require_initialized
  require_not_paused
  require_auth env from
  fail_if (is_empty recipients) TokenError.invalid_amount
  total ← batch_total from recipients (pos 0)
  from_balance ← gets (get_balance from)
  fail_if (ltb_ℤ from_balance total) TokenError.insufficient_balance
  new_from_balance ← sub_or_trap from_balance total
  modify (set_balance from new_from_balance)
  pay_all recipients
  modify (host_call (HostCall.batch_tr from (length recipients)))
