-- ===== src/Token/Invariant.antt =====
-- The invariant of the token's storage, and that each entry point keeps it.
use navin_contracts.Prelude.{ℤ, pos, ◌+ℤ◌, ◌≤ℤ◌, ◌≡◌, get_or, is_some, i128_max}
use navin_contracts.Host.{Outcome, ok, err, trap}
use navin_contracts.Token.State.{Token}
use navin_contracts.Token.Ledger.{sum, IsNonneg}

abbrev pub supply : Token → ℤ
supply s = get_or s.total_supply (pos 0)

-- No balance is negative, the balances add up to the total supply, the supply is an i128, and it
-- is stored exactly when the contract is initialized.
pub record IsValid (s : Token) : Type 0 where
  pub nonneg : IsNonneg s.balances
  pub accounted : sum s.balances ≡ supply s
  pub bounded : supply s ≤ℤ i128_max
  pub stored : is_some s.total_supply ≡ is_some s.admin

-- What a call that began at `s` has done to the ledger: a call that returns has kept the invariant
-- and has moved the supply by `change`.
abbrev pub Moves : {E A : Type 0} → Token → ℤ → Outcome Token E A → Type 0
Moves s change (ok a s') = IsValid s' × (supply s' ≡ supply s +ℤ change)
Moves s change (err e s') = Unit
Moves s change trap = Unit
