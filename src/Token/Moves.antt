-- ===== src/Token/Moves.antt =====
-- Each entry point of the token keeps the invariant.
use navin_contracts.Host.{◌>>=◌, add_or_trap, sub_or_trap, Env}
use Prim.Native.String.{String}
use navin_contracts.Token.Ledger.{
  sum-credit, balance_of-le-sum, balance_of, sum, IsNonneg, insert-IsNonneg, balance_of_nonneg,
  sum-debit, sum-insert, balance_of-insert,
}
use navin_contracts.Token.State.{Token}
use navin_contracts.Token.Supply.{initialize, mint, burn, admin_burn, burn_from}
use navin_contracts.Token.Transfer.{transfer_from, transfer}
use navin_contracts.Token.Invariant.{supply, IsValid, Moves}
use navin_contracts.Prelude.{
  ℕ, ℤ, pos, ◌+ℤ◌, ◌-ℤ◌, ◌≤ℤ◌, ◌≡◌, ◌≢◌, Map, insert, int_laws, +ℤ-zero, arith, checked_add,
  checked_sub, i128_max, in_i128-le,
}

move-IsNonneg :
    (j k : ℕ) (x : ℤ) (m : Map ℤ)
    → IsNonneg m
    → pos 0 ≤ℤ x
    → x ≤ℤ balance_of j m
    → IsNonneg (insert k (balance_of k m +ℤ x) (insert j (balance_of j m -ℤ x) m))
move-IsNonneg j k x m h p q =
    insert-IsNonneg k (balance_of k m +ℤ x) (insert j (balance_of j m -ℤ x) m)
      (insert-IsNonneg j (balance_of j m -ℤ x) m h (omega int_laws))
      (omega (int_laws, balance_of_nonneg k m h))

sum-move :
    (j k : ℕ) (x : ℤ) (m : Map ℤ)
    → j ≢ k
    → sum (insert k (balance_of k m +ℤ x) (insert j (balance_of j m -ℤ x) m)) ≡ sum m
sum-move j k x m ne = grind (
  int_laws,
  sum-insert k (balance_of k m +ℤ x) (insert j (balance_of j m -ℤ x) m),
  sum-debit j x m,
  balance_of-insert k j (balance_of j m -ℤ x) m,
)

credit-IsNonneg :
    (k : ℕ) (x : ℤ) (m : Map ℤ)
    → IsNonneg m
    → pos 0 ≤ℤ x
    → IsNonneg (insert k (balance_of k m +ℤ x) m)
credit-IsNonneg k x m h p =
    insert-IsNonneg k (balance_of k m +ℤ x) m h (omega (int_laws, balance_of_nonneg k m h))

pub debit-IsNonneg :
    (k : ℕ) (x : ℤ) (m : Map ℤ)
    → IsNonneg m
    → x ≤ℤ balance_of k m
    → IsNonneg (insert k (balance_of k m -ℤ x) m)
debit-IsNonneg k x m h p = insert-IsNonneg k (balance_of k m -ℤ x) m h (omega int_laws)

-- What a subtraction of a positive amount leaves is no larger.
lowered :
    (v x : ℤ) → (v -ℤ x ≡ v +ℤ (pos 0 -ℤ x)) × (pos 0 ≤ℤ x → v ≤ℤ i128_max → v -ℤ x ≤ℤ i128_max)
lowered v x = (omega int_laws, λ p q. omega int_laws)

-- Where the sum is 0 every balance is.
no_balance : (k : ℕ) (m : Map ℤ) → IsNonneg m → sum m ≡ pos 0 → balance_of k m ≡ pos 0
no_balance k m h e = grind (int_laws, balance_of-le-sum k m h, balance_of_nonneg k m h)

pub zero-+ℤ : (a : ℤ) → pos 0 +ℤ a ≡ a
zero-+ℤ a = omega int_laws

-- A transfer keeps the invariant and the supply.
pub transfer-Moves :
    (env : Env) (from to : ℕ) (amount : ℤ) (s : Token)
    → IsValid s
    → Moves s (pos 0) (transfer env from to amount s)
unfolding ◌>>=◌ add_or_trap sub_or_trap transfer checked_sub checked_add
transfer-Moves env from to amount s h = ground (
  arith,
  move-IsNonneg from to amount s.balances,
  sum-move from to amount s.balances,
  +ℤ-zero (supply s),
)

-- A transfer by a spender keeps the invariant and the supply.
pub transfer_from-Moves :
    (env : Env) (spender from to : ℕ) (amount : ℤ) (s : Token)
    → IsValid s
    → Moves s (pos 0) (transfer_from env spender from to amount s)
unfolding ◌>>=◌ add_or_trap sub_or_trap transfer_from
transfer_from-Moves env spender from to amount s h = ground (
  arith,
  move-IsNonneg from to amount s.balances,
  sum-move from to amount s.balances,
  balance_of-insert to from (balance_of from s.balances -ℤ amount) s.balances,
  +ℤ-zero (supply s),
)

-- Minting adds its amount to the supply.
pub mint-Moves :
    (env : Env) (admin to : ℕ) (amount : ℤ) (s : Token)
    → IsValid s
    → Moves s amount (mint env admin to amount s)
unfolding ◌>>=◌ add_or_trap sub_or_trap mint checked_add
mint-Moves env admin to amount s h = ground (
  arith,
  credit-IsNonneg to amount s.balances h.nonneg,
  sum-credit to amount s.balances,
  in_i128-le (supply s +ℤ amount),
)

-- Each of the three burns takes its amount from the supply.
pub admin_burn-Moves :
    (env : Env) (admin from : ℕ) (amount : ℤ) (s : Token)
    → IsValid s
    → Moves s (pos 0 -ℤ amount) (admin_burn env admin from amount s)
unfolding ◌>>=◌ add_or_trap sub_or_trap admin_burn checked_sub
admin_burn-Moves env admin from amount s h = ground (
  arith,
  debit-IsNonneg from amount s.balances h.nonneg,
  sum-debit from amount s.balances,
  lowered (supply s) amount,
)

pub burn-Moves :
    (env : Env) (from : ℕ) (amount : ℤ) (s : Token)
    → IsValid s
    → Moves s (pos 0 -ℤ amount) (burn env from amount s)
unfolding ◌>>=◌ add_or_trap sub_or_trap burn
burn-Moves env from amount s h = ground (
  arith,
  debit-IsNonneg from amount s.balances h.nonneg,
  sum-debit from amount s.balances,
  lowered (supply s) amount,
)

pub burn_from-Moves :
    (env : Env) (spender from : ℕ) (amount : ℤ) (s : Token)
    → IsValid s
    → Moves s (pos 0 -ℤ amount) (burn_from env spender from amount s)
unfolding ◌>>=◌ add_or_trap sub_or_trap burn_from
burn_from-Moves env spender from amount s h = ground (
  arith,
  debit-IsNonneg from amount s.balances h.nonneg,
  sum-debit from amount s.balances,
  lowered (supply s) amount,
)

-- Initialization creates the supply that it is given.
pub initialize-Moves :
    (env : Env) (admin : ℕ) (name symbol : String) (total_supply : ℤ) (s : Token)
    → total_supply ≤ℤ i128_max
    → IsValid s
    → Moves s total_supply (initialize env admin name symbol total_supply s)
unfolding ◌>>=◌ add_or_trap sub_or_trap initialize
initialize-Moves env admin name symbol total_supply s fits h = ground (
  arith,
  insert-IsNonneg admin total_supply s.balances h.nonneg,
  no_balance admin s.balances h.nonneg,
  sum-insert admin total_supply s.balances,
  +ℤ-zero (sum (insert admin total_supply s.balances)),
  zero-+ℤ total_supply,
)
