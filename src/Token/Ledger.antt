-- ===== src/Token/Ledger.antt =====
-- The balances as a whole: their sum, and what a credit and a debit do to it.
use navin_contracts.Prelude.{
  ℕ, ℤ, pos, ◌+ℤ◌, ◌-ℤ◌, ◌≤ℤ◌, ◌≡◌, ◌≢◌, Map, lookup, insert, lookup-insert, get_or, [], ◌∷◌, arith,
  int_laws, ◌==◌, if◌then◌else◌,
}

abbrev pub balance_of : ℕ → Map ℤ → ℤ
balance_of k m = get_or (lookup k m) (pos 0)

abbrev pub sum : Map ℤ → ℤ
sum [] = pos 0
sum ((k, v) ∷ m) = v +ℤ sum m

-- Every stored balance is zero or more.
abbrev pub IsNonneg : Map ℤ → Type 0
IsNonneg [] = Unit
IsNonneg ((k, v) ∷ m) = (pos 0 ≤ℤ v) × IsNonneg m

pub insert-IsNonneg :
    (k : ℕ) (v : ℤ) (m : Map ℤ) → IsNonneg m → pos 0 ≤ℤ v → IsNonneg (insert k v m)
insert-IsNonneg k v [] h p = (p, tt)
insert-IsNonneg k v (e ∷ m) h p = ground (arith, insert-IsNonneg k v m h.1 p)

pub balance_of_nonneg : (k : ℕ) (m : Map ℤ) → IsNonneg m → pos 0 ≤ℤ balance_of k m
balance_of_nonneg k [] h = omega arith
balance_of_nonneg k (e ∷ m) h = ground (arith, balance_of_nonneg k m h.1)

pub sum_nonneg : (m : Map ℤ) → IsNonneg m → pos 0 ≤ℤ sum m
sum_nonneg [] h = omega arith
sum_nonneg (e ∷ m) h = omega (int_laws, sum_nonneg m h.1)

pub balance_of-le-sum : (k : ℕ) (m : Map ℤ) → IsNonneg m → balance_of k m ≤ℤ sum m
balance_of-le-sum k [] h = omega arith
balance_of-le-sum k (e ∷ m) h = grind (int_laws, sum_nonneg m h.1, balance_of-le-sum k m h.1)

-- Two accounts hold no more than all of them.
pub two_balances-le-sum :
    (j k : ℕ) (m : Map ℤ) → j ≢ k → IsNonneg m → balance_of j m +ℤ balance_of k m ≤ℤ sum m
two_balances-le-sum j k [] ne h = omega int_laws
two_balances-le-sum j k (e ∷ m) ne h = grind (
  int_laws,
  sum_nonneg m h.1,
  balance_of-le-sum j m h.1,
  balance_of-le-sum k m h.1,
  two_balances-le-sum j k m ne h.1,
)

-- A write changes the sum by the difference of the new value and the old one.
pub sum-insert : (k : ℕ) (v : ℤ) (m : Map ℤ) → sum (insert k v m) +ℤ balance_of k m ≡ sum m +ℤ v
sum-insert k v [] = omega int_laws
sum-insert k v (e ∷ m) = grind (int_laws, sum-insert k v m)

pub sum-credit : (k : ℕ) (x : ℤ) (m : Map ℤ) → sum (insert k (balance_of k m +ℤ x) m) ≡ sum m +ℤ x
sum-credit k x m = grind (int_laws, sum-insert k (balance_of k m +ℤ x) m)

pub sum-debit : (k : ℕ) (x : ℤ) (m : Map ℤ) → sum (insert k (balance_of k m -ℤ x) m) ≡ sum m -ℤ x
sum-debit k x m = grind (int_laws, sum-insert k (balance_of k m -ℤ x) m)

pub balance_of-insert :
    (j k : ℕ) (v : ℤ) (m : Map ℤ)
    → balance_of j (insert k v m) ≡ (if j == k then v else balance_of j m)
balance_of-insert j k v m = ground (arith, lookup-insert j k v m)
