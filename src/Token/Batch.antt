-- ===== src/Token/Batch.antt =====
-- `batch_transfer` of contracts/token/src/lib.rs: its two loops against a plain description.
use navin_contracts.Host.{◌>>=◌, add_or_trap, sub_or_trap, trap, Outcome, Env, ok, err}
use navin_contracts.Token.Invariant.{supply, Moves, IsValid}
use navin_contracts.Token.Ledger.{
  sum-debit, balance_of-le-sum, balance_of_nonneg, insert-IsNonneg, sum-credit, balance_of, sum,
  IsNonneg,
}
use navin_contracts.Token.Moves.{debit-IsNonneg, zero-+ℤ}
use navin_contracts.Token.State.{HostCall, Token, TokenError}
use navin_contracts.Token.Transfer.{batch_transfer, batch_total, pay_all}
use navin_contracts.Prelude.{
  pos, refl, List, ℤ, ◌≡◌, Map, ℕ, i128_max, [], ◌∷◌, ◌+ℤ◌, arith, ◌≤ℤ◌, ◌≢◌, insert, +ℤ-zero,
  in_i128_of_bounds, checked_add, +ℤ_assoc, int_laws, in_i128, length, ◌-ℤ◌, false, is_some, true,
  ◌⊎◌, inl, inr, +ℤ_cancel,
}

-- What the legs ask for together.
abbrev pub legs : List (ℕ × ℤ) → ℤ
legs [] = pos 0
legs ((to, amount) ∷ rest) = amount +ℤ legs rest

-- Every amount is positive, and no leg goes back to the sender.
abbrev pub IsBatch : ℕ → List (ℕ × ℤ) → Type 0
IsBatch from [] = Unit
IsBatch from ((to, amount) ∷ rest) = (pos 1 ≤ℤ amount) × (to ≢ from) × IsBatch from rest

-- The balances once every leg is credited.
abbrev pub credit_all : List (ℕ × ℤ) → Map ℤ → Map ℤ
credit_all [] m = m
credit_all ((to, amount) ∷ rest) m = credit_all rest (insert to (balance_of to m +ℤ amount) m)

-- How the first loop ends: with the sum of the legs if the batch is well-formed, or with an error.
abbrev Totals : ℕ → List (ℕ × ℤ) → ℤ → Token → Outcome Token TokenError ℤ → Type 0
Totals from rs total s (ok t s') = (s' ≡ s) × (t ≡ total +ℤ legs rs) × IsBatch from rs
Totals from rs total s (err e s') = Unit
Totals from rs total s trap = ⊥

batch_total-Totals :
    (from : ℕ) (rs : List (ℕ × ℤ)) (total : ℤ) (s : Token)
    → Totals from rs total s (batch_total from rs total s)
unfolding ◌>>=◌ add_or_trap sub_or_trap batch_total checked_add
batch_total-Totals from [] total s = ground (arith, +ℤ-zero total)
batch_total-Totals from ((to, amount) ∷ rest) total s =
    ground
      (arith, batch_total-Totals from rest (total +ℤ amount) s, +ℤ_assoc total amount (legs rest))

Totals-cases :
    (from : ℕ) (rs : List (ℕ × ℤ)) (total : ℤ) (s : Token) (o : Outcome Token TokenError ℤ)
    → Totals from rs total s o
    → ((o ≡ ok (total +ℤ legs rs) s) × IsBatch from rs)
      ⊎ ((e : TokenError) × (s' : Token) × (o ≡ err e s'))
Totals-cases from rs total s (ok t s') h = inl (cc, h.2)
Totals-cases from rs total s (err e s') h = inr (e, s', refl)
Totals-cases from rs total s trap h = absurd h

pub batch_total_cases :
    (from : ℕ) (rs : List (ℕ × ℤ)) (s : Token)
    → ((batch_total from rs (pos 0) s ≡ ok (legs rs) s) × IsBatch from rs)
      ⊎ ((e : TokenError) × (s' : Token) × (batch_total from rs (pos 0) s ≡ err e s'))
batch_total_cases from rs s =
    rw (zero-+ℤ (legs rs)) at
      (Totals-cases from rs (pos 0) s _ (batch_total-Totals from rs (pos 0) s))

legs_nonneg : (from : ℕ) (rs : List (ℕ × ℤ)) → IsBatch from rs → pos 0 ≤ℤ legs rs
legs_nonneg from [] b = omega arith
legs_nonneg from ((to, amount) ∷ rest) b = omega (int_laws, legs_nonneg from rest b.2)

-- A well-formed batch within the range of i128 passes the first loop.
batch_total-eq :
    (from : ℕ) (rs : List (ℕ × ℤ)) (total : ℤ) (s : Token)
    → IsBatch from rs
    → pos 0 ≤ℤ total
    → total +ℤ legs rs ≤ℤ i128_max
    → batch_total from rs total s ≡ ok (total +ℤ legs rs) s
unfolding ◌>>=◌ add_or_trap sub_or_trap batch_total checked_add
batch_total-eq from [] total s b p q = rw +ℤ-zero
batch_total-eq from ((to, amount) ∷ rest) total s b p q = ground (
  arith,
  batch_total-eq from rest (total +ℤ amount) s b.2,
  +ℤ_assoc total amount (legs rest),
  legs_bound,
  raised,
  in_i128_of_bounds (total +ℤ amount),
)
  where
    raised : pos 0 ≤ℤ total +ℤ amount
    raised = omega (int_laws, b.0)

    legs_bound : total +ℤ amount ≤ℤ i128_max
    legs_bound = omega (int_laws, legs_nonneg from rest b.2)

-- Crediting every leg raises the sum by what they ask for together.
sum-credit_all : (rs : List (ℕ × ℤ)) (m : Map ℤ) → sum (credit_all rs m) ≡ sum m +ℤ legs rs
sum-credit_all [] m = omega int_laws
sum-credit_all ((to, amount) ∷ rest) m = grind (
  int_laws,
  sum-credit_all rest (insert to (balance_of to m +ℤ amount) m),
  sum-credit to amount m,
)

credit_all-IsNonneg :
    (rs : List (ℕ × ℤ)) (from : ℕ) (m : Map ℤ)
    → IsBatch from rs
    → IsNonneg m
    → IsNonneg (credit_all rs m)
credit_all-IsNonneg [] from m b h = h
credit_all-IsNonneg ((to, amount) ∷ rest) from m b h =
    credit_all-IsNonneg rest from (insert to (balance_of to m +ℤ amount) m) b.2 (
      insert-IsNonneg to (balance_of to m +ℤ amount) m h
        (omega (int_laws, balance_of_nonneg to m h, b.0)))

-- The second loop credits every leg, where all that is in circulation is an i128.
pub pay_all-eq :
    (rs : List (ℕ × ℤ)) (from : ℕ) (s : Token)
    → IsNonneg s.balances
    → IsBatch from rs
    → sum s.balances +ℤ legs rs ≤ℤ i128_max
    → pay_all rs s ≡ ok tt (record s { balances = credit_all rs s.balances })
unfolding ◌>>=◌ add_or_trap sub_or_trap pay_all
pay_all-eq [] from s h b fits = refl
pay_all-eq ((to, amount) ∷ rest) from s h b fits =
    ground (arith, in_range, pay_all-eq rest from s' kept b.2 left)
  where
    positive : pos 1 ≤ℤ amount
    positive = b.0

    nonneg : pos 0 ≤ℤ balance_of to s.balances
    nonneg = balance_of_nonneg to s.balances h

    s' : Token
    s' = record s { balances = insert to (balance_of to s.balances +ℤ amount) s.balances }

    kept : IsNonneg s'.balances
    kept = insert-IsNonneg to _ s.balances h (omega (int_laws, positive, nonneg))

    in_range : in_i128 (balance_of to s.balances +ℤ amount) ≡ true
    in_range =
        in_i128_of_bounds (balance_of to s.balances +ℤ amount) (omega (int_laws, positive, nonneg))
          (omega (int_laws, fits, balance_of-le-sum to s.balances h, legs_nonneg from rest b.2))

    left : sum s'.balances +ℤ legs rest ≤ℤ i128_max
    left = grind (int_laws, sum-credit to amount s.balances, fits)

-- The state between the two loops.
abbrev pub debited : ℕ → ℤ → Token → Token
debited from total s = record s {
  balances = insert from (balance_of from s.balances -ℤ total) s.balances;
}

-- What a covered debit of a positive amount leaves is in range.
debit_bounds :
    (k : ℕ) (x : ℤ) (m : Map ℤ)
    → IsNonneg m
    → pos 0 ≤ℤ x
    → x ≤ℤ balance_of k m
    → sum m ≤ℤ i128_max
    → (pos 0 ≤ℤ balance_of k m -ℤ x) × (balance_of k m -ℤ x ≤ℤ i128_max) × (x ≤ℤ i128_max)
debit_bounds k x m h p q fits = (
  omega int_laws,
  omega (int_laws, balance_of-le-sum k m h),
  omega (int_laws, balance_of-le-sum k m h),
)

-- In a valid, initialized, unpaused contract, a signed batch that is not empty, whose amounts are
-- positive, that pays nobody who is the sender and that the sender's balance covers succeeds: the
-- sum of the legs leaves the sender, every leg is credited in order, and nothing else changes but the log.
pub batch_transfer_pays :
    (env : Env) (from : ℕ) (rs : List (ℕ × ℤ)) (s : Token)
    → IsValid s
    → is_some s.admin ≡ true
    → s.is_paused ≡ false
    → env.authorized from ≡ true
    → rs ≢ []
    → IsBatch from rs
    → legs rs ≤ℤ balance_of from s.balances
    → batch_transfer env from rs s
      ≡ ok tt (record s {
        balances = credit_all rs (insert from (balance_of from s.balances -ℤ legs rs) s.balances);
        host_calls = HostCall.batch_tr from (length rs) ∷ s.host_calls;
      })
unfolding ◌>>=◌ add_or_trap sub_or_trap batch_transfer
batch_transfer_pays env from rs s v i p a ne b covered = ground (
  arith,
  batch_total-eq from rs (pos 0) s b,
  legs_nonneg from rs b,
  in_i128_of_bounds (balance_of from s.balances -ℤ legs rs),
  debit_bounds from (legs rs) s.balances v.nonneg,
  zero-+ℤ (legs rs),
  pay_all-eq rs from (debited from (legs rs) s),
  debit-IsNonneg from (legs rs) s.balances v.nonneg,
  sum-debit from (legs rs) s.balances,
  +ℤ_cancel (sum s.balances) (legs rs),
  v.accounted,
  v.bounded,
)

-- A batch keeps the invariant and the supply.
pub batch_transfer-Moves :
    (env : Env) (from : ℕ) (rs : List (ℕ × ℤ)) (s : Token)
    → IsValid s
    → Moves s (pos 0) (batch_transfer env from rs s)
unfolding ◌>>=◌ add_or_trap sub_or_trap batch_transfer
batch_transfer-Moves env from rs s v = elim (batch_total_cases from rs s) [
  | inr (e, s', refused) ↦ ground (arith, refused)
  | inl (passed, b) ↦ ground (
    arith,
    passed,
    b,
    zero-+ℤ (legs rs),
    pay_all-eq rs from (debited from (legs rs) s),
    debit-IsNonneg from (legs rs) s.balances v.nonneg,
    sum-debit from (legs rs) s.balances,
    +ℤ_cancel (sum s.balances) (legs rs),
    sum-credit_all rs (debited from (legs rs) s).balances,
    credit_all-IsNonneg rs from (debited from (legs rs) s).balances b,
    +ℤ-zero (supply s),
  )
]
