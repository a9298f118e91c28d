-- ===== src/Token/Authority.antt =====
-- Who can lower a balance, and what a paused contract still does.
use navin_contracts.Host.{◌>>=◌, add_or_trap, sub_or_trap, committed, Env, Outcome, ok, err, trap}
use navin_contracts.Token.Conservation.{
  remove_metadata-Same, set_metadata-Same, remove_allowed_metadata_key-Same,
  add_allowed_metadata_key-Same, unpause-Same, pause-Same, transfer_admin-Same,
  decrease_allowance-Same, increase_allowance-Same, approve-Same, Same,
}
use navin_contracts.Token.Calls.{execute, Request}
use navin_contracts.Token.Ledger.{
  sum, sum-debit, balance_of, balance_of-insert, balance_of_nonneg, balance_of-le-sum,
}
use navin_contracts.Token.Moves.{debit-IsNonneg}
use navin_contracts.Token.Batch.{legs, debited, pay_all-eq, credit_all, batch_total_cases, IsBatch}
use Prim.Native.String.{String}
use navin_contracts.Token.State.{Token}
use navin_contracts.Token.Storage.{get_allowance}
use navin_contracts.Token.Invariant.{IsValid}
use navin_contracts.Token.Transfer.{transfer, transfer_from, batch_transfer}
use navin_contracts.Token.Supply.{initialize, mint, burn, admin_burn, burn_from}
use navin_contracts.Prelude.{
  ◌≤ℤ◌, checked_add, insert, arith, ◌-ℤ◌, +ℤ_cancel, ℕ, [], some, List, ◌≡◌, Map, ℤ, ◌∷◌, ◌⊎◌, true,
  checked_sub, inr, ◌+ℤ◌, +ℤ-ge, inl,
}

-- The reasons for which a call may take tokens from account `a`: its holder signed, a spender with
-- a live allowance did, or the admin burns.
abbrev pub Consents : Env → ℕ → Request → Token → Type 0
Consents env a (Request.transfer f t x) s = (a ≡ f) × (env.authorized a ≡ true)
Consents env a (Request.transfer_from p f t x) s =
    (a ≡ f) × (env.authorized p ≡ true) × (x ≤ℤ get_allowance env f p s)
Consents env a (Request.batch_transfer f rs) s = (a ≡ f) × (env.authorized a ≡ true)
Consents env a (Request.burn f x) s = (a ≡ f) × (env.authorized a ≡ true)
Consents env a (Request.burn_from p f x) s =
    (a ≡ f) × (env.authorized p ≡ true) × (x ≤ℤ get_allowance env f p s)
Consents env a (Request.admin_burn d f x) s =
    (a ≡ f) × (env.authorized d ≡ true) × (s.admin ≡ some d)
Consents env a _ s = ⊥

-- What a call that began at `s` may have done to account `a`.
abbrev Guards : {E A : Type 0} → ℕ → Token → Type 0 → Outcome Token E A → Type 0
Guards a s C (ok _ s') = (balance_of a s.balances ≤ℤ balance_of a s'.balances) ⊎ C
Guards a s C (err e s') = Unit
Guards a s C trap = Unit

transfer-Guards :
    (env : Env) (a f t : ℕ) (x : ℤ) (s : Token)
    → Guards a s ((a ≡ f) × (env.authorized a ≡ true)) (transfer env f t x s)
unfolding ◌>>=◌ add_or_trap sub_or_trap transfer checked_sub checked_add
transfer-Guards env a f t x s = ground (
  arith,
  balance_of-insert a f (balance_of f s.balances -ℤ x) s.balances,
  balance_of-insert a t (balance_of t s.balances +ℤ x)
      (insert f (balance_of f s.balances -ℤ x) s.balances),
  +ℤ-ge (balance_of t s.balances) x,
)

transfer_from-Guards :
    (env : Env) (a p f t : ℕ) (x : ℤ) (s : Token)
    → Guards a s
        ((a ≡ f) × (env.authorized p ≡ true) × (x ≤ℤ get_allowance env f p s))
        (transfer_from env p f t x s)
unfolding ◌>>=◌ add_or_trap sub_or_trap transfer_from
transfer_from-Guards env a p f t x s = ground (
  arith,
  balance_of-insert a f (balance_of f s.balances -ℤ x) s.balances,
  balance_of-insert t f (balance_of f s.balances -ℤ x) s.balances,
  balance_of-insert a t (balance_of t s.balances +ℤ x)
      (insert f (balance_of f s.balances -ℤ x) s.balances),
  +ℤ-ge (balance_of t s.balances) x,
)

mint-Guards : (env : Env) (a d t : ℕ) (x : ℤ) (s : Token) → Guards a s ⊥ (mint env d t x s)
unfolding ◌>>=◌ add_or_trap sub_or_trap mint checked_add
mint-Guards env a d t x s = ground (
  arith,
  balance_of-insert a t (balance_of t s.balances +ℤ x) s.balances,
  +ℤ-ge (balance_of t s.balances) x,
)

burn-Guards :
    (env : Env) (a f : ℕ) (x : ℤ) (s : Token)
    → Guards a s ((a ≡ f) × (env.authorized a ≡ true)) (burn env f x s)
unfolding ◌>>=◌ add_or_trap sub_or_trap burn
burn-Guards env a f x s =
    ground (arith, balance_of-insert a f (balance_of f s.balances -ℤ x) s.balances)

burn_from-Guards :
    (env : Env) (a p f : ℕ) (x : ℤ) (s : Token)
    → Guards a s
        ((a ≡ f) × (env.authorized p ≡ true) × (x ≤ℤ get_allowance env f p s))
        (burn_from env p f x s)
unfolding ◌>>=◌ add_or_trap sub_or_trap burn_from
burn_from-Guards env a p f x s =
    ground (arith, balance_of-insert a f (balance_of f s.balances -ℤ x) s.balances)

admin_burn-Guards :
    (env : Env) (a d f : ℕ) (x : ℤ) (s : Token)
    → Guards a s ((a ≡ f) × (env.authorized d ≡ true) × (s.admin ≡ some d)) (admin_burn env d f x s)
unfolding ◌>>=◌ add_or_trap sub_or_trap admin_burn checked_sub
admin_burn-Guards env a d f x s =
    ground (arith, balance_of-insert a f (balance_of f s.balances -ℤ x) s.balances)

initialize-Guards :
    (env : Env) (a d : ℕ) (n y : String) (v : ℤ) (s : Token)
    → IsValid s
    → Guards a s ⊥ (initialize env d n y v s)
unfolding ◌>>=◌ add_or_trap sub_or_trap initialize
initialize-Guards env a d n y v s valid = ground (
  arith,
  balance_of-insert a d v s.balances,
  balance_of_nonneg a s.balances,
  balance_of-le-sum a s.balances,
)

-- Crediting lowers no balance.
credit_all-ge :
    (a from : ℕ) (rs : List (ℕ × ℤ)) (m : Map ℤ)
    → IsBatch from rs
    → balance_of a m ≤ℤ balance_of a (credit_all rs m)
credit_all-ge a from [] m b = omega arith
credit_all-ge a from ((to, amount) ∷ rest) m b = ground (
  arith,
  credit_all-ge a from rest (insert to (balance_of to m +ℤ amount) m) b.2,
  balance_of-insert a to (balance_of to m +ℤ amount) m,
  +ℤ-ge (balance_of to m) amount,
)

batch_transfer-Guards :
    (env : Env) (a f : ℕ) (rs : List (ℕ × ℤ)) (s : Token)
    → IsValid s
    → Guards a s ((a ≡ f) × (env.authorized a ≡ true)) (batch_transfer env f rs s)
unfolding ◌>>=◌ add_or_trap sub_or_trap batch_transfer
batch_transfer-Guards env a f rs s v = elim (batch_total_cases f rs s) [
  | inr (e, s', refused) ↦ ground (arith, refused)
  | inl (passed, b) ↦ ground (
    arith,
    passed,
    b,
    pay_all-eq rs f (debited f (legs rs) s),
    debit-IsNonneg f (legs rs) s.balances v.nonneg,
    sum-debit f (legs rs) s.balances,
    +ℤ_cancel (sum s.balances) (legs rs),
    credit_all-ge a f rs (debited f (legs rs) s).balances b,
    balance_of-insert a f (balance_of f s.balances -ℤ legs rs) s.balances,
  )
]

committed-Guards :
    {E A : Type 0} (a : ℕ) (s : Token) (C : Type 0) (o : Outcome Token E A)
    → ¬ (balance_of a s.balances ≤ℤ balance_of a (committed s o).balances)
    → Guards a s C o
    → C
committed-Guards a s C (ok _ s') low (inl le) = absurd (low le)
committed-Guards a s C (ok _ s') low (inr c) = c
committed-Guards a s C (err e s') low g = absurd (low (omega arith))
committed-Guards a s C trap low g = absurd (low (omega arith))

Same-absurd :
    {E A : Type 0} (a : ℕ) (s : Token) (o : Outcome Token E A)
    → ¬ (balance_of a s.balances ≤ℤ balance_of a (committed s o).balances)
    → Same s o
    → ⊥
Same-absurd a s (ok _ s') low same = low (rw (same.0) (omega arith))
Same-absurd a s (err e s') low same = low (omega arith)
Same-absurd a s trap low same = low (omega arith)

-- In a valid state a call lowers the balance of an account only if the account's holder signed it,
-- a spender signed it whose live allowance covers the amount, or the admin signed a clawback burn.
pub lowered-Consents :
    (env : Env) (a : ℕ) (r : Request) (s : Token)
    → IsValid s
    → ¬ (balance_of a s.balances ≤ℤ balance_of a (execute env r s).balances)
    → Consents env a r s
unfolding ◌>>=◌ add_or_trap sub_or_trap execute
lowered-Consents env a (Request.initialize d n y x) s v low =
    committed-Guards a s _ _ low (initialize-Guards env a d n y x s v)
lowered-Consents env a (Request.transfer f t x) s v low =
    committed-Guards a s _ _ low (transfer-Guards env a f t x s)
lowered-Consents env a (Request.transfer_from p f t x) s v low =
    committed-Guards a s _ _ low (transfer_from-Guards env a p f t x s)
lowered-Consents env a (Request.approve f p x e) s v low =
    Same-absurd a s _ low (approve-Same env f p x e s)
lowered-Consents env a (Request.increase_allowance o p d) s v low =
    Same-absurd a s _ low (increase_allowance-Same env o p d s)
lowered-Consents env a (Request.decrease_allowance o p d) s v low =
    Same-absurd a s _ low (decrease_allowance-Same env o p d s)
lowered-Consents env a (Request.transfer_admin c n) s v low =
    Same-absurd a s _ low (transfer_admin-Same env c n s)
lowered-Consents env a (Request.mint d t x) s v low =
    committed-Guards a s _ _ low (mint-Guards env a d t x s)
lowered-Consents env a (Request.admin_burn d f x) s v low =
    committed-Guards a s _ _ low (admin_burn-Guards env a d f x s)
lowered-Consents env a (Request.burn f x) s v low =
    committed-Guards a s _ _ low (burn-Guards env a f x s)
lowered-Consents env a (Request.burn_from p f x) s v low =
    committed-Guards a s _ _ low (burn_from-Guards env a p f x s)
lowered-Consents env a (Request.pause d) s v low = Same-absurd a s _ low (pause-Same env d s)
lowered-Consents env a (Request.unpause d) s v low = Same-absurd a s _ low (unpause-Same env d s)
lowered-Consents env a (Request.batch_transfer f rs) s v low =
    committed-Guards a s _ _ low (batch_transfer-Guards env a f rs s v)
lowered-Consents env a (Request.add_allowed_metadata_key d k) s v low =
    Same-absurd a s _ low (add_allowed_metadata_key-Same env d k s)
lowered-Consents env a (Request.remove_allowed_metadata_key d k) s v low =
    Same-absurd a s _ low (remove_allowed_metadata_key-Same env d k s)
lowered-Consents env a (Request.set_metadata d k x) s v low =
    Same-absurd a s _ low (set_metadata-Same env d k x s)
lowered-Consents env a (Request.remove_metadata d k) s v low =
    Same-absurd a s _ low (remove_metadata-Same env d k s)
