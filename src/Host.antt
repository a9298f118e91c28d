-- ===== src/Host.antt =====
-- What the contracts take from the Soroban host: the ledger that a call reads, authorization, and
-- the way an invocation ends. A contract function that returns an error has already written to its
-- storage; the host then discards all that the invocation wrote (`invoke`). A panic (an `unwrap` of
-- nothing, a failed `require_auth`, an arithmetic overflow under `overflow-checks`) is `trap`.
pub mod Keeps
pub mod Turns
use navin_contracts.Prelude.{Bool, ℕ, ℤ, Option, none, some, in_i128, ◌+ℤ◌, ◌-ℤ◌, true, false}

-- The environment of one invocation. `authorized a` says whether `a` has signed this call.
pub record Env : Type 0 where
  pub sequence : ℕ
  pub timestamp : ℕ
  pub authorized : ℕ → Bool

-- How a call ends: with a value, with an error of type `E`, or by a panic.
pub data Outcome (S E A : Type 0) : Type 0 where
  ok : A → S → Outcome S E A
  err : E → S → Outcome S E A
  trap : Outcome S E A

abbrev pub Action : Type 0 → Type 0 → Type 0 → Type 0
Action S E A = S → Outcome S E A

module _ {S E : Type 0} where
  unfoldable pub pure : {A : Type 0} → A → Action S E A
  pure a s = ok a s

  unfoldable pub gets : {A : Type 0} → (S → A) → Action S E A
  gets f s = ok (f s) s

  unfoldable pub modify : (S → S) → Action S E (Unit {0})
  modify f s = ok tt (f s)

  -- `if c { return Err(e); }`
  unfoldable pub fail_if : Bool → E → Action S E (Unit {0})
  fail_if true e s = err e s
  fail_if false e s = ok tt s

  -- `o.ok_or(e)?`
  unfoldable pub ok_or : {A : Type 0} → Option A → E → Action S E A
  ok_or none e s = err e s
  ok_or (some a) e s = ok a s

  -- `o.unwrap()`
  unfoldable pub unwrap : {A : Type 0} → Option A → Action S E A
  unwrap none s = trap
  unwrap (some a) s = ok a s

  -- A panic unless the test holds.
  unfoldable pub trap_unless : Bool → Action S E (Unit {0})
  trap_unless true s = ok tt s
  trap_unless false s = trap

  -- `a.require_auth()`
  unfoldable pub require_auth : Env → ℕ → Action S E (Unit {0})
  require_auth env a = trap_unless (env.authorized a)

  infixl 5 ◌>>=◌ ◌>>◌
  -- Opening this opens the steps above too.
  unfoldable pub ◌>>=◌ : {A B : Type 0} → Action S E A → (A → Action S E B) → Action S E B
  unfolding pure gets modify fail_if ok_or unwrap trap_unless require_auth
  ◌>>=◌ m f s = elim (m s) [ ok a s' ↦ f a s' | err e s' ↦ err e s' | trap ↦ trap ]

  abbrev pub ◌>>◌ : {B : Type 0} → Action S E (Unit {0}) → Action S E B → Action S E B
  m >> k = m >>= λ _. k

  -- `a + b` and `a - b` on i128 with `overflow-checks`
  unfoldable pub add_or_trap : ℤ → ℤ → Action S E ℤ
  unfolding ◌>>=◌
  add_or_trap a b = trap_unless (in_i128 (a +ℤ b)) >>= λ _. pure (a +ℤ b)

  unfoldable pub sub_or_trap : ℤ → ℤ → Action S E ℤ
  unfolding ◌>>=◌
  sub_or_trap a b = trap_unless (in_i128 (a -ℤ b)) >>= λ _. pure (a -ℤ b)

  -- The storage after an invocation: what was written counts only if the call returned `Ok`.
  abbrev pub committed : {A : Type 0} → S → Outcome S E A → S
  committed s (ok a s') = s'
  committed s (err e s') = s
  committed s trap = s

-- The call returned `Ok`.
abbrev pub IsOk : {S E A : Type 0} → Outcome S E A → Type 0
IsOk (ok a s) = Unit
IsOk (err e s) = ⊥
IsOk trap = ⊥

-- The storage that an invocation leaves.
unfoldable pub invoke : {S E A : Type 0} → Action S E A → S → S
invoke m s = committed s (m s)
