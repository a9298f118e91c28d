-- ===== src/Token/Governance.antt =====
-- The entries that the admin governs: the admin's own, the pause, the metadata and its keys.
use navin_contracts.Host.{◌>>=◌, add_or_trap, sub_or_trap, Env, Outcome, committed}
use navin_contracts.Token.State.{Token}
use navin_contracts.Token.Transfer.{transfer, transfer_from, batch_transfer, pay_all}
use navin_contracts.Token.Allowance.{approve, increase_allowance, decrease_allowance}
use navin_contracts.Token.Supply.{initialize, mint, admin_burn, burn, burn_from}
use navin_contracts.Token.Control.{transfer_admin, pause, unpause}
use navin_contracts.Token.Metadata.{
  add_allowed_metadata_key, remove_allowed_metadata_key, set_metadata, remove_metadata,
}
use navin_contracts.Token.Storage.{set_balance, get_balance}
use navin_contracts.Token.Batch.{legs, batch_total_cases}
use navin_contracts.Token.Calls.{Request, execute}
use navin_contracts.Prelude.{◌≡◌, some, false, arith, refl, ◌+ℤ◌, ◌-ℤ◌, ℕ, ℤ, List, ◌∷◌, []}

-- The admin's entries are as they were.
abbrev pub Governed : Token → Token → Type 0
Governed s s' =
    (s'.admin ≡ s.admin)
    × (s'.is_paused ≡ s.is_paused)
    × (s'.allowed_metadata_keys ≡ s.allowed_metadata_keys)
    × (s'.metadata ≡ s.metadata)

abbrev Governs : {E A : Type 0} → Token → Outcome Token E A → Type 0
Governs s o = Governed s (committed s o)

pay_all-Governs : (rs : List (ℕ × ℤ)) (s : Token) → Governs s (pay_all rs s)
unfolding ◌>>=◌ add_or_trap sub_or_trap pay_all
pay_all-Governs [] s = (refl, refl, refl, refl)
pay_all-Governs ((to, amount) ∷ rest) s =
    ground (arith, pay_all-Governs rest (set_balance to (get_balance to s +ℤ amount) s))

batch_transfer-Governs :
    (env : Env) (from : ℕ) (rs : List (ℕ × ℤ)) (s : Token)
    → Governs s (batch_transfer env from rs s)
unfolding ◌>>=◌ add_or_trap sub_or_trap batch_transfer
batch_transfer-Governs env from rs s = ground (
  arith,
  batch_total_cases from rs s,
  pay_all-Governs rs (set_balance from (get_balance from s -ℤ legs rs) s),
)

-- In an initialized contract, a call that the admin has not signed leaves the admin, the pause, the
-- allowed metadata keys and the metadata alone.
pub unsigned-Governed :
    (env : Env) (admin : ℕ) (r : Request) (s : Token)
    → s.admin ≡ some admin
    → env.authorized admin ≡ false
    → Governed s (execute env r s)
unfolding ◌>>=◌ add_or_trap sub_or_trap execute initialize transfer transfer_from approve
    increase_allowance decrease_allowance transfer_admin mint admin_burn burn burn_from pause
    unpause add_allowed_metadata_key remove_allowed_metadata_key set_metadata remove_metadata
unsigned-Governed env admin (Request.initialize d n y x) s i u = ground arith
unsigned-Governed env admin (Request.transfer f t x) s i u = ground arith
unsigned-Governed env admin (Request.transfer_from p f t x) s i u = ground arith
unsigned-Governed env admin (Request.approve f p x e) s i u = ground arith
unsigned-Governed env admin (Request.increase_allowance o p d) s i u = ground arith
unsigned-Governed env admin (Request.decrease_allowance o p d) s i u = ground arith
unsigned-Governed env admin (Request.transfer_admin c n) s i u = ground arith
unsigned-Governed env admin (Request.mint d t x) s i u = ground arith
unsigned-Governed env admin (Request.admin_burn d f x) s i u = ground arith
unsigned-Governed env admin (Request.burn f x) s i u = ground arith
unsigned-Governed env admin (Request.burn_from q f x) s i u = ground arith
unsigned-Governed env admin (Request.pause d) s i u = ground arith
unsigned-Governed env admin (Request.unpause d) s i u = ground arith
unsigned-Governed env admin (Request.batch_transfer f rs) s i u = batch_transfer-Governs env f rs s
unsigned-Governed env admin (Request.add_allowed_metadata_key d k) s i u = ground arith
unsigned-Governed env admin (Request.remove_allowed_metadata_key d k) s i u = ground arith
unsigned-Governed env admin (Request.set_metadata d k v) s i u = ground arith
unsigned-Governed env admin (Request.remove_metadata d k) s i u = ground arith
