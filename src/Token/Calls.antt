-- ===== src/Token/Calls.antt =====
-- A contract call as a value, and what a sequence of calls leaves in storage. The host runs one
-- invocation at a time and discards the writes of one that fails (`invoke`).
use Prim.Native.String.{String}
use navin_contracts.Host.{Env, invoke}
use navin_contracts.Token.State.{Token}
use navin_contracts.Prelude.{ℤ, i128_max, List, ◌∷◌, ℕ, [], ◌≤ℤ◌}
use navin_contracts.Token.Transfer
use navin_contracts.Token.Allowance
use navin_contracts.Token.Supply
use navin_contracts.Token.Control
use navin_contracts.Token.Metadata

-- The entry points that write.
pub data Request : Type 0 where
  initialize : ℕ → String → String → ℤ → Request
  transfer : ℕ → ℕ → ℤ → Request
  transfer_from : ℕ → ℕ → ℕ → ℤ → Request
  approve : ℕ → ℕ → ℤ → ℕ → Request
  increase_allowance decrease_allowance : ℕ → ℕ → ℤ → Request
  transfer_admin : ℕ → ℕ → Request
  mint admin_burn : ℕ → ℕ → ℤ → Request
  burn : ℕ → ℤ → Request
  burn_from : ℕ → ℕ → ℤ → Request
  pause unpause : ℕ → Request
  batch_transfer : ℕ → List (ℕ × ℤ) → Request
  add_allowed_metadata_key remove_allowed_metadata_key : ℕ → String → Request
  set_metadata : ℕ → String → String → Request
  remove_metadata : ℕ → String → Request

unfoldable pub execute : Env → Request → Token → Token
unfolding invoke
execute env (Request.initialize a n y v) s = invoke (Supply.initialize env a n y v) s
execute env (Request.transfer f t x) s = invoke (Transfer.transfer env f t x) s
execute env (Request.transfer_from p f t x) s = invoke (Transfer.transfer_from env p f t x) s
execute env (Request.approve f p x e) s = invoke (Allowance.approve env f p x e) s
execute env (Request.increase_allowance o p d) s = invoke (Allowance.increase_allowance env o p d) s
execute env (Request.decrease_allowance o p d) s = invoke (Allowance.decrease_allowance env o p d) s
execute env (Request.transfer_admin c n) s = invoke (Control.transfer_admin env c n) s
execute env (Request.mint a t x) s = invoke (Supply.mint env a t x) s
execute env (Request.admin_burn a f x) s = invoke (Supply.admin_burn env a f x) s
execute env (Request.burn f x) s = invoke (Supply.burn env f x) s
execute env (Request.burn_from p f x) s = invoke (Supply.burn_from env p f x) s
execute env (Request.pause a) s = invoke (Control.pause env a) s
execute env (Request.unpause a) s = invoke (Control.unpause env a) s
execute env (Request.batch_transfer f rs) s = invoke (Transfer.batch_transfer env f rs) s
execute env (Request.add_allowed_metadata_key a k) s =
    invoke (Metadata.add_allowed_metadata_key env a k) s
execute env (Request.remove_allowed_metadata_key a k) s =
    invoke (Metadata.remove_allowed_metadata_key env a k) s
execute env (Request.set_metadata a k v) s = invoke (Metadata.set_metadata env a k v) s
execute env (Request.remove_metadata a k) s = invoke (Metadata.remove_metadata env a k) s

-- Calls one after the other, each with the environment that it meets.
unfoldable pub execute_all : List (Env × Request) → Token → Token
execute_all [] s = s
execute_all ((env, r) ∷ rest) s = execute_all rest (execute env r s)

-- The argument of `initialize` is an i128.
abbrev pub Fits : Request → Type 0
Fits (Request.initialize a n y v) = v ≤ℤ i128_max
Fits _ = Unit

abbrev pub AllFit : List (Env × Request) → Type 0
AllFit [] = Unit
AllFit ((env, r) ∷ rest) = Fits r × AllFit rest
