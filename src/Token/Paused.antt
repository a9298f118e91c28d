-- ===== src/Token/Paused.antt =====
-- What a paused token contract still does.
use navin_contracts.Host.{◌>>=◌, add_or_trap, sub_or_trap, Env, Outcome, committed, ok, err, trap}
use navin_contracts.Token.Conservation.{
  remove_metadata-Same, set_metadata-Same, remove_allowed_metadata_key-Same,
  add_allowed_metadata_key-Same, unpause-Same, pause-Same, transfer_admin-Same,
  decrease_allowance-Same, increase_allowance-Same, approve-Same, Same,
}
use Prim.Native.String.{String}
use navin_contracts.Token.State.{Token}
use navin_contracts.Token.Transfer.{transfer, transfer_from, batch_transfer}
use navin_contracts.Token.Supply.{initialize, mint, burn, admin_burn, burn_from}
use navin_contracts.Token.Calls.{Request, execute}
use navin_contracts.Prelude.{ℤ, true, ℕ, ◌≡◌, List, is_some, arith, refl}

-- The ledger after a call is the one before it.
abbrev pub Frozen : Token → Token → Type 0
Frozen s s' = (s'.balances ≡ s.balances) × (s'.total_supply ≡ s.total_supply)

Same-Frozen :
    {E A : Type 0} (s : Token) (o : Outcome Token E A) → Same s o → Frozen s (committed s o)
Same-Frozen s (ok a s') m = (m.0, m.1)
Same-Frozen s (err e s') m = (refl, refl)
Same-Frozen s trap m = (refl, refl)

module _ (env : Env) (s : Token) (i : is_some s.admin ≡ true) (p : s.is_paused ≡ true) where
  transfer_paused : (f t : ℕ) (x : ℤ) → Frozen s (committed s (transfer env f t x s))
  unfolding ◌>>=◌ add_or_trap sub_or_trap transfer
  transfer_paused f t x = ground arith

  transfer_from_paused :
      (sp f t : ℕ) (x : ℤ) → Frozen s (committed s (transfer_from env sp f t x s))
  unfolding ◌>>=◌ add_or_trap sub_or_trap transfer_from
  transfer_from_paused sp f t x = ground arith

  batch_transfer_paused :
      (f : ℕ) (rs : List (ℕ × ℤ)) → Frozen s (committed s (batch_transfer env f rs s))
  unfolding ◌>>=◌ add_or_trap sub_or_trap batch_transfer
  batch_transfer_paused f rs = ground arith

  mint_paused : (a t : ℕ) (x : ℤ) → Frozen s (committed s (mint env a t x s))
  unfolding ◌>>=◌ add_or_trap sub_or_trap mint
  mint_paused a t x = ground arith

  admin_burn_paused : (a f : ℕ) (x : ℤ) → Frozen s (committed s (admin_burn env a f x s))
  unfolding ◌>>=◌ add_or_trap sub_or_trap admin_burn
  admin_burn_paused a f x = ground arith

  burn_paused : (f : ℕ) (x : ℤ) → Frozen s (committed s (burn env f x s))
  unfolding ◌>>=◌ add_or_trap sub_or_trap burn
  burn_paused f x = ground arith

  burn_from_paused : (sp f : ℕ) (x : ℤ) → Frozen s (committed s (burn_from env sp f x s))
  unfolding ◌>>=◌ add_or_trap sub_or_trap burn_from
  burn_from_paused sp f x = ground arith

  initialize_again :
      (a : ℕ) (n y : String) (v : ℤ) → Frozen s (committed s (initialize env a n y v s))
  unfolding ◌>>=◌ add_or_trap sub_or_trap initialize
  initialize_again a n y v = ground arith

-- While an initialized contract is paused, no call changes a balance or the supply.
pub execute-Frozen :
    (env : Env) (r : Request) (s : Token)
    → is_some s.admin ≡ true
    → s.is_paused ≡ true
    → Frozen s (execute env r s)
unfolding ◌>>=◌ add_or_trap sub_or_trap execute
execute-Frozen env (Request.initialize d n y x) s i p = initialize_again env s i p d n y x
execute-Frozen env (Request.transfer f t x) s i p = transfer_paused env s i p f t x
execute-Frozen env (Request.transfer_from q f t x) s i p = transfer_from_paused env s i p q f t x
execute-Frozen env (Request.approve f q x e) s i p = Same-Frozen s _ (approve-Same env f q x e s)
execute-Frozen env (Request.increase_allowance o q d) s i p =
    Same-Frozen s _ (increase_allowance-Same env o q d s)
execute-Frozen env (Request.decrease_allowance o q d) s i p =
    Same-Frozen s _ (decrease_allowance-Same env o q d s)
execute-Frozen env (Request.transfer_admin c n) s i p =
    Same-Frozen s _ (transfer_admin-Same env c n s)
execute-Frozen env (Request.mint d t x) s i p = mint_paused env s i p d t x
execute-Frozen env (Request.admin_burn d f x) s i p = admin_burn_paused env s i p d f x
execute-Frozen env (Request.burn f x) s i p = burn_paused env s i p f x
execute-Frozen env (Request.burn_from q f x) s i p = burn_from_paused env s i p q f x
execute-Frozen env (Request.pause d) s i p = Same-Frozen s _ (pause-Same env d s)
execute-Frozen env (Request.unpause d) s i p = Same-Frozen s _ (unpause-Same env d s)
execute-Frozen env (Request.batch_transfer f rs) s i p = batch_transfer_paused env s i p f rs
execute-Frozen env (Request.add_allowed_metadata_key d k) s i p =
    Same-Frozen s _ (add_allowed_metadata_key-Same env d k s)
execute-Frozen env (Request.remove_allowed_metadata_key d k) s i p =
    Same-Frozen s _ (remove_allowed_metadata_key-Same env d k s)
execute-Frozen env (Request.set_metadata d k x) s i p =
    Same-Frozen s _ (set_metadata-Same env d k x s)
execute-Frozen env (Request.remove_metadata d k) s i p =
    Same-Frozen s _ (remove_metadata-Same env d k s)
