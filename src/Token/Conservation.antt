-- ===== src/Token/Conservation.antt =====
-- After any calls the balances add up to the total supply.
use navin_contracts.Host.{◌>>=◌, add_or_trap, sub_or_trap, Env, Outcome, committed, ok, err, trap}
use Prim.Native.String.{String}
use navin_contracts.Prelude.{pos, ℤ, ◌-ℤ◌, ◌≡◌, List, ◌∷◌, ℕ, is_some, [], arith}
use navin_contracts.Token.State.{Token, deployed}
use navin_contracts.Token.Invariant.{IsValid, Moves}
use navin_contracts.Token.Allowance.{approve, increase_allowance, decrease_allowance}
use navin_contracts.Token.Control.{transfer_admin, pause, unpause}
use navin_contracts.Token.Metadata.{
  add_allowed_metadata_key, remove_allowed_metadata_key, set_metadata, remove_metadata,
}
use navin_contracts.Token.Moves.{
  transfer-Moves, transfer_from-Moves, mint-Moves, admin_burn-Moves, burn-Moves, burn_from-Moves,
  initialize-Moves,
}
use navin_contracts.Token.Batch.{batch_transfer-Moves}
use navin_contracts.Token.Calls.{Request, execute, execute_all, Fits, AllFit}

-- The call leaves the ledger alone: the balances, the supply and whether there is an admin.
abbrev pub Same : {E A : Type 0} → Token → Outcome Token E A → Type 0
Same s (ok a s') =
    (s'.balances ≡ s.balances)
    × (s'.total_supply ≡ s.total_supply)
    × (is_some s'.admin ≡ is_some s.admin)
Same s (err e s') = Unit
Same s trap = Unit

committed-IsValid :
    {E A : Type 0} (s : Token) (c : ℤ) (o : Outcome Token E A)
    → IsValid s
    → Moves s c o
    → IsValid (committed s o)
committed-IsValid s c (ok a s') v m = m.0
committed-IsValid s c (err e s') v m = v
committed-IsValid s c trap v m = v

Same-IsValid :
    {E A : Type 0} (s : Token) (o : Outcome Token E A)
    → IsValid s
    → Same s o
    → IsValid (committed s o)
Same-IsValid s (ok a s') v m = ground arith
Same-IsValid s (err e s') v m = v
Same-IsValid s trap v m = v

pub approve-Same :
    (env : Env) (f p : ℕ) (x : ℤ) (e : ℕ) (s : Token) → Same s (approve env f p x e s)
unfolding ◌>>=◌ add_or_trap sub_or_trap approve
approve-Same env f p x e s = ground arith

pub increase_allowance-Same :
    (env : Env) (o p : ℕ) (d : ℤ) (s : Token) → Same s (increase_allowance env o p d s)
unfolding ◌>>=◌ add_or_trap sub_or_trap increase_allowance
increase_allowance-Same env o p d s = ground arith

pub decrease_allowance-Same :
    (env : Env) (o p : ℕ) (d : ℤ) (s : Token) → Same s (decrease_allowance env o p d s)
unfolding ◌>>=◌ add_or_trap sub_or_trap decrease_allowance
decrease_allowance-Same env o p d s = ground arith

pub transfer_admin-Same : (env : Env) (c n : ℕ) (s : Token) → Same s (transfer_admin env c n s)
unfolding ◌>>=◌ add_or_trap sub_or_trap transfer_admin
transfer_admin-Same env c n s = ground arith

pub pause-Same : (env : Env) (a : ℕ) (s : Token) → Same s (pause env a s)
unfolding ◌>>=◌ add_or_trap sub_or_trap pause
pause-Same env a s = ground arith

pub unpause-Same : (env : Env) (a : ℕ) (s : Token) → Same s (unpause env a s)
unfolding ◌>>=◌ add_or_trap sub_or_trap unpause
unpause-Same env a s = ground arith

pub add_allowed_metadata_key-Same :
    (env : Env) (a : ℕ) (k : String) (s : Token) → Same s (add_allowed_metadata_key env a k s)
unfolding ◌>>=◌ add_or_trap sub_or_trap add_allowed_metadata_key
add_allowed_metadata_key-Same env a k s = ground arith

pub remove_allowed_metadata_key-Same :
    (env : Env) (a : ℕ) (k : String) (s : Token) → Same s (remove_allowed_metadata_key env a k s)
unfolding ◌>>=◌ add_or_trap sub_or_trap remove_allowed_metadata_key
remove_allowed_metadata_key-Same env a k s = ground arith

pub set_metadata-Same :
    (env : Env) (a : ℕ) (k v : String) (s : Token) → Same s (set_metadata env a k v s)
unfolding ◌>>=◌ add_or_trap sub_or_trap set_metadata
set_metadata-Same env a k v s = ground arith

pub remove_metadata-Same :
    (env : Env) (a : ℕ) (k : String) (s : Token) → Same s (remove_metadata env a k s)
unfolding ◌>>=◌ add_or_trap sub_or_trap remove_metadata
remove_metadata-Same env a k s = ground arith

-- Every entry point keeps the invariant.
pub execute-IsValid :
    (env : Env) (r : Request) (s : Token) → Fits r → IsValid s → IsValid (execute env r s)
unfolding ◌>>=◌ add_or_trap sub_or_trap execute
execute-IsValid env (Request.initialize a n y x) s fit v =
    committed-IsValid s x _ v (initialize-Moves env a n y x s fit v)
execute-IsValid env (Request.transfer f t x) s fit v =
    committed-IsValid s (pos 0) _ v (transfer-Moves env f t x s v)
execute-IsValid env (Request.transfer_from p f t x) s fit v =
    committed-IsValid s (pos 0) _ v (transfer_from-Moves env p f t x s v)
execute-IsValid env (Request.approve f p x e) s fit v =
    Same-IsValid s _ v (approve-Same env f p x e s)
execute-IsValid env (Request.increase_allowance o p d) s fit v =
    Same-IsValid s _ v (increase_allowance-Same env o p d s)
execute-IsValid env (Request.decrease_allowance o p d) s fit v =
    Same-IsValid s _ v (decrease_allowance-Same env o p d s)
execute-IsValid env (Request.transfer_admin c n) s fit v =
    Same-IsValid s _ v (transfer_admin-Same env c n s)
execute-IsValid env (Request.mint a t x) s fit v =
    committed-IsValid s x _ v (mint-Moves env a t x s v)
execute-IsValid env (Request.admin_burn a f x) s fit v =
    committed-IsValid s (pos 0 -ℤ x) _ v (admin_burn-Moves env a f x s v)
execute-IsValid env (Request.burn f x) s fit v =
    committed-IsValid s (pos 0 -ℤ x) _ v (burn-Moves env f x s v)
execute-IsValid env (Request.burn_from p f x) s fit v =
    committed-IsValid s (pos 0 -ℤ x) _ v (burn_from-Moves env p f x s v)
execute-IsValid env (Request.pause a) s fit v = Same-IsValid s _ v (pause-Same env a s)
execute-IsValid env (Request.unpause a) s fit v = Same-IsValid s _ v (unpause-Same env a s)
execute-IsValid env (Request.batch_transfer f rs) s fit v =
    committed-IsValid s (pos 0) _ v (batch_transfer-Moves env f rs s v)
execute-IsValid env (Request.add_allowed_metadata_key a k) s fit v =
    Same-IsValid s _ v (add_allowed_metadata_key-Same env a k s)
execute-IsValid env (Request.remove_allowed_metadata_key a k) s fit v =
    Same-IsValid s _ v (remove_allowed_metadata_key-Same env a k s)
execute-IsValid env (Request.set_metadata a k x) s fit v =
    Same-IsValid s _ v (set_metadata-Same env a k x s)
execute-IsValid env (Request.remove_metadata a k) s fit v =
    Same-IsValid s _ v (remove_metadata-Same env a k s)

execute_all-IsValid :
    (calls : List (Env × Request)) (s : Token)
    → AllFit calls
    → IsValid s
    → IsValid (execute_all calls s)
unfolding ◌>>=◌ add_or_trap sub_or_trap execute_all
execute_all-IsValid [] s fit v = v
execute_all-IsValid ((env, r) ∷ rest) s fit v =
    execute_all-IsValid rest (execute env r s) fit.1 (execute-IsValid env r s fit.0 v)

deployed-IsValid : IsValid deployed
deployed-IsValid = ground arith

-- After any sequence of calls on a new contract, failed ones included, whose initial supplies are at
-- most the maximum of i128, no balance is negative and the balances add up to the total supply,
-- which is at most that maximum and stored once there is an admin.
pub reachable-IsValid :
    (calls : List (Env × Request)) → AllFit calls → IsValid (execute_all calls deployed)
reachable-IsValid calls fit = execute_all-IsValid calls deployed fit deployed-IsValid
