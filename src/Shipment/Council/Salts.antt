-- ===== src/Shipment/Council/Salts.antt =====
-- A salt serves for one proposal.
use navin_contracts.Host.{◌>>=◌, Env, IsOk, invoke}
use navin_contracts.Host.Keeps.{Gives, IsOk-Gives}
use navin_contracts.Shipment.Data.{HostApi, AdminAction}
use navin_contracts.Shipment.Store.{Store}
use navin_contracts.Shipment.Council.{propose_action, propose_action_with_salt}
use navin_contracts.Prelude.{◌≡◌, true, arith, ℕ}

module _ {T : Type 0} (host : HostApi) (salt : ℕ) where
  salted_marks :
      (env : Env) (a : ℕ) (action : AdminAction) (s : Store T)
      → Gives
          (λ n s'. s'.council.used_salts salt ≡ true)
          (propose_action_with_salt host env a action salt s)
  unfolding ◌>>=◌ propose_action_with_salt propose_action
  salted_marks env a action s = ground arith

  marked_fails :
      (env : Env) (a : ℕ) (action : AdminAction) (s : Store T)
      → s.council.used_salts salt ≡ true
      → ¬ (IsOk (propose_action_with_salt host env a action salt s))
  unfolding ◌>>=◌ propose_action_with_salt
  marked_fails env a action s used = ground arith

-- After a proposal with a salt has been made, no proposal with the same salt succeeds in the storage
-- that is left, whoever makes it and whatever its action is.
pub propose_action_with_salt_once :
    {T : Type 0} (host : HostApi) (env later : Env) (a b salt : ℕ) (action other : AdminAction)
    (s : Store T)
    → IsOk (propose_action_with_salt host env a action salt s)
    → ¬ (
        IsOk (
          propose_action_with_salt host later b other salt
            (invoke (propose_action_with_salt host env a action salt) s)))
unfolding invoke
propose_action_with_salt_once host env later a b salt action other s done =
    marked_fails host salt later b other _ (
      IsOk-Gives (λ s'. s'.council.used_salts salt ≡ true) s _ done
        (salted_marks host salt env a action s))
