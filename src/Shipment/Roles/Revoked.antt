-- ===== src/Shipment/Roles/Revoked.antt =====
-- What a revocation takes away, and what it cannot.
use navin_contracts.Shipment.Roles.{is_unassigned, revoke_role, primary_role}
use navin_contracts.Shipment.Audit.{log_entry}
use navin_contracts.Host.Keeps.{Ends-committed, Ends, IsOk-committed}
use navin_contracts.Host.{Env, invoke, IsOk, ◌>>=◌}
use navin_contracts.Shipment.Data.{Role}
use navin_contracts.Shipment.Store.{Store, role_eq}
use navin_contracts.Prelude.{ℕ, false, ◌≡◌, arith, refl, if◌then◌else◌, not, ◌==◌, ◌&&◌}

module _ {T : Type 0} (env : Env) (admin target : ℕ) where
  -- Who has which role, and which is the primary one, after a revocation of `target`'s.
  abbrev pub Taken : ℕ → Role → Store T → Store T → Type 0
  Taken k r s s' =
      let lost = primary_role target s in
      (s'.user_role k r ≡ (
        if k == target && role_eq r lost && not (is_unassigned lost)
        then false
        else s.user_role k r))
      × (primary_role k s' ≡ (if k == target then Role.unassigned else primary_role k s))

  revoke_role_takes :
      (k : ℕ) (r : Role) (s : Store T) → Ends (Taken k r s) (revoke_role env admin target s)
  unfolding ◌>>=◌ revoke_role log_entry
  revoke_role_takes k r s = ground arith

  revoke_role_idle :
      (s : Store T)
      → primary_role target s ≡ Role.unassigned
      → Ends (λ s'. s'.user_role ≡ s.user_role) (revoke_role env admin target s)
  unfolding ◌>>=◌ revoke_role log_entry
  revoke_role_idle s e = ground arith

-- A revocation that succeeds takes from the address its primary role, if it has one, and leaves it
-- with none as the primary one. It takes nothing else, from this address or another one, and leaves
-- the primary roles of the others. Whoever revokes a role of the same address after it takes nothing.
pub revoke_role_once :
    {T : Type 0} (env later : Env) (admin next target k : ℕ) (r : Role) (s : Store T)
    → IsOk (revoke_role env admin target s)
    → let s' = invoke (revoke_role env admin target) s in
      let lost = primary_role target s in
      (s'.user_role k r ≡ (
        if k == target && role_eq r lost && not (is_unassigned lost)
        then false
        else s.user_role k r))
      × (primary_role k s' ≡ (if k == target then Role.unassigned else primary_role k s))
      × ((invoke (revoke_role later next target) s').user_role ≡ s'.user_role)
unfolding invoke
revoke_role_once env later admin next target k r s ok =
    let h = IsOk-committed _ s _ ok (revoke_role_takes env admin target k r s) in
    let own = IsOk-committed _ s _ ok (revoke_role_takes env admin target target r s) in
    (
      h.0,
      h.1,
      Ends-committed (λ s2. s2.user_role ≡ (invoke (revoke_role env admin target) s).user_role) _
          (revoke_role later next target (invoke (revoke_role env admin target) s)) refl
          (revoke_role_idle later next target _ (ground (arith, own.1))),
    )
