-- ===== src/Shipment/Audit/History.antt =====
-- The audit log as a list of entries, to which each logged event adds one at the end.
use navin_contracts.Host.Keeps.{IsOk-committed, Ends}
use navin_contracts.Host.{IsOk, Env, ◌>>=◌, invoke}
use navin_contracts.Shipment.Audit.{
  cleanup_audit_logs, new_entry, Store, AuditEventType, query_audit_history_by_actor,
  query_audit_history_for_target, query_audit_history, log_entry, purge, collect, store_audit_entry,
}
use mathlib.Core.List.{append-nil}
use navin_contracts.Shipment.Data.{AuditLogEntry, AuditLog}
use navin_contracts.Shipment.Store.{u32_max}
use navin_contracts.Prelude.{
  ℕ, zero, suc, [], ◌∷◌, ◌++◌, Option, some, Bool, ◌==◌, ◌≤◌, ◌<◌, if◌then◌else◌, ◌≡◌, refl, arith,
  not, ltb, leb, ◌&&◌, none, ap, fun_ext, ◌∙◌,
}

module _ (p : AuditLogEntry → Bool) where
  -- The entries at and after the count do not matter.
  collect-below :
      (get : ℕ → Option AuditLogEntry) (k : ℕ) (o : Option AuditLogEntry) (n : ℕ)
      → n ≤ k
      → collect p (λ j. if j == k then o else get j) n ≡ collect p get n
  unfolding collect
  collect-below get k o zero h = refl
  collect-below get k o (suc n) h = ground (arith, collect-below get k o n)

  -- The entry at the count is the last one.
  collect-at :
      (get : ℕ → Option AuditLogEntry) (n : ℕ) (e : AuditLogEntry)
      → collect p (λ j. if j == n then some e else get j) (suc n)
        ≡ collect p get n ++ (if p e then e ∷ [] else [])
  unfolding collect
  collect-at get n e = ground (arith, collect-below get n (some e) n, append-nil (collect p get n))

  collect-stored :
      (e : AuditLogEntry) (log : AuditLog)
      → e.entry_id ≡ log.entry_count
      → log.entry_count < u32_max
      → let log' = store_audit_entry e log in
        collect p log'.entries log'.entry_count
        ≡ collect p log.entries log.entry_count ++ (if p e then e ∷ [] else [])
  collect-stored e log i h = ground (arith, collect-at log.entries log.entry_count e)

-- A logged event adds one entry, with the caller's facts, at the end of each history that it belongs
-- to and to no other, while the count is below the largest u32.
pub log_entry-appends :
    {T : Type 0} (env : Env) (event_type : AuditEventType) (actor target : ℕ) (s : Store T)
    (start_time end_time a : ℕ)
    → s.audit.entry_count < u32_max
    → let e = new_entry env event_type actor target s.audit in
      let s' = invoke (log_entry env event_type actor target) s in
      (query_audit_history start_time end_time s'.audit
        ≡ query_audit_history start_time end_time s.audit
          ++ (if leb start_time env.timestamp && leb env.timestamp end_time then e ∷ [] else []))
      × (query_audit_history_for_target a s'.audit
          ≡ query_audit_history_for_target a s.audit ++ (if target == a then e ∷ [] else []))
      × (query_audit_history_by_actor a s'.audit
          ≡ query_audit_history_by_actor a s.audit ++ (if actor == a then e ∷ [] else []))
unfolding ◌>>=◌ invoke log_entry query_audit_history query_audit_history_for_target
    query_audit_history_by_actor
log_entry-appends env event_type actor target s start_time end_time a h =
    let e = new_entry env event_type actor target s.audit in
    (
      collect-stored _ e s.audit refl h,
      collect-stored _ e s.audit refl h,
      collect-stored _ e s.audit refl h,
    )

-- What the loop of the clean-up leaves and how many it removes.
purge-above :
    (before : ℕ) (get : ℕ → Option AuditLogEntry) (n k : ℕ)
    → n ≤ k
    → (purge before get n).0 k ≡ get k
unfolding purge
purge-above before get zero k h = refl
purge-above before get (suc n) k h =
    ground (arith, purge-above before get n k, purge-above before get n n)

collect-purge :
    (p : AuditLogEntry → Bool) (before : ℕ) (get : ℕ → Option AuditLogEntry) (n : ℕ)
    → collect p (purge before get n).0 n ≡ collect (λ e. p e && not (ltb e.timestamp before)) get n
unfolding collect purge
collect-purge p before get zero = refl
collect-purge p before get (suc n) =
    let done = purge before get n in
    ground (
      arith,
      purge-above before get n n,
      collect-purge p before get n,
      collect-below p done.0 n none n,
    )

collect_agrees :
    (p q : AuditLogEntry → Bool) (get : ℕ → Option AuditLogEntry) (n : ℕ)
    → ((e : AuditLogEntry) → p e ≡ q e)
    → collect p get n ≡ collect q get n
collect_agrees p q get n h = ap (λ t. collect t get n) (fun_ext h)

cleanup_audit_logs-purge :
    {T : Type 0} (env : Env) (admin before : ℕ) (s : Store T)
    → Ends
        (λ s'.
          s'.audit
          ≡ record s.audit { entries = (purge before s.audit.entries s.audit.entry_count).0 })
        (cleanup_audit_logs env admin before s)
unfolding ◌>>=◌ cleanup_audit_logs
cleanup_audit_logs-purge env admin before s = ground arith

no_older :
    (before start_time end_time ts : ℕ)
    → ((leb start_time ts && leb ts end_time) && not (ltb ts before))
      ≡ (leb (if leb before start_time then start_time else before) ts && leb ts end_time)
no_older before start_time end_time ts = ground arith

-- After a clean-up that succeeds, every history is what the history before it was from the limit
-- on: the entries from before the limit are gone from it, and no other.
pub query_audit_history-cleanup :
    {T : Type 0} (env : Env) (admin before start_time end_time : ℕ) (s : Store T)
    → IsOk (cleanup_audit_logs env admin before s)
    → query_audit_history start_time end_time (invoke (cleanup_audit_logs env admin before) s).audit
      ≡ query_audit_history (if leb before start_time then start_time else before) end_time s.audit
unfolding invoke query_audit_history
query_audit_history-cleanup env admin before start_time end_time s ok =
    let get = s.audit.entries in
    let n = s.audit.entry_count in
    let e = IsOk-committed _ s _ ok (cleanup_audit_logs-purge env admin before s) in
    rw e (
      collect-purge _ before get n
      ∙ collect_agrees _ _ get n (λ x. no_older before start_time end_time x.timestamp))
