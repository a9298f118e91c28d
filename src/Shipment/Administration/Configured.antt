-- ===== src/Shipment/Administration/Configured.antt =====
-- The settings that the administration leaves: whatever it is told, they are in their bounds.
use navin_contracts.Shipment.Breaker.Config.{resolve-IsSane, IsSane}
use navin_contracts.Host.Turns.{
  Turns-ok_or, Turns-Keeps, Turns-guard, Turns-step, Keeps-Turns, Turns,
}
use navin_contracts.Host.Keeps.{
  committed-Keeps, Keeps, Keeps-pure, Keeps-gets, Keeps-modify, Keeps-fail_if, Keeps-ok_or,
  Keeps-unwrap, Keeps-trap_unless, Keeps-require_auth, Keeps-if, Keeps-bind,
}
use navin_contracts.Host.{invoke, gets, Env, ◌>>=◌, modify}
use navin_contracts.Shipment.Administration.{
  set_circuit_breaker_config, set_creation_quota_config, set_platform_fee, update_config,
  reset_circuit_breaker, unpause, pause, set_company_shipment_limit, set_shipment_limit, Call,
  initialize, set_config,
}
use navin_contracts.Shipment.Config.{
  outside, none_of, ContractConfig, default_contract_config, validate_config,
}
use navin_contracts.Shipment.Errors.{NavinError}
use navin_contracts.Shipment.Config.Bounds.{IsInBounds, validate_config_iff}
use navin_contracts.Shipment.Breaker.{CircuitBreakerConfig, CircuitBreakerPreset}
use navin_contracts.Shipment.Data.{HostApi, FeeConfig}
use navin_contracts.Shipment.Store.{Store}
use navin_contracts.Shipment.Progress.{get_contract_config}
use navin_contracts.Prelude.{
  ℕ, Option, some, ◌≤◌, ◌≡◌, refl, sym, ◌∙◌, ap, get_or, none, ltb, arith, false, Bool, [], ◌∷◌,
  List, true, not,
}

-- A call of one of the handlers; the first argument is the caller.
pub data Order : Type 0 where
  begin : ℕ → ℕ → Order
  limit : ℕ → ℕ → Order
  limit_company : ℕ → ℕ → ℕ → Order
  stop resume reset : ℕ → Order
  configure : ℕ → ContractConfig → Order
  charge : ℕ → ℕ → ℕ → Order
  ration : ℕ → ℕ → ℕ → Order
  tune : ℕ → CircuitBreakerPreset → Order

-- What is stored of the configuration is in the documented bounds, the platform fee is at most ten
-- percent, and the breaker's configuration is sane.
pub record Configured {T : Type 0} (s : Store T) : Type 0 where
  pub bounded : (c : ContractConfig) → s.config ≡ some c → IsInBounds c
  pub fair : (f : FeeConfig) → s.fee_config ≡ some f → f.fee_bps ≤ 1000
  pub sane : (c : CircuitBreakerConfig) → s.breaker_config ≡ some c → IsSane c

default-IsInBounds : IsInBounds default_contract_config
unfolding validate_config none_of outside
default-IsInBounds = (validate_config_iff default_contract_config).0 refl

present-IsInBounds :
    (o : Option ContractConfig)
    → ((c : ContractConfig) → o ≡ some c → IsInBounds c)
    → IsInBounds (get_or o default_contract_config)
present-IsInBounds none h = default-IsInBounds
present-IsInBounds (some c) h = h c refl

-- The quota is no part of the bounds.
ration-IsInBounds :
    (c : ContractConfig) (n w : ℕ)
    → IsInBounds c
    → IsInBounds (record c { creation_quota_max = n; creation_quota_window_seconds = w })
ration-IsInBounds c n w h = record {
  ttl_threshold = h.ttl_threshold;
  ttl_extension = h.ttl_extension;
  update_interval = h.update_interval;
  batch = h.batch;
  metadata = h.metadata;
  milestones = h.milestones;
  notes = h.notes;
  evidence = h.evidence;
  breaches = h.breaches;
  shipments = h.shipments;
  min_admins = h.min_admins;
  max_admins = h.max_admins;
  expiry = h.expiry;
  grace = h.grace;
}

not-false : (b : Bool) → not b ≡ false → b ≡ true
not-false b h = ground arith

at_most : (n : ℕ) → ltb 1000 n ≡ false → n ≤ 1000
at_most n h = ground arith

accepted-IsInBounds : (c : ContractConfig) → not (validate_config c) ≡ false → IsInBounds c
accepted-IsInBounds c g = (validate_config_iff c).0 (not-false (validate_config c) g)

module _ {T : Type 0} where
  abbrev knobs : Store T → Option ContractConfig × Option FeeConfig × Option CircuitBreakerConfig
  knobs s = (s.config, s.fee_config, s.breaker_config)

  Keeps-knobs :
      (f : Store T → Store T)
      → ((s : Store T) → knobs (f s) ≡ knobs s)
      → Keeps Configured (modify {E = NavinError} f)
  Keeps-knobs f e = Keeps-modify f (λ s h. record {
    bounded = λ c q. h.bounded c (ap (λ k. k.0) (sym (e s)) ∙ q);
    fair = λ c q. h.fair c (ap (λ k. k.1) (sym (e s)) ∙ q);
    sane = λ c q. h.sane c (ap (λ k. k.2) (sym (e s)) ∙ q);
  })

  ruleset knob_rules = (
    Keeps-pure, Keeps-gets, Keeps-knobs, Keeps-fail_if, Keeps-ok_or, Keeps-unwrap,
    Keeps-trap_unless, Keeps-require_auth, Keeps-if, Keeps-bind, refl,
  )

  set_config-Keeps :
      (host : HostApi) (c : ContractConfig)
      → IsInBounds c
      → Keeps (Configured {T = T}) (set_config host c)
  unfolding set_config
  set_config-Keeps host c b =
      Keeps-bind _ _
        (Keeps-modify _ (λ s h. record {
          bounded = λ d q. rw⁻¹ (ap (λ o. get_or o c) q) b;
          fair = h.fair;
          sane = h.sane;
        }))
        (λ u. search knob_rules)

  current-IsInBounds : (s : Store T) → Configured s → IsInBounds (get_contract_config s)
  current-IsInBounds s h = present-IsInBounds s.config h.bounded

  -- What is read while the configuration is in its bounds.
  Turns-current :
      {A : Type 0} (f : ContractConfig → Call T A) {Q : Store T → Type 0}
      → ((c : ContractConfig) → IsInBounds c → Turns Configured (f c) Q)
      → Turns Configured (gets get_contract_config >>= f) Q
  unfolding ◌>>=◌
  Turns-current f k = record {
    from = λ s h. (k (get_contract_config s) (current-IsInBounds s h)).from s h;
  }

  set_fee-Keeps :
      (fee : FeeConfig)
      → fee.fee_bps ≤ 1000
      → Keeps
          (Configured {T = T})
          (modify {E = NavinError} (λ s. record s { fee_config = some fee }))
  set_fee-Keeps fee p = Keeps-modify _ (λ s h. record {
    bounded = h.bounded;
    fair = λ f q. rw⁻¹ (ap (λ o. get_or o fee) q) p;
    sane = h.sane;
  })

  set_breaker-Keeps :
      (c : CircuitBreakerConfig)
      → IsSane c
      → Keeps
          (Configured {T = T})
          (modify {E = NavinError} (λ s. record s { breaker_config = some c }))
  set_breaker-Keeps c p = Keeps-modify _ (λ s h. record {
    bounded = h.bounded;
    fair = h.fair;
    sane = λ d q. rw⁻¹ (ap (λ o. get_or o c) q) p;
  })

  unfoldable pub obey : HostApi → ℕ → Env → Order → Call T (Unit {0})
  unfolding initialize set_shipment_limit set_company_shipment_limit pause unpause
      reset_circuit_breaker update_config set_platform_fee set_creation_quota_config
      set_circuit_breaker_config
  obey host self env (Order.begin a token) = initialize host self env a token
  obey host self env (Order.limit a n) = set_shipment_limit env a n
  obey host self env (Order.limit_company a c n) = set_company_shipment_limit env a c n
  obey host self env (Order.stop a) = pause env a
  obey host self env (Order.resume a) = unpause env a
  obey host self env (Order.reset a) = reset_circuit_breaker env a
  obey host self env (Order.configure a c) = update_config host env a c
  obey host self env (Order.charge a bps treasury) = set_platform_fee host env a bps treasury
  obey host self env (Order.ration a n w) = set_creation_quota_config host env a n w
  obey host self env (Order.tune a preset) = set_circuit_breaker_config env a preset

  set_default-Keeps :
      (host : HostApi) → Keeps (Configured {T = T}) (set_config host default_contract_config)
  set_default-Keeps host = set_config-Keeps host default_contract_config default-IsInBounds

  initialize-Keeps :
      (host : HostApi) (self : ℕ) (env : Env) (a t : ℕ)
      → Keeps (Configured {T = T}) (initialize host self env a t)
  unfolding initialize
  initialize-Keeps host self env a t = search (set_default-Keeps, knob_rules) depth 80 fits 5000

  set_shipment_limit-Keeps :
      (env : Env) (a n : ℕ) → Keeps (Configured {T = T}) (set_shipment_limit env a n)
  unfolding set_shipment_limit
  set_shipment_limit-Keeps env a n = search knob_rules depth 80 fits 5000

  set_company_shipment_limit-Keeps :
      (env : Env) (a c n : ℕ) → Keeps (Configured {T = T}) (set_company_shipment_limit env a c n)
  unfolding set_company_shipment_limit
  set_company_shipment_limit-Keeps env a c n = search knob_rules depth 80 fits 5000

  pause-Keeps : (env : Env) (a : ℕ) → Keeps (Configured {T = T}) (pause env a)
  unfolding pause
  pause-Keeps env a = search knob_rules depth 80 fits 5000

  unpause-Keeps : (env : Env) (a : ℕ) → Keeps (Configured {T = T}) (unpause env a)
  unfolding unpause
  unpause-Keeps env a = search knob_rules depth 80 fits 5000

  reset_circuit_breaker-Keeps :
      (env : Env) (a : ℕ) → Keeps (Configured {T = T}) (reset_circuit_breaker env a)
  unfolding reset_circuit_breaker
  reset_circuit_breaker-Keeps env a = search knob_rules depth 80 fits 5000

  update_config-Keeps :
      (host : HostApi) (env : Env) (a : ℕ) (c : ContractConfig)
      → Keeps (Configured {T = T}) (update_config host env a c)
  unfolding update_config
  update_config-Keeps host env a c = Keeps-Turns _ (
      Turns-step _ _ (search knob_rules depth 80 fits 5000) (λ u.
        Turns-step _ _ (search knob_rules depth 80 fits 5000) (λ u.
          Turns-step _ _ (search knob_rules depth 80 fits 5000) (λ u.
            Turns-step _ _ (search knob_rules depth 80 fits 5000) (λ u. Turns-guard _ _ _ (λ g.
              Turns-Keeps _ (λ s h. h)
                (Keeps-bind _ _ (set_config-Keeps host c (accepted-IsInBounds c g))
                  (λ u. search knob_rules))))))))

  set_platform_fee-Keeps :
      (host : HostApi) (env : Env) (a bps t : ℕ)
      → Keeps (Configured {T = T}) (set_platform_fee host env a bps t)
  unfolding set_platform_fee
  set_platform_fee-Keeps host env a bps t = Keeps-Turns _ (
      Turns-step _ _ (search knob_rules depth 80 fits 5000) (λ u.
        Turns-step _ _ (search knob_rules depth 80 fits 5000) (λ u.
          Turns-step _ _ (search knob_rules depth 80 fits 5000) (λ u.
            Turns-step _ _ (search knob_rules depth 80 fits 5000) (λ u. Turns-guard _ _ _ (λ g.
              Turns-Keeps _ (λ s h. h)
                (Keeps-bind _ _ (Keeps-fail_if _ _) (λ u.
                  Keeps-bind _ _ (set_fee-Keeps _ (at_most bps g)) (λ u. search knob_rules)))))))))

  set_creation_quota_config-Keeps :
      (host : HostApi) (env : Env) (a n w : ℕ)
      → Keeps (Configured {T = T}) (set_creation_quota_config host env a n w)
  unfolding set_creation_quota_config
  set_creation_quota_config-Keeps host env a n w = Keeps-Turns _ (
      Turns-step _ _ (search knob_rules depth 80 fits 5000) (λ u.
        Turns-step _ _ (search knob_rules depth 80 fits 5000) (λ u.
          Turns-step _ _ (search knob_rules depth 80 fits 5000) (λ u.
            Turns-step _ _ (search knob_rules depth 80 fits 5000) (λ u. Turns-current _ (λ c b.
              Turns-Keeps _ (λ s h. h)
                (Keeps-bind _ _ (set_config-Keeps host _ (ration-IsInBounds c n w b))
                  (λ u. search knob_rules))))))))

  set_circuit_breaker_config-Keeps :
      (env : Env) (a : ℕ) (preset : CircuitBreakerPreset)
      → Keeps (Configured {T = T}) (set_circuit_breaker_config env a preset)
  unfolding set_circuit_breaker_config
  set_circuit_breaker_config-Keeps env a preset = Keeps-Turns _ (
      Turns-step _ _ (search knob_rules depth 80 fits 5000) (λ u.
        Turns-step _ _ (search knob_rules depth 80 fits 5000) (λ u.
          Turns-step _ _ (search knob_rules depth 80 fits 5000) (λ u. Turns-ok_or _ _ _ (λ c e.
            Turns-Keeps _ (λ s h. h)
              (Keeps-bind _ _ (set_breaker-Keeps c (resolve-IsSane preset e))
                (λ u. search knob_rules)))))))

  obey-Keeps :
      (host : HostApi) (self : ℕ) (env : Env) (o : Order)
      → Keeps (Configured {T = T}) (obey host self env o)
  unfolding obey
  obey-Keeps host self env (Order.begin a t) = initialize-Keeps host self env a t
  obey-Keeps host self env (Order.limit a n) = set_shipment_limit-Keeps env a n
  obey-Keeps host self env (Order.limit_company a c n) = set_company_shipment_limit-Keeps env a c n
  obey-Keeps host self env (Order.stop a) = pause-Keeps env a
  obey-Keeps host self env (Order.resume a) = unpause-Keeps env a
  obey-Keeps host self env (Order.reset a) = reset_circuit_breaker-Keeps env a
  obey-Keeps host self env (Order.configure a c) = update_config-Keeps host env a c
  obey-Keeps host self env (Order.charge a bps t) = set_platform_fee-Keeps host env a bps t
  obey-Keeps host self env (Order.ration a n w) = set_creation_quota_config-Keeps host env a n w
  obey-Keeps host self env (Order.tune a preset) = set_circuit_breaker_config-Keeps env a preset

  unfoldable pub obey_all : HostApi → ℕ → List (Env × Order) → Store T → Store T
  unfolding obey invoke
  obey_all host self [] s = s
  obey_all host self ((env, o) ∷ rest) s = obey_all host self rest (invoke (obey host self env o) s)

-- Whatever the admin orders, in any order: the stored configuration stays in its documented bounds,
-- the platform fee at most ten percent, and the breaker's configuration sane.
pub obey_all-Configured :
    {T : Type 0} (host : HostApi) (self : ℕ) (orders : List (Env × Order)) (s : Store T)
    → Configured s
    → Configured (obey_all host self orders s)
unfolding obey_all
obey_all-Configured host self [] s h = h
obey_all-Configured host self ((env, o) ∷ rest) s h =
    obey_all-Configured host self rest _ (committed-Keeps _ s (obey-Keeps host self env o) h)
