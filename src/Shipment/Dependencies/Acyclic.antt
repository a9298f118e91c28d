-- ===== src/Shipment/Dependencies/Acyclic.antt =====
-- No cycle of prerequisites is ever created.
use navin_contracts.Host.{invoke, ◌>>=◌, IsOk, Env}
use navin_contracts.Host.Keeps.{Gives, IsOk-Gives}
use navin_contracts.Shipment.Store.{Store}
use navin_contracts.Shipment.Dependencies.{add_shipment_dependency, would_create_cycle}
use navin_contracts.Shipment.Dependencies.Search.{
  would_create_cycle_iff, Reaches-trans, Reaches, stop, step,
}
use navin_contracts.Prelude.{
  false, some, false≢true, ◌≡◌, arith, ℕ, List, [], ◌∷◌, ◌++◌, true, ◌||◌, ◌==◌, ◌⊎◌, inl, inr,
  if◌then◌else◌,
}
use navin_contracts.Shipment.Milestones.{contains}

-- No shipment is its own prerequisite, along any chain.
abbrev pub IsAcyclic : (ℕ → List ℕ) → Type 0
IsAcyclic get = (a b : ℕ) → contains (get a) b ≡ true → ¬ (Reaches get b a)

-- The prerequisites with one more, `p` of `d`.
abbrev pub with_edge : (ℕ → List ℕ) → ℕ → ℕ → ℕ → List ℕ
with_edge get d p k = if k == d then get d ++ (p ∷ []) else get k

contains-++ : (xs : List ℕ) (p w : ℕ) → contains (xs ++ (p ∷ [])) w ≡ (contains xs w || p == w)
contains-++ [] p w = ground arith
contains-++ (x ∷ xs) p w = ground (arith, contains-++ xs p w)

module _ (get : ℕ → List ℕ) (d p : ℕ) where
  edge-cases :
      (a b : ℕ)
      → contains (with_edge get d p a) b ≡ true
      → (contains (get a) b ≡ true) ⊎ ((a ≡ d) × (b ≡ p))
  edge-cases a b e = ground (arith, contains-++ (get d) p b)

  -- A chain with the new edge is an old one, or passes the new edge.
  split :
      (a b : ℕ)
      → Reaches (with_edge get d p) a b
      → Reaches get a b ⊎ (Reaches get a d × Reaches get p b)
  split _ _ (stop a) = inl (stop a)
  split _ _ (step a b c e r) = elim (edge-cases a b e) [
    | inl old ↦ elim (split b c r) [
      | inl q ↦ inl (step a b c old q)
      | inr (q, t) ↦ inr (step a b d old q, t)
    ]
    | inr (same, next) ↦ elim (split b c r) [
      | inl q ↦ inr (rw same (stop d), rw (← next) q)
      | inr (q, t) ↦ inr (rw same (stop d), t)
    ]
  ]

  with_edge-IsAcyclic : ¬ (Reaches get p d) → IsAcyclic get → IsAcyclic (with_edge get d p)
  with_edge-IsAcyclic apart old a b e r = elim (edge-cases a b e) [
    | inl f ↦ elim (split b a r) [
      | inl q ↦ old a b f q
      | inr (q, t) ↦ apart (Reaches-trans p a d t (step a b d f q))
    ]
    | inr (same, next) ↦ elim (split b a r) [
      | inl q ↦ apart (rw (← next, ← same) q)
      | inr (q, t) ↦ apart (rw (← next) q)
    ]
  ]

-- What a successful addition leaves of the prerequisites.
abbrev Adds : {T : Type 0} → ℕ → ℕ → ℕ → Store T → Store T → Type 0
Adds fuel d p s s' =
    (would_create_cycle s.progress.prerequisites fuel d p ≡ some false)
    × (s'.progress.prerequisites ≡ with_edge s.progress.prerequisites d p)

module _ {T : Type 0} where
  add_shipment_dependency-Adds :
      (fuel : ℕ) (env : Env) (a d p : ℕ) (s : Store T)
      → Gives (λ u s'. Adds fuel d p s s') (add_shipment_dependency fuel env a d p s)
  unfolding ◌>>=◌ add_shipment_dependency
  add_shipment_dependency-Adds fuel env a d p s = ground arith

-- Where the prerequisites have no cycle, a dependency that is added leaves them without one: it adds
-- the one prerequisite, which does not reach the dependent shipment.
pub add_shipment_dependency-IsAcyclic :
    {T : Type 0} (fuel : ℕ) (env : Env) (a d p : ℕ) (s : Store T)
    → IsAcyclic s.progress.prerequisites
    → IsOk (add_shipment_dependency fuel env a d p s)
    → let s' = invoke (add_shipment_dependency fuel env a d p) s in
      (s'.progress.prerequisites ≡ with_edge s.progress.prerequisites d p)
      × (¬ (Reaches s.progress.prerequisites p d))
      × IsAcyclic s'.progress.prerequisites
unfolding invoke
add_shipment_dependency-IsAcyclic fuel env a d p s old done =
    let (safe, added) =
      IsOk-Gives (Adds fuel d p s) s _ done (add_shipment_dependency-Adds fuel env a d p s) in
    let (hit, reach) = would_create_cycle_iff s.progress.prerequisites fuel d p false safe in
    let apart : Reaches s.progress.prerequisites p d → ⊥ = λ r. false≢true (reach r) in
    (added, apart, rw added (with_edge-IsAcyclic s.progress.prerequisites d p apart old))
