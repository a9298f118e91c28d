-- ===== src/Shipment/Dependencies/Search.antt =====
-- The search of `would_create_cycle` decides reachability, and ends.
use navin_contracts.Prelude.{
  ◌↔◌, ◌≡◌, refl, arith, ℕ, List, [], ◌∷◌, true, false, ◌||◌, ◌==◌, ◌+◌, ◌⊎◌, length, some, suc,
  false≢true, zero, inr, inl, Bool-cases, sym, Option, Bool, if◌then◌else◌, ◌<◌, ◌≤◌,
}
use navin_contracts.Shipment.Dependencies.{would_create_cycle, cycle_search, push_all}
use navin_contracts.Shipment.Milestones.{contains}

-- A chain of prerequisites, of any length.
pub data Reaches (get : ℕ → List ℕ) : ℕ → ℕ → Type 0 where
  stop : (a : ℕ) → Reaches get a a
  step : (a b c : ℕ) → contains (get a) b ≡ true → Reaches get b c → Reaches get a c

pub Reaches-trans :
    {get : ℕ → List ℕ} (a b c : ℕ) → Reaches get a b → Reaches get b c → Reaches get a c
Reaches-trans _ _ c (stop a) q = q
Reaches-trans _ _ c (step a d b e p) q = step a d c e (Reaches-trans d b c p q)

contains-push_all :
    (ps stack : List ℕ) (w : ℕ)
    → contains (push_all ps stack) w ≡ (contains ps w || contains stack w)
contains-push_all [] stack w = refl
contains-push_all (p ∷ ps) stack w = ground (arith, contains-push_all ps (p ∷ stack) w)

length-push_all : (ps stack : List ℕ) → length (push_all ps stack) ≡ length ps + length stack
length-push_all [] stack = omega arith
length-push_all (p ∷ ps) stack = ground (arith, length-push_all ps (p ∷ stack))

-- The three ways a turn of the loop goes on.
turn-cases :
    (hit seen : Bool) (x y r : Option Bool)
    → elim hit as (λ b. Option Bool) [
      | true ↦ some true
      | false ↦ elim seen as (λ b. Option Bool) [ true ↦ x | false ↦ y ]
    ]
      ≡ r
    → ((hit ≡ true) × (r ≡ some true))
      ⊎ (((hit ≡ false) × (seen ≡ true) × (x ≡ r)) ⊎ ((hit ≡ false) × (seen ≡ false) × (y ≡ r)))
turn-cases true seen x y r e = inl (refl, sym e)
turn-cases false true x y r e = inr (inl (refl, refl, e))
turn-cases false false x y r e = inr (inr (refl, refl, e))

turn_ends :
    (hit seen : Bool) (x y : Option Bool)
    → (seen ≡ true → (found : Bool) × (x ≡ some found))
    → (seen ≡ false → (found : Bool) × (y ≡ some found))
    → (found : Bool) × (elim hit as (λ b. Option Bool) [
      | true ↦ some true
      | false ↦ elim seen as (λ b. Option Bool) [ true ↦ x | false ↦ y ]
    ]
        ≡ some found)
turn_ends true seen x y f g = (true, refl)
turn_ends false true x y f g = f refl
turn_ends false false x y f g = g refl

module _ (get : ℕ → List ℕ) (d : ℕ) where
  -- No visited node is `d`, and its prerequisites are visited or on the stack.
  Searched : List ℕ → List ℕ → Type 0
  Searched visited stack =
      (v : ℕ)
      → contains visited v ≡ true
      → ((v == d) ≡ false)
        × ((w : ℕ)
            → contains (get v) w ≡ true
            → (contains visited w ≡ true) ⊎ (contains stack w ≡ true))

  -- A closed set without `d` does not reach it.
  closed_unreached :
      (V : List ℕ) (x : ℕ) → Searched V [] → Reaches get x d → contains V x ≡ true → ⊥
  unfolding Searched
  closed_unreached V _ c (stop x) m = let e = (c x m).0 in ground arith
  closed_unreached V _ c (step x b z e p) m = elim ((c x m).1 b e) [
    | inl h ↦ closed_unreached V b c p h
    | inr h ↦ absurd (false≢true h)
  ]

  -- The nodes that a search without a hit has been through.
  Covers : List ℕ → List ℕ → Type 0
  Covers visited stack =
      (V : List ℕ) × ((x : ℕ) → contains visited x ≡ true → contains V x ≡ true)
      × ((x : ℕ) → contains stack x ≡ true → contains V x ≡ true)
      × Searched V []

  skip-Searched :
      (c : ℕ) (visited stack : List ℕ)
      → Searched visited (c ∷ stack)
      → contains visited c ≡ true
      → Searched visited stack
  unfolding Searched
  skip-Searched c visited stack h m v k = ((h v k).0, λ w e. let f = (h v k).1 w e in ground arith)

  visit-Searched :
      (c : ℕ) (visited stack : List ℕ)
      → Searched visited (c ∷ stack)
      → (c == d) ≡ false
      → Searched (c ∷ visited) (push_all (get c) stack)
  unfolding Searched
  visit-Searched c visited stack h n v k = elim (Bool-cases (c == v)) [
    | inl q ↦ (ground arith, λ w e. ground (arith, contains-push_all (get c) stack w))
    | inr q ↦ (
      (h v (ground arith)).0,
      λ w e.
          let f = (h v (ground arith)).1 w e in ground (arith, contains-push_all (get c) stack w),
    )
  ]

  covers_lem :
      (fuel : ℕ) (stack visited : List ℕ)
      → Searched visited stack
      → cycle_search get d fuel stack visited ≡ some false
      → Covers visited stack
  unfolding cycle_search Searched Covers
  covers_lem zero stack visited h e = ground arith
  covers_lem (suc fuel) [] visited h e = (visited, λ x k. k, λ x k. absurd (false≢true k), h)
  covers_lem (suc fuel) (c ∷ stack) visited h e =
      elim (turn-cases (c == d) (contains visited c) _ _ _ e) [
        | inl q ↦ let r = q.1 in ground arith
        | inr (inl (n, m, r)) ↦
            let (V, old, new, closed) =
              covers_lem fuel stack visited (skip-Searched c visited stack h m) r in
            (
              V,
              old,
              λ x k.
                  let o = old c m in
                  elim (Bool-cases (c == x)) [
                    | inl f ↦ ground arith
                    | inr f ↦ new x (ground arith)
                  ],
              closed,
            )
        | inr (inr (n, m, r)) ↦
            let (V, old, new, closed) =
              covers_lem fuel (push_all (get c) stack) (c ∷ visited)
                (visit-Searched c visited stack h n) r in
            (
              V,
              λ x k. old x (ground arith),
              λ x k. elim (Bool-cases (c == x)) [
                | inl f ↦ old x (ground arith)
                | inr f ↦ new x (ground (arith, contains-push_all (get c) stack x))
              ],
              closed,
            )
      ]

  -- A search that ends with a hit has met a node of the stack that reaches `d`.
  Meets : List ℕ → Type 0
  Meets stack = (x : ℕ) × (contains stack x ≡ true) × Reaches get x d

  meets_lem :
      (fuel : ℕ) (stack visited : List ℕ)
      → cycle_search get d fuel stack visited ≡ some true
      → Meets stack
  unfolding cycle_search Meets
  meets_lem zero stack visited e = ground arith
  meets_lem (suc fuel) [] visited e = ground arith
  meets_lem (suc fuel) (c ∷ stack) visited e =
      elim (turn-cases (c == d) (contains visited c) _ _ _ e) [
        | inl q ↦
            let r = q.0 in let same : c ≡ d = ground arith in (c, ground arith, rw same (stop d))
        | inr (inl (n, m, r)) ↦
            let (x, k, p) = meets_lem fuel stack visited r in (x, ground arith, p)
        | inr (inr (n, m, r)) ↦
            let (x, k, p) = meets_lem fuel (push_all (get c) stack) (c ∷ visited) r in
            elim (Bool-cases (contains (get c) x)) [
              | inl f ↦ (c, ground arith, step c x d f p)
              | inr f ↦ (x, ground (arith, contains-push_all (get c) stack x), p)
            ]
      ]

-- The search for a cycle decides reachability: it finds one exactly if the dependent shipment can be
-- reached from the prerequisite along stored prerequisites.
pub would_create_cycle_iff :
    (get : ℕ → List ℕ) (fuel d p : ℕ) (found : Bool)
    → would_create_cycle get fuel d p ≡ some found
    → (found ≡ true) ↔ Reaches get p d
unfolding would_create_cycle Searched Covers Meets
would_create_cycle_iff get fuel d p true e =
    let (x, k, r) = meets_lem get d fuel (p ∷ []) [] e in
    let same : p ≡ x = ground arith in (λ h. rw same r, λ h. refl)
would_create_cycle_iff get fuel d p false e =
    let (V, old, new, closed) =
      covers_lem get d fuel (p ∷ []) [] (λ v k. absurd (false≢true k)) e in
    (
      λ h. absurd (false≢true h),
      λ r. absurd (closed_unreached get d V p closed r (new p (ground arith))),
    )

-- What the nodes of `U` that are not visited would still push.
abbrev pub unvisited : (ℕ → List ℕ) → List ℕ → List ℕ → ℕ
unvisited get [] visited = 0
unvisited get (u ∷ U) visited =
    (if contains visited u then 0 else length (get u)) + unvisited get U visited

unvisited_mono :
    (get : ℕ → List ℕ) (U visited : List ℕ) (c : ℕ)
    → unvisited get U (c ∷ visited) ≤ unvisited get U visited
unvisited_mono get [] visited c = omega arith
unvisited_mono get (u ∷ U) visited c = ground (arith, unvisited_mono get U visited c)

unvisited_drop :
    (get : ℕ → List ℕ) (U visited : List ℕ) (c : ℕ)
    → contains U c ≡ true
    → contains visited c ≡ false
    → unvisited get U (c ∷ visited) + length (get c) ≤ unvisited get U visited
unvisited_drop get [] visited c m n = absurd (false≢true m)
unvisited_drop get (u ∷ U) visited c m n =
    let mono = unvisited_mono get U visited c in
    elim (Bool-cases (u == c)) [
      | inl q ↦ let same : u ≡ c = ground arith in ground arith
      | inr q ↦ let rest = unvisited_drop get U visited c (ground arith) n in ground arith
    ]

-- The nodes of the list are in `U`, and `U` has the prerequisites of its nodes.
abbrev pub IsWithin : (ℕ → List ℕ) → List ℕ → List ℕ → Type 0
IsWithin get U stack =
    ((x : ℕ) → contains stack x ≡ true → contains U x ≡ true)
    × ((u w : ℕ) → contains U u ≡ true → contains (get u) w ≡ true → contains U w ≡ true)

cycle_search_ends :
    (get : ℕ → List ℕ) (d : ℕ) (U : List ℕ) (fuel : ℕ) (stack visited : List ℕ)
    → IsWithin get U stack
    → length stack + unvisited get U visited < fuel
    → (found : Bool) × (cycle_search get d fuel stack visited ≡ some found)
unfolding cycle_search
cycle_search_ends get d U zero stack visited w b = ground arith
cycle_search_ends get d U (suc fuel) [] visited w b = (false, refl)
cycle_search_ends get d U (suc fuel) (c ∷ stack) visited (inside, closed) b =
    turn_ends (c == d) (contains visited c) _ _
      (λ m.
        cycle_search_ends get d U fuel stack visited (λ x k. inside x (ground arith), closed)
          (ground arith))
      (λ m.
        let drop = unvisited_drop get U visited c (inside c (ground arith)) m in
        cycle_search_ends get d U fuel (push_all (get c) stack) (c ∷ visited)
          (
            λ x k. elim (Bool-cases (contains (get c) x)) [
              | inl f ↦ closed c x (inside c (ground arith)) f
              | inr f ↦ inside x (ground (arith, contains-push_all (get c) stack x))
            ],
            closed,
          )
          (ground (arith, length-push_all (get c) stack)))

-- With more fuel than the prerequisites that a finite set of shipments has in all, and one turn to
-- start and one to end, the search ends. The set has the first shipment and, with a shipment, its
-- prerequisites.
pub would_create_cycle_ends :
    (get : ℕ → List ℕ) (d p : ℕ) (U : List ℕ) (fuel : ℕ)
    → contains U p ≡ true
    → ((u w : ℕ) → contains U u ≡ true → contains (get u) w ≡ true → contains U w ≡ true)
    → unvisited get U [] + 2 ≤ fuel
    → (found : Bool) × (would_create_cycle get fuel d p ≡ some found)
unfolding would_create_cycle
would_create_cycle_ends get d p U fuel m closed b =
    cycle_search_ends get d U fuel (p ∷ []) [] (λ x k. ground arith, closed) (ground arith)
