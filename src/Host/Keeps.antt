-- ===== src/Host/Keeps.antt =====
-- Postconditions of actions, with one rule for each way to build an action. Only a call that returns
-- `Ok` counts, since the host undoes any other.
use navin_contracts.Prelude.{◌≡◌, Bool, Option, none, some, true, false, if◌then◌else◌, ℕ}
use navin_contracts.Host.{
  IsOk, Env, Outcome, ok, err, trap, Action, ◌>>=◌, pure, gets, modify, fail_if, ok_or, unwrap,
  trap_unless, require_auth, committed,
}

abbrev pub Ends : {S E A : Type 0} → (S → Type 0) → Outcome S E A → Type 0
Ends P (ok a s) = P s
Ends P (err e s) = Unit
Ends P trap = Unit

-- Where `P` holds before the call, it holds after it.
pub record Keeps {S E A : Type 0} (P : S → Type 0) (m : Action S E A) : Type 0 where
  pub at : (s : S) → P s → Ends P (m s)

-- The call makes `P` true, whatever held before it.
pub record Sets {S E A : Type 0} (P : S → Type 0) (m : Action S E A) : Type 0 where
  pub now : (s : S) → Ends P (m s)

pub Ends-committed :
    {S E A : Type 0} (P : S → Type 0) (s : S) (o : Outcome S E A)
    → P s
    → Ends P o
    → P (committed s o)
Ends-committed P s (ok a s') p h = h
Ends-committed P s (err e s') p h = p
Ends-committed P s trap p h = p

-- The call ends in an error, or with a value and a storage for which `Q` holds.
abbrev pub Gives : {S E A : Type 0} → (A → S → Type 0) → Outcome S E A → Type 0
Gives Q (ok a s) = Q a s
Gives Q (err e s) = Unit
Gives Q trap = Unit

pub Gives-then :
    {S E A B : Type 0} (Q : A → S → Type 0) (R : B → S → Type 0) (o : Outcome S E A)
    (f : A → Action S E B)
    → Gives Q o
    → ((a : A) (s : S) → Q a s → Gives R (f a s))
    → Gives R (elim o as (λ x. Outcome S E B) [ ok a s ↦ f a s | err e s ↦ err e s | trap ↦ trap ])
Gives-then Q R (ok a s) f h k = k a s h
Gives-then Q R (err e s) f h k = tt
Gives-then Q R trap f h k = tt

pub Gives-map :
    {S E A : Type 0} (Q R : A → S → Type 0) (o : Outcome S E A)
    → ((a : A) (s : S) → Q a s → R a s)
    → Gives Q o
    → Gives R o
Gives-map Q R (ok a s) f h = f a s h
Gives-map Q R (err e s) f h = tt
Gives-map Q R trap f h = tt

pub IsOk-Gives :
    {S E A : Type 0} (P : S → Type 0) (s : S) (o : Outcome S E A)
    → IsOk o
    → Gives (λ a s'. P s') o
    → P (committed s o)
IsOk-Gives P s (ok a s') d h = h
IsOk-Gives P s (err e s') d h = absurd d
IsOk-Gives P s trap d h = absurd d

pub Ends-Gives :
    {S E A : Type 0} (P : S → Type 0) (o : Outcome S E A) → Ends P o → Gives (λ a s. P s) o
Ends-Gives P (ok a s) h = h
Ends-Gives P (err e s) h = tt
Ends-Gives P trap h = tt

-- The storage is this one: an action that keeps it only reads.
pub record Same {S : Type 0} (s0 s : S) : Type 0 where
  pub same : s ≡ s0

pub Ends-map :
    {S E A : Type 0} {P Q : S → Type 0} (o : Outcome S E A)
    → ((s : S) → P s → Q s)
    → Ends P o
    → Ends Q o
Ends-map (ok a s') f h = f s' h
Ends-map (err e s') f h = tt
Ends-map trap f h = tt

pub IsOk-committed :
    {S E A : Type 0} (P : S → Type 0) (s : S) (o : Outcome S E A)
    → IsOk o
    → Ends P o
    → P (committed s o)
IsOk-committed P s (ok a s') d h = h
IsOk-committed P s (err e s') d h = absurd d
IsOk-committed P s trap d h = absurd d

module _ {S E : Type 0} {P : S → Type 0} where
  pub Keeps-pure : {A : Type 0} (a : A) → Keeps P (pure {S = S} {E = E} a)
  unfolding pure
  Keeps-pure a = record { at = λ s h. h }

  pub Keeps-gets : {A : Type 0} (f : S → A) → Keeps P (gets {S = S} {E = E} f)
  unfolding gets
  Keeps-gets f = record { at = λ s h. h }

  pub Keeps-modify : (f : S → S) → ((s : S) → P s → P (f s)) → Keeps P (modify {S = S} {E = E} f)
  unfolding modify
  Keeps-modify f k = record { at = k }

  pub Keeps-fail_if : (b : Bool) (e : E) → Keeps P (fail_if {S = S} b e)
  unfolding fail_if
  Keeps-fail_if true e = record { at = λ s h. tt }
  Keeps-fail_if false e = record { at = λ s h. h }

  pub Keeps-ok_or : {A : Type 0} (o : Option A) (e : E) → Keeps P (ok_or {S = S} o e)
  unfolding ok_or
  Keeps-ok_or (some a) e = record { at = λ s h. h }
  Keeps-ok_or none e = record { at = λ s h. tt }

  pub Keeps-unwrap : {A : Type 0} (o : Option A) → Keeps P (unwrap {S = S} {E = E} o)
  unfolding unwrap
  Keeps-unwrap (some a) = record { at = λ s h. h }
  Keeps-unwrap none = record { at = λ s h. tt }

  pub Keeps-trap_unless : (b : Bool) → Keeps P (trap_unless {S = S} {E = E} b)
  unfolding trap_unless
  Keeps-trap_unless true = record { at = λ s h. h }
  Keeps-trap_unless false = record { at = λ s h. tt }

  pub Keeps-require_auth : (env : Env) (a : ℕ) → Keeps P (require_auth {S = S} {E = E} env a)
  unfolding require_auth
  Keeps-require_auth env a = Keeps-trap_unless (env.authorized a)

  pub Keeps-if :
      {A : Type 0} (b : Bool) (m k : Action S E A)
      → Keeps P m
      → Keeps P k
      → Keeps P (if b then m else k)
  Keeps-if true m k h c = h
  Keeps-if false m k h c = c

  Ends-bind :
      {A B : Type 0} (o : Outcome S E A) (f : A → Action S E B)
      → Ends P o
      → ((a : A) → Keeps P (f a))
      → Ends P (elim o as (λ x. Outcome S E B) [ ok a s ↦ f a s | err e s ↦ err e s | trap ↦ trap ])
  Ends-bind (ok a s) f h k = (k a).at s h
  Ends-bind (err e s) f h k = tt
  Ends-bind trap f h k = tt

  pub Keeps-bind :
      {A B : Type 0} (m : Action S E A) (f : A → Action S E B)
      → Keeps P m
      → ((a : A) → Keeps P (f a))
      → Keeps P (m >>= f)
  unfolding ◌>>=◌
  Keeps-bind m f h k = record { at = λ s p. Ends-bind (m s) f (h.at s p) k }

  Ends-later :
      {A B : Type 0} (o : Outcome S E A) (f : A → Action S E B)
      → ((a : A) → Sets P (f a))
      → Ends P (elim o as (λ x. Outcome S E B) [ ok a s ↦ f a s | err e s ↦ err e s | trap ↦ trap ])
  Ends-later (ok a s) f h = (h a).now s
  Ends-later (err e s) f h = tt
  Ends-later trap f h = tt

  pub Sets-modify : (f : S → S) → ((s : S) → P (f s)) → Sets P (modify {E = E} f)
  unfolding modify
  Sets-modify f k = record { now = k }

  pub Sets-here :
      {A B : Type 0} (m : Action S E A) (f : A → Action S E B)
      → Sets P m
      → ((a : A) → Keeps P (f a))
      → Sets P (m >>= f)
  unfolding ◌>>=◌
  Sets-here m f h k = record { now = λ s. Ends-bind (m s) f (h.now s) k }

  pub Sets-later :
      {A B : Type 0} (m : Action S E A) (f : A → Action S E B)
      → ((a : A) → Sets P (f a))
      → Sets P (m >>= f)
  unfolding ◌>>=◌
  Sets-later m f h = record { now = λ s. Ends-later (m s) f h }

  pub committed-Keeps :
      {A : Type 0} (m : Action S E A) (s : S) → Keeps P m → P s → P (committed s (m s))
  committed-Keeps m s k p = Ends-committed P s (m s) p (k.at s p)

pub ruleset sets_rules = (Sets-modify, Sets-here, Sets-later)

pub ruleset keeps_rules = (
  Keeps-pure, Keeps-gets, Keeps-modify, Keeps-fail_if, Keeps-ok_or, Keeps-unwrap, Keeps-trap_unless,
  Keeps-require_auth, Keeps-if, Keeps-bind,
)
