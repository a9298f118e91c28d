-- ===== src/Host/Turns.antt =====
-- Actions that lead from one condition on the storage to another, with rules that follow the code
-- step by step. Only a call that returns `Ok` counts.
use navin_contracts.Host.Keeps.{Ends-map, Ends, Ends-committed, Keeps}
use navin_contracts.Host.{
  trap_unless, ok_or, fail_if, Outcome, ok, err, trap, Action, ◌>>=◌, pure, committed,
}
use navin_contracts.Prelude.{Bool, true, false, if◌then◌else◌, none, some, ◌≡◌, refl, Option}

-- Where `P` holds before the call, `Q` holds after it.
pub record Turns {S E A : Type 0} (P : S → Type 0) (m : Action S E A) (Q : S → Type 0)
    : Type 0 where
  pub from : (s : S) → P s → Ends Q (m s)

pub Turns-committed :
    {S E A : Type 0} (P : S → Type 0) (m : Action S E A) (s : S)
    → Turns P m P
    → P s
    → P (committed s (m s))
Turns-committed P m s h p = Ends-committed P s (m s) p (h.from s p)

Ends-block :
    {S E A B C : Type 0} (Q : S → Type 0) (o : Outcome S E A) (g : A → Action S E B)
    (f : B → Action S E C)
    → Ends Q (elim o as (λ x. Outcome S E C) [
      | ok a s ↦ (g a >>= f) s
      | err e s ↦ err e s
      | trap ↦ trap
    ])
    → Ends Q
        (elim (elim o as (λ x. Outcome S E B) [ ok a s ↦ g a s | err e s ↦ err e s | trap ↦ trap ])
          as (λ x. Outcome S E C) [ ok a s ↦ f a s | err e s ↦ err e s | trap ↦ trap ])
unfolding ◌>>=◌
Ends-block Q (ok a s) g f h = h
Ends-block Q (err e s) g f h = tt
Ends-block Q trap g f h = tt

module _ {S E : Type 0} {P Q : S → Type 0} where
  pub Turns-Keeps :
      {A : Type 0} (m : Action S E A) → ((s : S) → P s → Q s) → Keeps Q m → Turns P m Q
  Turns-Keeps m w k = record { from = λ s p. k.at s (w s p) }

  pub Turns-before :
      {A : Type 0} {R : S → Type 0} (m : Action S E A)
      → ((s : S) → P s → R s)
      → Turns R m Q
      → Turns P m Q
  Turns-before m w t = record { from = λ s p. t.from s (w s p) }

  pub Turns-after :
      {A : Type 0} {R : S → Type 0} (m : Action S E A)
      → Turns P m R
      → ((s : S) → R s → Q s)
      → Turns P m Q
  Turns-after m t w = record { from = λ s p. Ends-map (m s) w (t.from s p) }

  Ends-rest :
      {A B : Type 0} (o : Outcome S E A) (f : A → Action S E B)
      → Ends P o
      → ((a : A) → Turns P (f a) Q)
      → Ends Q (elim o as (λ x. Outcome S E B) [ ok a s ↦ f a s | err e s ↦ err e s | trap ↦ trap ])
  Ends-rest (ok a s) f h k = (k a).from s h
  Ends-rest (err e s) f h k = tt
  Ends-rest trap f h k = tt

  -- A step that keeps the condition.
  pub Turns-step :
      {A B : Type 0} (m : Action S E A) (f : A → Action S E B)
      → Keeps P m
      → ((a : A) → Turns P (f a) Q)
      → Turns P (m >>= f) Q
  unfolding ◌>>=◌
  Turns-step m f h k = record { from = λ s p. Ends-rest (m s) f (h.at s p) k }

  -- A value that is already there, a choice, and a block inside a block.
  pub Turns-pure :
      {A B : Type 0} (a : A) (f : A → Action S E B) → Turns P (f a) Q → Turns P (pure a >>= f) Q
  unfolding ◌>>=◌
  Turns-pure a f h = record { from = λ s p. h.from s p }

  pub Turns-if :
      {A B : Type 0} (b : Bool) (m k : Action S E A) (f : A → Action S E B)
      → Turns P (m >>= f) Q
      → Turns P (k >>= f) Q
      → Turns P ((if b then m else k) >>= f) Q
  Turns-if true m k f h c = h
  Turns-if false m k f h c = c

  pub Turns-block :
      {A B C : Type 0} (m : Action S E A) (g : A → Action S E B) (f : B → Action S E C)
      → Turns P (m >>= (λ a. g a >>= f)) Q
      → Turns P ((m >>= g) >>= f) Q
  unfolding ◌>>=◌
  Turns-block m g f h = record { from = λ s p. Ends-block Q (m s) g f (h.from s p) }

  pub Turns-part :
      {A B C : Type 0} (m : Action S E A) (g : A → Action S E B) (f : B → Action S E C)
      → Keeps P m
      → ((a : A) → Turns P (g a >>= f) Q)
      → Turns P ((m >>= g) >>= f) Q
  Turns-part m g f h k = Turns-block m g f (Turns-step m (λ a. g a >>= f) h k)

-- A test, a value that must be there and a signature, each with what it tells the rest of the call.
module _ {S E A : Type 0} {P Q : S → Type 0} where
  pub Turns-guard :
      (b : Bool) (e : E) (f : Unit {0} → Action S E A)
      → (b ≡ false → Turns P (f tt) Q)
      → Turns P (fail_if b e >>= f) Q
  unfolding ◌>>=◌
  Turns-guard true e f h = record { from = λ s p. tt }
  Turns-guard false e f h = record { from = λ s p. (h refl).from s p }

  pub Turns-ok_or :
      {B : Type 0} (o : Option B) (e : E) (f : B → Action S E A)
      → ((b : B) → o ≡ some b → Turns P (f b) Q)
      → Turns P (ok_or o e >>= f) Q
  unfolding ◌>>=◌
  Turns-ok_or none e f h = record { from = λ s p. tt }
  Turns-ok_or (some b) e f h = record { from = λ s p. (h b refl).from s p }

  pub Turns-trap_unless :
      (b : Bool) (f : Unit {0} → Action S E A)
      → (b ≡ true → Turns P (f tt) Q)
      → Turns P (trap_unless b >>= f) Q
  unfolding ◌>>=◌
  Turns-trap_unless true f h = record { from = λ s p. (h refl).from s p }
  Turns-trap_unless false f h = record { from = λ s p. tt }

  pub Turns-test :
      {B : Type 0} (b : Bool) (m k : Action S E B) (f : B → Action S E A)
      → (b ≡ true → Turns P (m >>= f) Q)
      → (b ≡ false → Turns P (k >>= f) Q)
      → Turns P ((if b then m else k) >>= f) Q
  Turns-test true m k f h c = h refl
  Turns-test false m k f h c = c refl

-- A chain that leads from a condition to the same one keeps it, and the other way round.
pub Keeps-Turns : {S E A : Type 0} {P : S → Type 0} (m : Action S E A) → Turns P m P → Keeps P m
Keeps-Turns m h = record { at = h.from }

pub ruleset turns_rules = (Turns-step, Turns-pure, Turns-if, Turns-block)

-- A step from one condition to another.
pub Turns-bind :
    {S E A B : Type 0} {P Q R : S → Type 0} (m : Action S E A) (f : A → Action S E B)
    → Turns P m Q
    → ((a : A) → Turns Q (f a) R)
    → Turns P (m >>= f) R
unfolding ◌>>=◌
Turns-bind m f h k = record { from = λ s p. Ends-rest (m s) f (h.from s p) k }
