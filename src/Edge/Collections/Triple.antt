-- ===== src/Edge/Collections/Triple.antt =====
-- What holds after a call, by its outcome, and how that follows from its steps.
use coltt.Prelude.Outcome.{Outcome, ok, err, panic, continue}
use coltt.Edge.Collections.{Action, ◌>>=◌, pure, reads, modifies}

module _ {E A : Type 0} where
  -- `Q` after a value, and `R` after an error or a panic.
  abbrev pub Ends : (E → Type 0) → (E → Type 0) → Outcome A × E → Type 0
  Ends R Q (ok a, s) = Q s
  Ends R Q (err e, s) = R s
  Ends R Q (panic, s) = R s

  -- From `P`, the call ends in `Q`, or fails in `R`.
  pub record Triple (R P Q : E → Type 0) (m : Action E A) : Type 0 where
    pub run : (s : E) → P s → Ends R Q (m s)

  pub Ends-weaken :
      (R Q Q' : E → Type 0) (x : Outcome A × E) → ((s : E) → Q s → Q' s) → Ends R Q x → Ends R Q' x
  Ends-weaken R Q Q' (ok a, s) w h = w s h
  Ends-weaken R Q Q' (err e, s) w h = h
  Ends-weaken R Q Q' (panic, s) w h = h

  pub Ends-state : (R : E → Type 0) (x : Outcome A × E) → Ends R R x → R x.1
  Ends-state R (ok a, s) h = h
  Ends-state R (err e, s) h = h
  Ends-state R (panic, s) h = h

  Ends-outcome : (R P : E → Type 0) (r : Outcome A) (s : E) → (P s → R s) → P s → Ends R P (r, s)
  Ends-outcome R P (ok a) s w p = p
  Ends-outcome R P (err e) s w p = w p
  Ends-outcome R P panic s w p = w p

  pub reads_lem :
      (R P : E → Type 0) (f : E → Outcome A) → ((s : E) → P s → R s) → Triple R P P (reads f)
  unfolding reads
  reads_lem R P f w = record { run = λ s p. Ends-outcome R P (f s) s (w s) p }

  pub pure_lem : (R P : E → Type 0) (a : A) → Triple R P P (pure a)
  unfolding pure
  pure_lem R P a = record { run = λ s p. p }

module _ {E : Type 0} where
  pub modifies_lem :
      (R P Q : E → Type 0) (f : E → E) → ((s : E) → P s → Q (f s)) → Triple R P Q (modifies f)
  unfolding modifies
  modifies_lem R P Q f h = record { run = h }

module _ {E A B : Type 0} where
  Ends-continue :
      (R Q T : E → Type 0) (x : Outcome A × E) (f : A → Action E B)
      → Ends R Q x
      → ((a : A) → Triple R Q T (f a))
      → Ends R T (continue x f)
  Ends-continue R Q T (ok a, s) f h k = (k a).run s h
  Ends-continue R Q T (err e, s) f h k = h
  Ends-continue R Q T (panic, s) f h k = h

  -- Two calls, one after the other.
  pub bind_lem :
      (R P Q T : E → Type 0) (m : Action E A) (f : A → Action E B)
      → Triple R P Q m
      → ((a : A) → Triple R Q T (f a))
      → Triple R P T (m >>= f)
  unfolding ◌>>=◌
  bind_lem R P Q T m f h k = record { run = λ s p. Ends-continue R Q T (m s) f (h.run s p) k }
