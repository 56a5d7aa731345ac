-- ===== src/Workflow/Worker/Keeps.antt =====
-- Rules for what an action keeps of the state, whether it returns or raises, and for what it
-- returns: one for each way to build an action.
use retail_ops_microservices.Base.{Bool, true, false, if◌then◌else◌}
use retail_ops_microservices.Base.Exec.{Result, ok, err, pure, raise, raise_if, continue, ◌>>=◌}
use retail_ops_microservices.Workflow.External.{WorkerError}
use retail_ops_microservices.Workflow.System.{System, Work}

abbrev pub Returns : {A : Type 0} → (A → Type 0) → Result WorkerError A → Type 0
Returns Q (ok a) = Q a
Returns Q (err e) = Unit

abbrev pub Any : {A : Type 0} → A → Type 0
Any a = Unit

-- From a state with `P`, the action ends in one with `P`, and a value that it returns has `Q`.
pub record Keeps {W A : Type 0} (P : System W → Type 0) (Q : A → Type 0) (m : Work W A)
    : Type 0 where
  pub at : (s : System W) → P s → P (m s).1 × Returns Q (m s).0

module _ {W A : Type 0} {P : System W → Type 0} where
  pub Keeps-pure : {Q : A → Type 0} (a : A) → Q a → Keeps P Q (pure a)
  Keeps-pure a q = record { at = λ s h. (h, q) }

  pub Keeps-raise : {Q : A → Type 0} (e : WorkerError) → Keeps P Q (raise e)
  Keeps-raise e = record { at = λ s h. (h, tt) }

  pub Keeps-if :
      {Q : A → Type 0} (b : Bool) (m n : Work W A)
      → Keeps P Q m
      → Keeps P Q n
      → Keeps P Q (if b then m else n)
  Keeps-if true m n km kn = km
  Keeps-if false m n km kn = kn

  -- An action that leaves the state as it was, but for parts that `P` does not read.
  pub Keeps-frame : (m : Work W A) → ((s : System W) → P s → P (m s).1) → Keeps P Any m
  Keeps-frame m kept = record { at = λ s h. (kept s h, any (m s).0) }
    where
      any : (r : Result WorkerError A) → Returns Any r
      any (ok a) = tt
      any (err e) = tt

pub Keeps-raise_if :
    {W : Type 0} {P : System W → Type 0} (b : Bool) (e : WorkerError)
    → Keeps P Any (raise_if {S = System W} b e)
Keeps-raise_if true e = record { at = λ s h. (h, tt) }
Keeps-raise_if false e = record { at = λ s h. (h, tt) }

module _ {W A B : Type 0} {P : System W → Type 0} {Q : A → Type 0} {R : B → Type 0} where
  continue-Keeps :
      (f : A → Work W B)
      → ((a : A) → Q a → Keeps P R (f a))
      → (r : Result WorkerError A) (s : System W) → P s
      → Returns Q r
      → P (continue r f s).1 × Returns R (continue r f s).0
  continue-Keeps f kf (ok a) s h q = (kf a q).at s h
  continue-Keeps f kf (err e) s h q = (h, tt)

  pub Keeps-bind :
      (m : Work W A) (f : A → Work W B)
      → Keeps P Q m
      → ((a : A) → Q a → Keeps P R (f a))
      → Keeps P R (m >>= f)
  unfolding ◌>>=◌
  Keeps-bind m f km kf = record {
    at = λ s h. let k = km.at s h in continue-Keeps f kf (m s).0 (m s).1 k.0 k.1;
  }

module _ {W A B : Type 0} {P : System W → Type 0} {R : B → Type 0} where
  pub Keeps-bind-Any :
      (m : Work W A) (f : A → Work W B)
      → Keeps P Any m
      → ((a : A) → Keeps P R (f a))
      → Keeps P R (m >>= f)
  Keeps-bind-Any m f km kf = Keeps-bind m f km (λ a _. kf a)

pub ruleset keeps_rules = (Keeps-pure, Keeps-raise, Keeps-if, Keeps-raise_if, Keeps-bind-Any)
