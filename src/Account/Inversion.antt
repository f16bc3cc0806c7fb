-- ===== src/Account/Inversion.antt =====
-- What the operators of the service have done when they succeed.
use go_starter_kit.Base.{Str, Bool, true, false, Option, none, some, ◌≡◌, refl, ap, sym, ◌∙◌}
use go_starter_kit.AppError.{GoError}
use go_starter_kit.Db.{Result, ok, err, Session, Action, ErrorPolicy, mapped, lift, ok-injective}
use go_starter_kit.Account.Tables.{Tables}
use go_starter_kit.Account.Env.{Env, Request, recast, need, require}
use go_starter_kit.Account.Audit.{audited}

module _ {A : Type 0} where
  pub recast-ok :
      (f : GoError → GoError) (m : Action Tables A) (s : Session Tables) {a : A}
      {s' : Session Tables}
      → recast f m s ≡ (ok a, s')
      → m s ≡ (ok a, s')
  recast-ok f m s {a} {s'} e = go (m s) refl e
    where
      go :
          (x : Result A × Session Tables)
          → m s ≡ x
          → recast f (λ _. x) s ≡ (ok a, s')
          → m s ≡ (ok a, s')
      go (ok b, u) same h = same ∙ h
      go (err er, u) same h = cc (ap (λ x. x.0) h)

  pub need-ok :
      (o : Option A) (e : GoError) (s : Session Tables) {a : A} {s' : Session Tables}
      → need o e s ≡ (ok a, s')
      → (o ≡ some a) × (s' ≡ s)
  need-ok none e s h = cc (ap (λ x. x.0) h)
  need-ok (some b) e s h = (ap some (ok-injective (ap (λ x. x.0) h)), sym (ap (λ x. x.1) h))

  pub mapped-ok :
      (policy : ErrorPolicy) (m : Action Tables A) (s : Session Tables) {a : A}
      {s' : Session Tables}
      → mapped policy m s ≡ (ok a, s')
      → m s ≡ (ok a, s')
  mapped-ok policy m s {a} {s'} e = go (m s) refl e
    where
      go :
          (x : Result A × Session Tables)
          → m s ≡ x
          → mapped policy (λ _. x) s ≡ (ok a, s')
          → m s ≡ (ok a, s')
      go (ok b, u) same h = same ∙ h
      go (err er, u) same h = cc (ap (λ x. x.0) h)

  pub audited-ok :
      (env : Env) (r : Request) (action : Str) (m : Action Tables A) (s : Session Tables) {a : A}
      {s' : Session Tables}
      → audited env r action m s ≡ (ok a, s')
      → m s ≡ (ok a, s')
  unfolding audited
  audited-ok env r action m s {a} {s'} e = go (m s) refl e
    where
      go :
          (x : Result A × Session Tables)
          → m s ≡ x
          → audited env r action (λ _. x) s ≡ (ok a, s')
          → m s ≡ (ok a, s')
      go (ok b, u) same h = same ∙ h
      go (err er, u) same h = cc (ap (λ x. x.0) h)

  pub lift-ok :
      (o : Result A) (s : Session Tables) {a : A} {s' : Session Tables}
      → lift o s ≡ (ok a, s')
      → (o ≡ ok a) × (s' ≡ s)
  lift-ok o s h = (ap (λ x. x.0) h, sym (ap (λ x. x.1) h))

pub require-ok :
    (b : Bool) (e : GoError) (s : Session Tables) {a : Unit {0}} {s' : Session Tables}
    → require b e s ≡ (ok a, s')
    → (b ≡ true) × (s' ≡ s)
require-ok true e s h = (refl, sym (ap (λ x. x.1) h))
require-ok false e s h = cc (ap (λ x. x.0) h)
