-- ===== src/Db/Inversion.antt =====
-- What an action that has succeeded has done.
use go_starter_kit.Base.{ℕ, List, [], ◌∷◌, ◌≡◌, refl, ap, subst, All}
use go_starter_kit.Db.{
  Result, ok, err, Fault, fine, refused, lost, Turn, Session, Statement, Action, query, suffer,
  play, ◌>>=◌,
}
use go_starter_kit.Db.Keeps.{Holds, Keeps}

module _ {T A B : Type 0} where
  -- A chain has succeeded where both its parts have.
  pub bind-ok :
      (m : Action T A) (f : A → Action T B) (s : Session T) {b : B} {s' : Session T}
      → (m >>= f) s ≡ (ok b, s')
      → (a : A) × (u : Session T) × (m s ≡ (ok a, u)) × (f a u ≡ (ok b, s'))
  bind-ok m f s {b} {s'} e = go (m s) refl e
    where
      go :
          (x : Result A × Session T)
          → m s ≡ x
          → (elim x.0 as (λ _. Result B × Session T) [ ok a ↦ f a x.1 | err er ↦ (err er, x.1) ])
            ≡ (ok b, s')
          → (a : A) × (u : Session T) × (m s ≡ (ok a, u)) × (f a u ≡ (ok b, s'))
      go (ok a, u) same h = (a, u, same, h)
      go (err er, u) same h = cc (ap (λ x. x.0) h)

module _ {T A : Type 0} (P : T → Type 0) where
  suffer-ok :
      (f : Fault) (o : Result A × T) (before : T) {a : A}
      → (suffer f o before).0 ≡ ok a
      → o.0 ≡ ok a
  suffer-ok fine o before e = e
  suffer-ok (refused er) o before e = cc
  suffer-ok (lost er) o before e = cc

  -- A statement that has answered has run, at some time, on tables of which `P` held.
  pub query-ok :
      (q : Statement T A) (s : Session T) {a : A} {s' : Session T}
      → Holds P s
      → query q s ≡ (ok a, s')
      → (n : ℕ) × (t : T) × P t × ((q n t).0 ≡ ok a)
  unfolding query
  query-ok q s {a} {s'} h e = go s.script h.later (ap (λ x. x.0) e)
    where
      go :
          (script : List (Turn T))
          → All (λ (turn : Turn T). (t : T) → P t → P (turn.meanwhile t)) script
          → (play q s script).0 ≡ ok a
          → (n : ℕ) × (t : T) × P t × ((q n t).0 ≡ ok a)
      go [] keep o = (s.clock, s.table, h.now, o)
      go (turn ∷ rest) keep o = (
        turn.now,
        turn.meanwhile s.table,
        keep.0 s.table h.now,
        suffer-ok turn.fault (q turn.now (turn.meanwhile s.table)) (turn.meanwhile s.table) o,
      )

  -- What an action keeps holds behind it.
  pub Keeps-after :
      (m : Action T A) (s : Session T) {o : Result A} {s' : Session T}
      → Keeps P m
      → Holds P s
      → m s ≡ (o, s')
      → Holds P s'
  Keeps-after m s k h e = subst (λ (x : Result A × Session T). Holds P x.1) e (k.at s h)
