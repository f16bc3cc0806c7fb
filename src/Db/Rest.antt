-- ===== src/Db/Rest.antt =====
-- Statements on a database where nothing else happens.
use go_starter_kit.Base.{ℕ, ◌≡◌, ap, []}
use go_starter_kit.AppError.{GoError}
use go_starter_kit.Db.{
  Result, err, ErrorPolicy, Session, Statement, Action, query, mapped, map_error, ◌>>=◌,
}

abbrev pub at_rest : {T : Type 0} → T → ℕ → Session T
at_rest t now = record { table = t; clock = now; script = [] }

module _ {T A B : Type 0} where
  -- A statement that fails ends the call with its error mapped.
  pub mapped_err :
      (policy : ErrorPolicy) (q : Statement T A) (f : A → Action T B) (now : ℕ) (t : T)
      (e : GoError)
      → q now t ≡ (err e, t)
      → mapped policy (query q >>= f) (at_rest t now) ≡ (err (map_error e policy), at_rest t now)
  unfolding query
  mapped_err policy q f now t e failed =
      ap (λ (x : Result A × T). mapped policy ((λ _. (x.0, at_rest x.1 now)) >>= f) (at_rest t now))
        failed
