-- ===== src/Db/Keeps.antt =====
-- What a statement keeps true of the tables, whatever befalls it.
use go_starter_kit.Base.{List, [], ◌∷◌, All, ℕ}
use go_starter_kit.Db.{
  Result, ok, err, Fault, fine, refused, lost, Turn, Session, Statement, Action, query, suffer,
  play, ErrorPolicy, mapped, ◌>>=◌,
}

-- What the others do in between keeps `P` too.
abbrev pub OthersKeep : {T : Type 0} → (T → Type 0) → Session T → Type 0
OthersKeep {T} P s = All (λ (turn : Turn T). (t : T) → P t → P (turn.meanwhile t)) s.script

module _ {T : Type 0} (P : T → Type 0) where
  -- `P` holds of the tables, and the others keep it.
  pub record Holds (s : Session T) : Type 0 where
    pub now : P s.table
    pub later : OthersKeep P s

  -- An action keeps `P`, whether it succeeds or fails.
  pub record Keeps {A : Type 0} (m : Action T A) : Type 0 where
    pub at : (s : Session T) → Holds s → Holds (m s).1

module _ {T A : Type 0} (P : T → Type 0) where
  suffered :
      (f : Fault) (q : Statement T A) (n : ℕ) (t : T) → P t → P (q n t).1 → P (suffer f (q n t) t).1
  suffered fine q n t before after = after
  suffered (refused e) q n t before after = before
  suffered (lost e) q n t before after = after

  pub query-Keeps : (q : Statement T A) → ((n : ℕ) (t : T) → P t → P (q n t).1) → Keeps P (query q)
  unfolding query
  query-Keeps q keep = record { at = λ s h. go s.script s h.now h.later }
    where
      go :
          (script : List (Turn T)) (s : Session T)
          → P s.table
          → All (λ (turn : Turn T). (t : T) → P t → P (turn.meanwhile t)) script
          → Holds P (play q s script).1
      go [] s p l = record { now = keep s.clock s.table p; later = tt }
      go (turn ∷ rest) s p l = record {
        now =
            suffered turn.fault q turn.now (turn.meanwhile s.table) (l.0 s.table p)
              (keep turn.now (turn.meanwhile s.table) (l.0 s.table p));
        later = l.1;
      }

  -- Whatever a statement does to the tables, the others go on to keep `P`.
  pub query-OthersKeep :
      (q : Statement T A) (s : Session T) → OthersKeep P s → OthersKeep P (query q s).1
  unfolding query
  query-OthersKeep q s later = go s.script later
    where
      go :
          (script : List (Turn T))
          → All (λ (turn : Turn T). (t : T) → P t → P (turn.meanwhile t)) script
          → OthersKeep P (play q s script).1
      go [] l = tt
      go (turn ∷ rest) l = l.1

  pub mapped-Keeps : (policy : ErrorPolicy) (m : Action T A) → Keeps P m → Keeps P (mapped policy m)
  mapped-Keeps policy m k = record { at = λ s h. let (r, s') = m s in k.at s h }

  pub still-Keeps : (r : Result A) → Keeps P (λ s. (r, s))
  still-Keeps r = record { at = λ s h. h }

module _ {T A B : Type 0} (P : T → Type 0) where
  pub bind-Keeps :
      (m : Action T A) (f : A → Action T B)
      → Keeps P m
      → ((a : A) → Keeps P (f a))
      → Keeps P (m >>= f)
  bind-Keeps m f km kf = record { at = λ s h. let (r, s') = m s in go r s' (km.at s h) }
    where
      go :
          (r : Result A) (s : Session T)
          → Holds P s
          → Holds P (elim r as (λ _. Result B × Session T) [ ok a ↦ f a s | err e ↦ (err e, s) ]).1
      go (ok a) s h = (kf a).at s h
      go (err e) s h = h
