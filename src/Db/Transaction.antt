-- ===== src/Db/Transaction.antt =====
-- internal/db/transaction.go. A transaction is a begin, the statements of its body and a commit. What
-- the other processes do meanwhile stays when the body's own changes are rolled back; a commit that is
-- refused rolls back too, and one whose answer is lost has taken effect.
use go_starter_kit.Base.{
  ◌-◌, List, [], ◌∷◌, take, length, ◌≡◌, subst, sym, sym, refl, All, All-take,
}
use go_starter_kit.Db.{
  Result, ok, err, ErrorPolicy, Fault, fine, refused, lost, Turn, Session, Statement, Action, query,
  map_error,
}
use go_starter_kit.Db.Keeps.{Holds, Keeps, OthersKeep, query-Keeps}

module _ {T : Type 0} where
  -- What the others did over these turns.
  abbrev pub replay : List (Turn T) → T → T
  replay [] t = t
  replay (turn ∷ rest) t = replay rest (turn.meanwhile t)

  -- The session after a rollback to where it began.
  abbrev pub rolled_back : Session T → Session T → Session T
  rolled_back begun s = record s {
    table = replay (take (length begun.script - length s.script) begun.script) begun.table;
  }

  abbrev pub commit_as : Fault → Session T → Session T → Result (Unit {0}) × Session T
  commit_as fine begun s = (ok tt, s)
  commit_as (refused e) begun s = (err e, rolled_back begun s)
  commit_as (lost e) begun s = (err e, s)

  -- `tx.Commit`
  abbrev pub commit : List (Turn T) → Session T → Session T → Result (Unit {0}) × Session T
  commit [] begun s = (ok tt, s)
  commit (turn ∷ rest) begun s =
      commit_as turn.fault begun
        (record { table = turn.meanwhile s.table; clock = turn.now; script = rest })

  -- `database.Begin`: it reads and writes nothing.
  abbrev pub begin : Statement T (Unit {0})
  begin now t = (ok tt, t)

module _ {T A : Type 0} where
  abbrev committed : ErrorPolicy → A → Result (Unit {0}) × Session T → Result A × Session T
  committed policy a (ok _, s) = (ok a, s)
  committed policy a (err e, s) = (err (map_error e policy), s)

  abbrev ended : ErrorPolicy → Session T → Result A × Session T → Result A × Session T
  ended policy begun (ok a, s) = committed policy a (commit s.script begun s)
  ended policy begun (err e, s) = (err (map_error e policy), rolled_back begun s)

  abbrev begun_with :
      ErrorPolicy → Action T A → Result (Unit {0}) × Session T → Result A × Session T
  begun_with policy fn (ok _, s) = ended policy s (fn s)
  begun_with policy fn (err e, s) = (err (map_error e policy), s)

  -- `WithTransaction`
  unfoldable pub with_transaction : ErrorPolicy → Action T A → Action T A
  with_transaction policy fn s = begun_with policy fn (query begin s)

  -- Of a body: the others keep `P` behind it too, and where it succeeds `P` holds.
  pub record Commits (P : T → Type 0) (fn : Action T A) : Type 0 where
    pub others : (s : Session T) → Holds P s → OthersKeep P (fn s).1
    pub holds : (s s' : Session T) (a : A) → Holds P s → fn s ≡ (ok a, s') → P s'.table

module _ {T : Type 0} (P : T → Type 0) where
  replay-keeps :
      (turns : List (Turn T)) (t : T)
      → All (λ (turn : Turn T). (u : T) → P u → P (turn.meanwhile u)) turns
      → P t
      → P (replay turns t)
  replay-keeps [] t keep h = h
  replay-keeps (turn ∷ rest) t keep h = replay-keeps rest (turn.meanwhile t) keep.1 (keep.0 t h)

  rolled_back-Holds :
      (begun s : Session T) → Holds P begun → OthersKeep P s → Holds P (rolled_back begun s)
  rolled_back-Holds begun s h keep = record {
    now =
        replay-keeps _ begun.table
          (All-take (λ (turn : Turn T). (u : T) → P u → P (turn.meanwhile u))
            (length begun.script - length s.script) begun.script h.later)
          h.now;
    later = keep;
  }

  commit_as-Holds :
      (f : Fault) (begun s : Session T)
      → Holds P begun
      → Holds P s
      → Holds P (commit_as f begun s).1
  commit_as-Holds fine begun s b h = h
  commit_as-Holds (refused e) begun s b h = rolled_back-Holds begun s b h.later
  commit_as-Holds (lost e) begun s b h = h

  commit-Holds :
      (script : List (Turn T)) (begun s : Session T)
      → script ≡ s.script
      → Holds P begun
      → Holds P s
      → Holds P (commit script begun s).1
  commit-Holds [] begun s e b h = h
  commit-Holds (turn ∷ rest) begun s e b h =
      let keep : All (λ (turn : Turn T). (u : T) → P u → P (turn.meanwhile u)) (turn ∷ rest) =
        subst
          (λ (l : List (Turn T)). All (λ (turn : Turn T). (u : T) → P u → P (turn.meanwhile u)) l)
          (sym e) h.later in
      commit_as-Holds turn.fault begun _ b (record { now = keep.0 s.table h.now; later = keep.1 })

module _ {T A : Type 0} (P : T → Type 0) where
  ended-Holds :
      (policy : ErrorPolicy) (fn : Action T A) (begun : Session T) (r : Result A) (s : Session T)
      → Commits P fn
      → Holds P begun
      → fn begun ≡ (r, s)
      → Holds P (ended policy begun (r, s)).1
  ended-Holds policy fn begun (err e) s c h ran =
      rolled_back-Holds P begun s h
        (subst (λ (x : Result A × Session T). OthersKeep P x.1) ran (c.others begun h))
  ended-Holds policy fn begun (ok a) s c h ran = kept (commit s.script begun s) (
      commit-Holds P s.script begun s refl h (record {
        now = c.holds begun s a h ran;
        later = subst (λ (x : Result A × Session T). OthersKeep P x.1) ran (c.others begun h);
      }))
    where
      kept : (x : Result (Unit {0}) × Session T) → Holds P x.1 → Holds P (committed policy a x).1
      kept (ok _, s') k = k
      kept (err e, s') k = k

  -- A transaction keeps a property that its body may break on the way: if the property holds whenever the
  -- body has succeeded on tables that had it, and the other processes keep it, then it holds behind the
  -- transaction, whatever becomes of this: no connection, an error of the body after any of its
  -- statements, a commit that is refused, or one that takes effect while its answer is lost.
  pub with_transaction-Keeps :
      (policy : ErrorPolicy) (fn : Action T A) → Commits P fn → Keeps P (with_transaction policy fn)
  unfolding with_transaction
  with_transaction-Keeps policy fn c = record {
    at = λ s h. started (query begin s) ((query-Keeps P begin λ n t k. k).at s h);
  }
    where
      started :
          (x : Result (Unit {0}) × Session T) → Holds P x.1 → Holds P (begun_with policy fn x).1
      started (ok _, s) h = ended-Holds policy fn s (fn s).0 (fn s).1 c h refl
      started (err e, s) h = h
