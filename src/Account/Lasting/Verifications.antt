-- ===== src/Account/Lasting/Verifications.antt =====
-- A challenge that has been solved stays solved (auth_verifications.sql.go).
use go_starter_kit.Base.{
  ℕ, Str, Bool, false, not, List, ◌∷◌, Option, none, some, ◌≡◌, ◌⊎◌, inl, inr, refl, ap, arith,
  subst, str_eq, any_by, map, AreDistinct, Bool-cases,
}
use go_starter_kit.Db.{Result, ok, Session, ok-injective}
use go_starter_kit.Db.Keeps.{OthersKeep}
use go_starter_kit.Account.Tables.{AuthVerification, Tables, is_open}
use go_starter_kit.Account.Records.{
  CreateVerificationParams, create_verification, consume_verification, find_verification,
  new_verification, is_unconsumed, spent, one_verification,
}
use go_starter_kit.Account.Env.{Env}
use go_starter_kit.Account.Kept.{
  KeptRecords, IsKept, free_users, free_accounts, free_sessions, free_flows, free_rest,
}
use go_starter_kit.Account.Calls.{Call, runs, runs-Holds}
use go_starter_kit.Account.Standing.{
  Stands, Stands-update_by, Stands-cons, count-Stands, changed-Stands, found-Stands,
}

abbrev pub is_solved : AuthVerification → Bool
is_solved v = not (is_open v.consumed_at)

-- The challenge `id` is there, and solved.
abbrev pub IsSolved : Str → Tables → Type 0
IsSolved id t = Stands (λ (v : AuthVerification). v.id) id is_solved t.verifications

create_verification-cases :
    (p : CreateVerificationParams) (now : ℕ) (t : Tables)
    → ((create_verification p now t).1 ≡ t)
      ⊎ ((any_by (λ (v : AuthVerification). str_eq v.id p.id) t.verifications ≡ false)
          × ((create_verification p now t).1
              ≡ record t { verifications = new_verification p now ∷ t.verifications }))
unfolding create_verification
create_verification-cases p now t = ground arith

module _ (id : Str) where
  verifications-IsSolved : KeptRecords (IsSolved id)
  unfolding consume_verification
  verifications-IsSolved = record {
    creates = λ p now t h. elim (create_verification-cases p now t) [
      | inl same ↦ rw same h
      | inr (fresh, same) ↦
          rw same (Stands-cons _ id is_solved (new_verification p now) t.verifications fresh h)
    ];
    consumes = λ at user now t h.
        Stands-update_by _ id is_solved _ (spent now) (λ _. refl) (λ x e g. refl) t.verifications h;
  }

  IsKept-IsSolved : IsKept (IsSolved id)
  IsKept-IsSolved = record {
    users = free_users (IsSolved id) λ l t h. h;
    accounts = free_accounts (IsSolved id) λ l t h. h;
    sessions = free_sessions (IsSolved id) λ l t h. h;
    flows = free_flows (IsSolved id) λ l t h. h;
    verifications = verifications-IsSolved;
    rest = free_rest (IsSolved id) λ a b m t h. h;
  }

consume_verification-IsSolved :
    (id user : Str) (now : ℕ) (t : Tables) {t' : Tables}
    → AreDistinct (map (λ (v : AuthVerification). v.id) t.verifications)
    → consume_verification id user now t ≡ (ok 1, t')
    → IsSolved id t'
unfolding consume_verification
consume_verification-IsSolved id user now t distinct e =
    subst (IsSolved id) (ap (λ (x : Result ℕ × Tables). x.1) e) (
      changed-Stands (λ v. v.id) id is_solved (is_unconsumed id user now) (spent now) (λ _. refl)
        (λ x h. ground arith) (λ x h. refl) t.verifications distinct
        (ok-injective (ap (λ (x : Result ℕ × Tables). x.0) e)))

one_verification-ok :
    (o : Option AuthVerification) {v : AuthVerification} → one_verification o ≡ ok v → o ≡ some v
one_verification-ok none e = ground arith
one_verification-ok (some x) e = ground arith

-- Where the identifiers of the challenges are distinct, a challenge that was solved cannot be solved
-- again: whatever calls of the service follow, with whatever faults of the database, and whatever the
-- other processes do that leave it solved, no token finds it, and a statement that would consume it
-- for any user finds no row.
pub solved_once :
    (id user : Str) (now : ℕ) (t : Tables) (s : Session Tables) (calls : List (Env × Call))
    → AreDistinct (map (λ (v : AuthVerification). v.id) t.verifications)
    → consume_verification id user now t ≡ (ok 1, s.table)
    → OthersKeep (IsSolved id) s
    → ((hash : Str) (later : ℕ) (v : AuthVerification)
        → (find_verification hash later (runs calls s).table).0 ≡ ok v
        → str_eq v.id id ≡ false)
      × ((who : Str) (later : ℕ)
          → (consume_verification id who later (runs calls s).table).0 ≡ ok 0)
unfolding find_verification consume_verification
solved_once id user now t s calls distinct done others =
    let h =
      (runs-Holds (IsSolved id) (IsKept-IsSolved id) calls s (record {
        now = consume_verification-IsSolved id user now t distinct done;
        later = others;
      })).now in
    let after = (runs calls s).table.verifications in
    (
      λ hash later v e.
          let (test, fine) =
            found-Stands (λ x. x.id) id is_solved _ after h (one_verification-ok _ e) in
          elim (Bool-cases (str_eq v.id id)) [
            | inl is ↦ let solved = fine is in absurd (ground arith)
            | inr other ↦ other
          ],
      λ who later. ap Result.ok (
          count-Stands (λ x. x.id) id is_solved (is_unconsumed id who later) after
            (λ x e. (ground arith, ground arith)) h),
    )
