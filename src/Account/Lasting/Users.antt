-- ===== src/Account/Lasting/Users.antt =====
-- What the statements on the table users keep true of its rows (users.sql.go).
use go_starter_kit.Base.{
  ℕ, Str, Bool, true, false, List, [], ◌∷◌, Option, none, some, ◌≡◌, ◌⊎◌, inl, inr, refl, arith,
  str_eq, ltb, any_by, All, Bool-cases, find_by, is_some, All-update_by, update_by, ◌&&◌, ◌||◌,
}
use go_starter_kit.Account.Tables.{User, Tables, active, pending}
use go_starter_kit.Account.Enums.{settable}
use go_starter_kit.Account.Users.{
  activate_user, bump_user_version, create_federated_user, create_pending_user,
  release_pending_email, set_user_status, update_user_email, update_user_profile, fresh_user,
  changed, activated, bumped, released, with_status, with_email, renamed, is_active_user, is_taken,
}
use go_starter_kit.Account.Kept.{
  KeptUsers, IsKept, free_accounts, free_sessions, free_flows, free_verifications, free_rest,
}
use go_starter_kit.Account.Standing.{Stands, Stands-update_by, Stands-cons}

-- A change of a row that the statements make.
pub data Change : (User → User) → Type 0 where
  activation : (now : ℕ) → Change (activated now)
  bump : (now : ℕ) → Change (bumped now)
  release : (now : ℕ) → Change (released now)
  new_status : (v : Str) (now : ℕ) → settable v ≡ true → Change (with_status v now)
  new_email : (a n : Option Str) (now : ℕ) → Change (with_email a n now)
  rename : (name : Str) (now : ℕ) → Change (renamed name now)

-- The status of a new row.
abbrev pub is_first_status : Str → Bool
is_first_status v = str_eq v active || str_eq v pending

-- What a property of the table needs to be kept: it survives each change of selected rows, and a new
-- row whose identifier is not there yet.
pub record UserRules (I : List User → Type 0) : Type 0 where
  pub moves :
      (p : User → Bool) (f : User → User) (xs : List User) → Change f → I xs → I (update_by p f xs)
  pub adds :
      (id name : Str) (email normalized : Option Str) (status : Str) (now : ℕ) (xs : List User)
      → is_first_status status ≡ true
      → any_by (λ (u : User). str_eq u.id id) xs ≡ false
      → I xs
      → I (fresh_user id name email normalized status now ∷ xs)

create_federated_user-cases :
    (id name : Str) (now : ℕ) (t : Tables)
    → ((create_federated_user id name now t).1 ≡ t)
      ⊎ ((any_by (λ (u : User). str_eq u.id id) t.users ≡ false)
          × ((create_federated_user id name now t).1
              ≡ record t { users = fresh_user id name none none active now ∷ t.users }))
unfolding create_federated_user
create_federated_user-cases id name now t = ground arith

create_pending_user-cases :
    (id : Str) (email normalized : Option Str) (now : ℕ) (t : Tables)
    → ((create_pending_user id email normalized now t).1 ≡ t)
      ⊎ ((any_by (λ (u : User). str_eq u.id id) t.users ≡ false)
          × ((create_pending_user id email normalized now t).1
              ≡ record t { users = fresh_user id [] email normalized pending now ∷ t.users }))
unfolding create_pending_user
create_pending_user-cases id email normalized now t = ground arith

update_user_email-cases :
    (id : Str) (email normalized : Option Str) (now : ℕ) (t : Tables)
    → ((update_user_email id email normalized now t).1 ≡ t)
      ⊎ ((update_user_email id email normalized now t).1
          ≡ (changed
              (is_active_user id)
              (with_email email normalized now)
              t
              (find_by (is_active_user id) t.users)).1)
unfolding update_user_email
update_user_email-cases id email normalized now t =
    elim (Bool-cases
      (is_some (find_by (is_active_user id) t.users) && any_by (is_taken id normalized) t.users)) [
        | inl taken ↦ inl (rw taken)
        | inr free ↦ inr (rw free)
      ]

module _ (I : List User → Type 0) (rules : UserRules I) where
  changed-kept :
      (p : User → Bool) (f : User → User) (t : Tables) (o : Option User)
      → Change f
      → I t.users
      → I (changed p f t o).1.users
  changed-kept p f t none c h = h
  changed-kept p f t (some _) c h = rules.moves p f t.users c h

  update_user_email-kept :
      (id : Str) (email normalized : Option Str) (now : ℕ) (t : Tables)
      → I t.users
      → I (update_user_email id email normalized now t).1.users
  update_user_email-kept id email normalized now t h =
      elim (update_user_email-cases id email normalized now t) [
        | inl same ↦ rw same h
        | inr same ↦ rw same (
            changed-kept _ _ t (find_by (is_active_user id) t.users)
              (new_email email normalized now) h)
      ]

  users-kept : KeptUsers (λ t. I t.users)
  unfolding activate_user bump_user_version release_pending_email set_user_status
      update_user_profile
  users-kept = record {
    pending = λ id email normalized now t h.
        elim (create_pending_user-cases id email normalized now t) [
          | inl same ↦ rw same h
          | inr (fresh, same) ↦
              rw same (rules.adds id [] email normalized pending now t.users refl fresh h)
        ];
    federated = λ id name now t h. elim (create_federated_user-cases id name now t) [
      | inl same ↦ rw same h
      | inr (fresh, same) ↦ rw same (rules.adds id name none none active now t.users refl fresh h)
    ];
    activates = λ id now t h. changed-kept _ _ t _ (activation now) h;
    emails = update_user_email-kept;
    releases = λ e now t h. rules.moves _ _ t.users (release now) h;
    profiles = λ name id session now t h. changed-kept _ _ t _ (rename name now) h;
    statuses = λ id v now t fits h. changed-kept _ _ t _ (new_status v now fits) h;
    bumps = λ id now t h. rules.moves _ _ t.users (bump now) h;
  }

  pub IsKept-users : IsKept (λ t. I t.users)
  IsKept-users = record {
    users = users-kept;
    accounts = free_accounts (λ t. I t.users) λ l t h. h;
    sessions = free_sessions (λ t. I t.users) λ l t h. h;
    flows = free_flows (λ t. I t.users) λ l t h. h;
    verifications = free_verifications (λ t. I t.users) λ l t h. h;
    rest = free_rest (λ t. I t.users) λ a b m t h. h;
  }

-- A property of each row.
pub record RowRules (Q : User → Type 0) : Type 0 where
  pub moves : (f : User → User) (u : User) → Change f → Q u → Q (f u)
  pub adds :
      (id name : Str) (email normalized : Option Str) (status : Str) (now : ℕ)
      → is_first_status status ≡ true
      → Q (fresh_user id name email normalized status now)

pub All-UserRules : (Q : User → Type 0) → RowRules Q → UserRules (All Q)
All-UserRules Q r = record {
  moves = λ p f xs c h. All-update_by Q p f (λ x e q. r.moves f x c q) xs h;
  adds = λ id name email normalized status now xs first fresh h.
      (r.adds id name email normalized status now first, h);
}

pub Change-id : (f : User → User) (u : User) → Change f → (f u).id ≡ u.id
Change-id f u (activation now) = refl
Change-id f u (bump now) = refl
Change-id f u (release now) = refl
Change-id f u (new_status v now fits) = refl
Change-id f u (new_email a n now) = refl
Change-id f u (rename name now) = refl

-- A test of the row under one identifier.
pub Stands-UserRules :
    (id : Str) (good : User → Bool)
    → ((f : User → User) (u : User) → Change f → good u ≡ true → good (f u) ≡ true)
    → UserRules (Stands (λ (u : User). u.id) id good)
Stands-UserRules id good keep = record {
  moves = λ p f xs c h.
      Stands-update_by _ id good p f (λ u. Change-id f u c) (λ u e g. keep f u c g) xs h;
  adds = λ at name email normalized status now xs first fresh h.
      Stands-cons _ id good (fresh_user at name email normalized status now) xs fresh h;
}

-- The version is later than `v`.
abbrev pub is_past : ℕ → User → Bool
is_past v u = ltb v u.auth_version

pub is_past-kept :
    (v : ℕ) (f : User → User) (u : User) → Change f → is_past v u ≡ true → is_past v (f u) ≡ true
is_past-kept v f u (activation now) g = g
is_past-kept v f u (bump now) g = ground arith
is_past-kept v f u (release now) g = ground arith
is_past-kept v f u (new_status w now fits) g = ground arith
is_past-kept v f u (new_email a n now) g = ground arith
is_past-kept v f u (rename name now) g = g
