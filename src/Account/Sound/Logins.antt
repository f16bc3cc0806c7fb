-- ===== src/Account/Sound/Logins.antt =====
-- The invariant of the accounts (accounts.sql.go, and the rules of CreateAccount in store.go).
use go_starter_kit.Base.{
  ℕ, Str, Bool, true, false, List, ◌∷◌, Option, none, some, ◌≡◌, ◌⊎◌, inl, inr, refl, arith, str_eq,
  any_by, update_by, ltb, not, ◌&&◌, ◌||◌, if◌then◌else◌, is_some,
}
use go_starter_kit.Account.Tables.{Account, Tables}
use go_starter_kit.Account.Enums.{local_namespace}
use go_starter_kit.Account.Accounts.{
  credential, CreateAccountParams, new_account, create_account, account_conflict, insert_account,
  change_password, upgrade_password_hash, touch_account, revoke_account, with_password,
  closed_account, used, rehashed, is_same, is_open_account, is_account, is_password,
}
use go_starter_kit.Account.Store.{has_text, valid_account}
use go_starter_kit.Account.Kept.{
  KeptAccounts, IsKept, free_users, free_sessions, free_flows, free_verifications, free_rest,
}
use go_starter_kit.Account.Sound.Rows.{AreRows, AreRows-update_by, AreRows-cons}

-- A password belongs to the user under the local namespace; an account of a provider is elsewhere, and
-- has no password.
abbrev pub is_proper_account : Account → Bool
is_proper_account a =
    (if str_eq a.provider_id credential
      then str_eq a.provider_namespace local_namespace
        && (str_eq a.provider_account_id a.user_id && has_text a.password_hash)
      else not (str_eq a.provider_namespace local_namespace || is_some a.password_hash))
    && ltb 0 a.version

abbrev pub AreAccounts : List Account → Type 0
AreAccounts xs = AreRows (λ (a : Account). a.id) (λ a. is_proper_account a ≡ true) xs

module _ (p : CreateAccountParams) (now : ℕ) (t : Tables) where
  account_conflict-fresh :
      account_conflict p t.accounts ≡ none → any_by (λ a. str_eq a.id p.id) t.accounts ≡ false
  unfolding account_conflict
  account_conflict-fresh e = ground arith

  insert_account-cases :
      (o : Option Str)
      → ((insert_account p now t o).1 ≡ t)
        ⊎ ((o ≡ none)
            × ((insert_account p now t o).1
                ≡ record t { accounts = new_account p now ∷ t.accounts }))
  insert_account-cases (some index) = inl refl
  insert_account-cases none = ground arith

  create_account-cases :
      ((create_account p now t).1 ≡ t)
      ⊎ ((any_by (λ a. str_eq a.id p.id) t.accounts ≡ false)
          × ((create_account p now t).1 ≡ record t { accounts = new_account p now ∷ t.accounts }))
  unfolding create_account
  create_account-cases = elim (insert_account-cases (account_conflict p t.accounts)) [
    | inl same ↦ inl same
    | inr (free, same) ↦ inr (account_conflict-fresh free, same)
  ]

new_account-proper :
    (p : CreateAccountParams) (now : ℕ)
    → valid_account p ≡ true
    → is_proper_account (new_account p now) ≡ true
unfolding valid_account
new_account-proper p now fits = ground arith

with_password-proper :
    (hash : Option Str) (now : ℕ) (a : Account)
    → has_text hash ≡ true
    → str_eq a.provider_id credential ≡ true
    → is_proper_account a ≡ true
    → is_proper_account (with_password hash now a) ≡ true
with_password-proper hash now a text own h = ground arith

is_same-some : (a b : Option Str) → is_same a b ≡ true → is_some a ≡ true
is_same-some none b e = ground arith
is_same-some (some x) b e = refl

rehashed-proper :
    (hash : Option Str) (now : ℕ) (a : Account)
    → has_text hash ≡ true
    → is_some a.password_hash ≡ true
    → is_proper_account a ≡ true
    → is_proper_account (rehashed hash now a) ≡ true
rehashed-proper hash now a text own h = ground arith

closed_account-proper :
    (now : ℕ) (a : Account)
    → is_proper_account a ≡ true
    → is_proper_account (closed_account now a) ≡ true
closed_account-proper now a h = ground arith

updates :
    (p : Account → Bool) (f : Account → Account)
    → ((a : Account) → (f a).id ≡ a.id)
    → ((a : Account) → p a ≡ true → is_proper_account a ≡ true → is_proper_account (f a) ≡ true)
    → (xs : List Account) → AreAccounts xs
    → AreRows (λ (a : Account). a.id) (λ a. is_proper_account a ≡ true) (update_by p f xs)
updates p f same keep xs h =
    AreRows-update_by (λ a. a.id) (λ a. is_proper_account a ≡ true) p f same keep xs h

accounts-AreAccounts : KeptAccounts (λ t. AreAccounts t.accounts)
unfolding change_password upgrade_password_hash touch_account revoke_account
accounts-AreAccounts = record {
  creates = λ p now t fits h. elim (create_account-cases p now t) [
    | inl same ↦ rw same h
    | inr (fresh, same) ↦ rw same (
        AreRows-cons (λ a. a.id) (λ a. is_proper_account a ≡ true) (new_account p now) t.accounts
          fresh (new_account-proper p now fits) h)
  ];
  changes = λ id user hash now t fits h.
      updates (λ a. is_account id user a && is_password a) (with_password hash now) (λ _. refl)
        (λ a e g. with_password-proper hash now a fits (ground arith) g) t.accounts h;
  upgrades = λ id user hash old now t fits h.
      updates (λ a. is_open_account id user a && is_same a.password_hash old) (rehashed hash now)
        (λ _. refl)
        (λ a e g.
          rehashed-proper hash now a fits (is_same-some a.password_hash old (ground arith)) g)
        t.accounts h;
  touches = λ id user now t h.
      updates (is_account id user) (used now) (λ _. refl) (λ a e g. g) t.accounts h;
  revokes = λ id user now t h.
      updates (is_open_account id user) (closed_account now) (λ _. refl)
        (λ a e g. closed_account-proper now a g) t.accounts h;
}

pub IsKept-AreAccounts : IsKept (λ t. AreAccounts t.accounts)
IsKept-AreAccounts =
    let P = λ (t : Tables). AreAccounts t.accounts in
    record {
      users = free_users P λ l t h. h;
      accounts = accounts-AreAccounts;
      sessions = free_sessions P λ l t h. h;
      flows = free_flows P λ l t h. h;
      verifications = free_verifications P λ l t h. h;
      rest = free_rest P λ a b m t h. h;
    }
