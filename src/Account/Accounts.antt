-- ===== src/Account/Accounts.antt =====
-- internal/db/sqlc/accounts.sql.go: the statements on the table accounts, with its three partial unique
-- indexes.
use go_starter_kit.Base.{
  ℕ, ◌+◌, Str, Bool, false, ◌&&◌, ◌||◌, List, ◌∷◌, Option, none, some, codes, str_eq, opt_is, ltb,
  ◌==◌, filter_by, find_by, any_by, count_by, update_by, sort_by, if◌then◌else◌, is_some,
}
use go_starter_kit.AppError.{pg, no_rows}
use go_starter_kit.Db.{Result, ok, err, Statement, unique_violation}
use go_starter_kit.Account.Tables.{Account, Tables, user_of, is_open, foreign_key_violation}

abbrev pub credential : Str
credential = codes "credential"

abbrev pub one_account : Option Account → Result Account
one_account none = err no_rows
one_account (some a) = ok a

-- WHERE id = $1 AND user_id = $2
abbrev pub is_account : Str → Str → Account → Bool
is_account id user a = str_eq a.id id && str_eq a.user_id user

-- … AND revoked_at IS NULL
abbrev pub is_open_account : Str → Str → Account → Bool
is_open_account id user a = is_account id user a && is_open a.revoked_at

-- provider_id = 'credential' AND revoked_at IS NULL
abbrev pub is_password : Account → Bool
is_password a = str_eq a.provider_id credential && is_open a.revoked_at

abbrev pub with_password : Option Str → ℕ → Account → Account
with_password hash now a = record a {
  password_hash = hash;
  version = a.version + 1;
  updated_at = now;
}

-- ChangePassword
unfoldable pub change_password : Str → Str → Option Str → Statement Tables ℕ
change_password id user hash now t =
    let p = λ (a : Account). is_account id user a && is_password a in
    (
      ok (count_by p t.accounts),
      record t { accounts = update_by p (with_password hash now) t.accounts },
    )

pub record CreateAccountParams : Type 0 where
  pub id : Str
  pub user_id : Str
  pub provider_id : Str
  pub provider_account_id : Str
  pub provider_namespace : Str
  pub password_hash : Option Str

abbrev pub new_account : CreateAccountParams → ℕ → Account
new_account p now = record {
  id = p.id;
  user_id = p.user_id;
  provider_id = p.provider_id;
  provider_account_id = p.provider_account_id;
  provider_namespace = p.provider_namespace;
  password_hash = p.password_hash;
  version = 1;
  created_at = now;
  updated_at = now;
  last_used_at = none;
  revoked_at = none;
}

-- accounts_provider_identity_key
abbrev pub same_provider : CreateAccountParams → Account → Bool
same_provider p a =
    (str_eq a.provider_id p.provider_id && str_eq a.provider_account_id p.provider_account_id)
    && is_open a.revoked_at

-- WHERE provider_namespace = $1 AND provider_account_id = $2 AND revoked_at IS NULL
abbrev pub is_identity : Str → Str → Account → Bool
is_identity namespace subject a =
    (str_eq a.provider_namespace namespace && str_eq a.provider_account_id subject)
    && is_open a.revoked_at

-- accounts_user_credential_key
abbrev pub same_credential : CreateAccountParams → Account → Bool
same_credential p a =
    (str_eq p.provider_id credential && is_password a) && str_eq a.user_id p.user_id

-- The index that refuses the row, in the order of their creation.
unfoldable pub account_conflict : CreateAccountParams → List Account → Option Str
account_conflict p accounts =
    if any_by (λ a. str_eq a.id p.id) accounts
    then some (codes "accounts_pkey")
    else if any_by (same_provider p) accounts
    then some (codes "accounts_provider_identity_key")
    else if any_by (is_identity p.provider_namespace p.provider_account_id) accounts
    then some (codes "accounts_namespace_identity_key")
    else if any_by (same_credential p) accounts
    then some (codes "accounts_user_credential_key")
    else none

abbrev pub insert_account : CreateAccountParams → ℕ → Tables → Option Str → Result Account × Tables
insert_account p now t (some index) = (err (pg unique_violation index), t)
insert_account p now t none =
    if is_some (user_of p.user_id t.users)
    then (ok (new_account p now), record t { accounts = new_account p now ∷ t.accounts })
    else (err (pg foreign_key_violation (codes "accounts_user_id_fkey")), t)

-- CreateAccount
unfoldable pub create_account : CreateAccountParams → Statement Tables Account
create_account p now t = insert_account p now t (account_conflict p t.accounts)

-- FindProviderAccount
unfoldable pub find_provider_account : Str → Str → Statement Tables Account
find_provider_account namespace subject now t =
    (one_account (find_by (is_identity namespace subject) t.accounts), t)

-- GetAccount
unfoldable pub get_account : Str → Str → Statement Tables Account
get_account id user now t = (one_account (find_by (is_open_account id user) t.accounts), t)

-- GetPasswordAccount
unfoldable pub get_password_account : Str → Statement Tables Account
get_password_account user now t =
    (one_account (find_by (λ a. str_eq a.user_id user && is_password a) t.accounts), t)

-- ORDER BY created_at, id
abbrev pub oldest_first : (Str → Str → Bool) → Account → Account → Bool
oldest_first id_le a b =
    ltb a.created_at b.created_at || (a.created_at == b.created_at && id_le a.id b.id)

abbrev pub is_open_of : Str → Account → Bool
is_open_of user a = str_eq a.user_id user && is_open a.revoked_at

-- ListAccounts
unfoldable pub list_accounts : (Str → Str → Bool) → Str → Statement Tables (List Account)
list_accounts id_le user now t =
    (ok (sort_by (oldest_first id_le) (filter_by (is_open_of user) t.accounts)), t)

abbrev pub closed_account : ℕ → Account → Account
closed_account now a = record a { revoked_at = some now; version = a.version + 1; updated_at = now }

-- RevokeAccount
unfoldable pub revoke_account : Str → Str → Statement Tables ℕ
revoke_account id user now t = (
  ok (count_by (is_open_account id user) t.accounts),
  record t { accounts = update_by (is_open_account id user) (closed_account now) t.accounts },
)

abbrev pub used : ℕ → Account → Account
used now a = record a { last_used_at = some now }

-- TouchAccount
unfoldable pub touch_account : Str → Str → Statement Tables (Unit {0})
touch_account id user now t =
    (ok tt, record t { accounts = update_by (is_account id user) (used now) t.accounts })

-- Equality of two nullable texts in SQL.
abbrev pub is_same : Option Str → Option Str → Bool
is_same none b = false
is_same (some a) b = opt_is b a

abbrev pub rehashed : Option Str → ℕ → Account → Account
rehashed hash now a = record a { password_hash = hash; updated_at = now }

-- UpgradePasswordHash
unfoldable pub upgrade_password_hash :
    Str → Str → Option Str → Option Str → Statement Tables (Unit {0})
upgrade_password_hash id user hash old now t = (
  ok tt,
  record t {
    accounts =
        update_by (λ a. is_open_account id user a && is_same a.password_hash old)
          (rehashed hash now) t.accounts;
  },
)
