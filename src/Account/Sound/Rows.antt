-- ===== src/Account/Sound/Rows.antt =====
-- Tables whose rows have a property and distinct identifiers, and the invariant of the users.
use go_starter_kit.Base.{
  Str, Bool, true, false, List, ◌∷◌, ◌≡◌, arith, str_eq, any_by, update_by, none_by, map,
  map-update_by, map-All, All, All-update_by, AreDistinct, ltb, ◌&&◌, subst, sym,
}
use go_starter_kit.Account.Tables.{User}
use go_starter_kit.Account.Users.{fresh_user}
use go_starter_kit.Account.Enums.{user_status_valid, role_valid, settable}
use go_starter_kit.Account.Kept.{IsKept}
use go_starter_kit.Account.Lasting.Users.{
  Change, Change-id, activation, bump, release, new_status, new_email, rename, UserRules,
  IsKept-users,
}

module _ {A : Type 0} (key : A → Str) (Q : A → Type 0) where
  -- Each row has the property, and no identifier stands twice.
  pub record AreRows (xs : List A) : Type 0 where
    pub proper : All Q xs
    pub distinct : AreDistinct (map key xs)

  pub AreRows-update_by :
      (p : A → Bool) (f : A → A)
      → ((x : A) → key (f x) ≡ key x)
      → ((x : A) → p x ≡ true → Q x → Q (f x))
      → (xs : List A) → AreRows xs
      → AreRows (update_by p f xs)
  AreRows-update_by p f same keep xs h = record {
    proper = All-update_by Q p f keep xs h.proper;
    distinct = subst AreDistinct (sym (map-update_by key p f same xs)) h.distinct;
  }

  pub AreRows-cons :
      (x : A) (xs : List A)
      → any_by (λ y. str_eq (key y) (key x)) xs ≡ false
      → Q x
      → AreRows xs
      → AreRows (x ∷ xs)
  AreRows-cons x xs fresh q h = record {
    proper = (q, h.proper);
    distinct = (
      map-All key (λ j. str_eq j (key x) ≡ false) xs
          (none_by (λ y. str_eq (key y) (key x)) xs fresh),
      h.distinct,
    );
  }

-- A user has a status and a role of the program, and a version from 1 on.
abbrev pub is_proper_user : User → Bool
is_proper_user u = (user_status_valid u.status && role_valid u.role) && ltb 0 u.auth_version

abbrev pub AreUsers : List User → Type 0
AreUsers xs = AreRows (λ (u : User). u.id) (λ u. is_proper_user u ≡ true) xs

is_proper_user-kept :
    (f : User → User) (u : User) → Change f → is_proper_user u ≡ true → is_proper_user (f u) ≡ true
unfolding user_status_valid settable
is_proper_user-kept f u (activation now) h = ground arith
is_proper_user-kept f u (bump now) h = ground arith
is_proper_user-kept f u (release now) h = ground arith
is_proper_user-kept f u (new_status v now fits) h = ground arith
is_proper_user-kept f u (new_email a n now) h = ground arith
is_proper_user-kept f u (rename name now) h = h

users-AreUsers : UserRules AreUsers
unfolding user_status_valid role_valid
users-AreUsers = record {
  moves = λ p f xs c h.
      AreRows-update_by (λ u. u.id) (λ u. is_proper_user u ≡ true) p f (λ u. Change-id f u c)
        (λ u e q. is_proper_user-kept f u c q) xs h;
  adds = λ id name email normalized status now xs first fresh h.
      AreRows-cons (λ u. u.id) (λ u. is_proper_user u ≡ true)
        (fresh_user id name email normalized status now) xs fresh (ground arith) h;
}

pub IsKept-AreUsers : IsKept (λ t. AreUsers t.users)
IsKept-AreUsers = IsKept-users AreUsers users-AreUsers
