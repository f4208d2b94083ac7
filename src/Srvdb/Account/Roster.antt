-- ===== src/Srvdb/Account/Roster.antt =====
-- The table of accounts: names are unique and there are at most MAX_USER_NUM.
use bookshelfdq.Base.{
  ◌≤◌, ◌<◌, ◌≡◌, refl, subst, inl, inr, Option, List, [], ◌∷◌, ◌++◌, length, length-append, keep,
  Text, text_eq, text_eq_sound, arith, Bool-cases,
}
use bookshelfdq.Clisrv.{max_user_num, Message}
use bookshelfdq.Mysql.Statement.{AccountRow}
use bookshelfdq.Mysql.Rows.Update.{update_rows}
use bookshelfdq.Mysql.Meaning.{Tables, named}
use bookshelfdq.Mysql.Client.{Mysql, IsDocumented}
use bookshelfdq.Srvdb.Connection.Keeps.{tables_of}
use bookshelfdq.Srvdb.Connection.{Server}
use bookshelfdq.Srvdb.Account.{Bcrypt, account_row, srvdb_account_register, srvdb_account_update}
use bookshelfdq.Srvdb.Account.Register.{
  of_name, with_account, with_password, turned_away, hashed, account_register-Registered,
  account_update-Repassworded,
}

pub record IsRoster (rows : List AccountRow) : Type 0 where
  pub few : length rows ≤ max_user_num
  pub unique : (n : Text) → length (of_name n rows) ≤ 1

pub of_name-append :
    (n : Text) (xs ys : List AccountRow) → of_name n (xs ++ ys) ≡ of_name n xs ++ of_name n ys
unfolding keep
of_name-append n [] ys = refl
of_name-append n (x ∷ xs) ys = ground (arith, of_name-append n xs ys)

-- Changing passwords changes no name.
length-of_name :
    (n k hash : Text) (xs : List AccountRow)
    → length (of_name n (update_rows (named k) (λ a. record a { password = hash }) xs))
      ≡ length (of_name n xs)
unfolding keep update_rows named
length-of_name n k hash [] = refl
length-of_name n k hash (x ∷ xs) = ground (arith, length-of_name n k hash xs)

length-update_rows :
    (k hash : Text) (xs : List AccountRow)
    → length (update_rows (named k) (λ a. record a { password = hash }) xs) ≡ length xs
unfolding update_rows
length-update_rows k hash [] = refl
length-update_rows k hash (x ∷ xs) = omega (arith, length-update_rows k hash xs)

with_account-IsRoster :
    (a : AccountRow) (t : Tables)
    → IsRoster t.accounts
    → of_name a.name t.accounts ≡ []
    → length t.accounts < max_user_num
    → IsRoster (with_account a t).accounts
unfolding named keep
with_account-IsRoster a t v free room = record {
  few = omega (arith, length-append t.accounts (a ∷ []));
  unique = λ n. elim (Bool-cases (text_eq a.name n)) [
    | inl same ↦
        let name : a.name ≡ n = text_eq_sound a.name n same in
        let none_yet : of_name n t.accounts ≡ [] =
          subst (λ (x : Text). of_name x t.accounts ≡ []) name free in
        rw (of_name-append n t.accounts (a ∷ []), none_yet, same) (omega arith)
    | inr other ↦
        rw (of_name-append n t.accounts (a ∷ []), other, length-append (of_name n t.accounts) [])
          (omega (arith, v.unique n))
  ];
}

pub with_password-IsRoster :
    (n hash : Text) (t : Tables) → IsRoster t.accounts → IsRoster (with_password n hash t).accounts
with_password-IsRoster n hash t v = record {
  few = omega (arith, length-update_rows n hash t.accounts, v.few);
  unique = λ k. omega (arith, length-of_name k n hash t.accounts, v.unique k);
}

module _ (m : Mysql) (d : IsDocumented m) (b : Bcrypt) (salt : Option Text) (msg : Message)
    (s : Server m) (v : IsRoster (tables_of m d s).accounts) where
  -- Whatever the server answers, a registration keeps the names of the accounts unique and their
  -- number within MAX_USER_NUM.
  pub account_register-IsRoster :
      IsRoster (tables_of m d (srvdb_account_register m b salt msg s).2).accounts
  account_register-IsRoster = elim (account_register-Registered m d b salt msg s) [
    | inl (e, k) ↦ rw k v
    | inr (free, room, h) ↦ elim h [
      | turned_away e k ↦ rw k v
      | hashed hash e made k ↦
          rw k (with_account-IsRoster (account_row m b msg hash) (tables_of m d s) v free room)
    ]
  ]

  -- So does an update.
  pub account_update-IsRoster :
      IsRoster (tables_of m d (srvdb_account_update m b salt msg s).2).accounts
  account_update-IsRoster = elim (account_update-Repassworded m d b salt msg s) [
    | inl (e, k) ↦ rw k v
    | inr (there, h) ↦ elim h [
      | turned_away e k ↦ rw k v
      | hashed hash e made k ↦
          rw k (with_password-IsRoster msg.account.name hash (tables_of m d s) v)
    ]
  ]
