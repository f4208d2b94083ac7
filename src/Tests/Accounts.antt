-- ===== src/Tests/Accounts.antt =====
-- The accounts' part of srvdb.c at concrete inputs.
use bookshelfdq.Base.{
  ◌≡◌, ◌∷◌, [], ◌++◌, refl, some, true, arith, codes, text_eq, text_eq_refl, keep, ◌≤◌, Bool-cases,
  inl, inr, length, Text, if◌then◌else◌,
}
use bookshelfdq.Clisrv.{Message, account_user}
use bookshelfdq.Mysql.Meaning.{Tables, meaning, named}
use bookshelfdq.Srvdb.Connection.{run, is_failed, get_simple_int}
use bookshelfdq.Srvdb.Account.{
  Bcrypt, matches, differs, srvdb_account_verify, srvdb_account_register, register_named,
  store_hash, new_hash,
}
use bookshelfdq.Srvdb.Account.Register.{of_name, Registered, account_register-Registered}
use bookshelfdq.Srvdb.Account.Roster.{IsRoster}
use bookshelfdq.Srvdb.Account.Verify.{registered_verify}
use bookshelfdq.Tests.Engine.{
  ideal, ideal-IsDocumented, ideal-IsReliable, at_tables, three_books, a_message,
}

-- A hash that is the password behind the salt.
abbrev pub plain : Bcrypt
plain = record {
  hashpw = λ p x. some (codes "$" ++ p);
  checkpw = λ p hash. if text_eq (codes "$" ++ p) hash then matches else differs;
}

abbrev pub one_account : Tables
one_account = record three_books {
  accounts = record { name = codes "ann"; password = codes "$secret"; type = account_user } ∷ [];
}

at_most_one : (n : Text) → length (of_name n one_account.accounts) ≤ 1
unfolding named keep
at_most_one n = elim (Bool-cases (text_eq (codes "ann") n)) [
  | inl e ↦ rw e (omega arith)
  | inr e ↦ rw e (omega arith)
]

pub one_account-IsRoster : IsRoster one_account.accounts
one_account-IsRoster = record { few = omega arith; unique = at_most_one }

abbrev a_registration : Message
a_registration = record a_message {
  account = record { type = account_user; name = codes "tom"; password = codes "pass" };
}

register_example :
    Registered ideal ideal-IsDocumented plain
      (some [])
      a_registration
      one_account
      (srvdb_account_register ideal plain (some []) a_registration (at_tables one_account))
register_example =
    account_register-Registered ideal ideal-IsDocumented plain (some []) a_registration
      (at_tables one_account)

pub plain_checks : (p x hash : Text) → plain.hashpw p x ≡ some hash → plain.checkpw p hash ≡ matches
plain_checks p x hash h = ground (arith, text_eq_refl (codes "$" ++ p))

register_succeeds :
    (srvdb_account_register ideal plain (some []) a_registration (at_tables one_account)).0 ≡ true
unfolding srvdb_account_register register_named store_hash new_hash run meaning is_failed
    get_simple_int named keep text_eq
register_succeeds = refl

registered_example :
    (srvdb_account_verify ideal plain a_registration
      (srvdb_account_register ideal plain (some []) a_registration (at_tables one_account)).2).0
    ≡ true
registered_example =
    registered_verify ideal ideal-IsDocumented ideal-IsReliable plain a_registration (some [])
      (at_tables one_account) refl plain_checks register_succeeds
