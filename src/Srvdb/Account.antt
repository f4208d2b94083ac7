-- ===== src/Srvdb/Account.antt =====
-- The accounts' part of bsdqserver/srvdb.c, and the two functions that create tables.
pub mod Register
pub mod Roster
pub mod Verify
use bookshelfdq.Base.{
  ℕ, Text, codes, Bool, true, false, not, Option, none, some, leb, ◌==◌, if◌then◌else◌,
}
use bookshelfdq.Clisrv.{
  max_user_num, AccountType, account_admin, AccountEntry, req_register_account, Message,
}
use bookshelfdq.Mysql.Statement.{
  AccountRow, Statement, create_accounts, create_shelves, create_books, select_type,
  select_password, count_named, count_accounts, insert_account, set_password,
}
use bookshelfdq.Mysql.Meaning.{Outcome, type_code}
use bookshelfdq.Mysql.Client.{Mysql}
use bookshelfdq.Srvdb.Book.{Done, is_undefined, set_error}
use bookshelfdq.Srvdb.Connection.{
  Server, run, mysql_check_connection, get_simple_int, get_simple_text, is_failed,
}

-- bcrypt_checkpw: 0, -1, and every other value.
pub data Checked : Type 0 where
  matches check_error differs : Checked

-- libbcrypt, a copy of another project's library.
pub record Bcrypt : Type 0 where
  -- bcrypt_hashpw of a password and a salt, `none` where it fails
  pub hashpw : Text → Text → Option Text
  pub checkpw : Text → Text → Checked

abbrev pub too_many_users : Text
too_many_users = codes "创建账户失败:用户数达到上限"

abbrev pub user_exists : Text
user_exists = codes "创建账户失败:用户已存在"

abbrev pub wrong_account : Text
wrong_account = codes "帐号或密码错误"

abbrev pub admin_default_account : Text
admin_default_account = codes "shelfadmin"

abbrev pub admin_default_pw : Text
admin_default_pw = codes "000000"

module _ (m : Mysql) (b : Bcrypt) where
  unfoldable pub verify_password : Message → Server m → Done m
  verify_password msg s =
      let (o, s1) = run m (select_password msg.account.name) s in
      if is_failed o then (false, msg, mysql_check_connection m s1) else elim (get_simple_text o) [
        | none ↦ (false, msg, s1)
        | some hash ↦ elim (b.checkpw msg.account.password hash) [
          | check_error ↦ (false, msg, s1)
          | matches ↦ (true, msg, s1)
          | differs ↦ (false, set_error msg wrong_account, s1)
        ]
      ]

  unfoldable pub srvdb_account_verify : Message → Server m → Done m
  srvdb_account_verify msg s =
      if is_undefined msg.user
      then (false, msg, s)
      else (let (o, s1) = run m (select_type msg.account.name) s in
          if is_failed o
          then (false, msg, mysql_check_connection m s1)
          else elim (get_simple_int o) [
            | none ↦ (false, msg, s1)
            | some n ↦
                if not (n == type_code msg.account.type)
                then (false, set_error msg wrong_account, s1)
                else verify_password msg s1
          ])

  -- `salt` is what bcrypt_gensalt left, `none` where it failed.
  unfoldable pub new_hash : Option Text → Text → Option Text
  new_hash none password = none
  new_hash (some salt) password = b.hashpw password salt

  -- The last statement of a registration or an update, with the hash in it.
  unfoldable pub store_hash : (Text → Statement) → Option Text → Message → Server m → Done m
  store_hash q salt msg s = elim (new_hash salt msg.account.password) [
    | none ↦ (false, msg, s)
    | some hash ↦
        let (o, s1) = run m (q hash) s in
        if is_failed o then (false, msg, mysql_check_connection m s1) else (true, msg, s1)
  ]

  abbrev pub account_row : Message → Text → AccountRow
  account_row msg hash = record {
    name = msg.account.name;
    password = hash;
    type = msg.account.type;
  }

  unfoldable pub register_named : Option Text → Message → Server m → Done m
  register_named salt msg s =
      let (o, s1) = run m (count_named msg.account.name) s in
      if is_failed o then (false, msg, mysql_check_connection m s1) else elim (get_simple_int o) [
        | none ↦ (false, msg, s1)
        | some n ↦
            if not (n == 0)
            then (false, set_error msg user_exists, s1)
            else store_hash (λ hash. insert_account (account_row msg hash)) salt msg s1
      ]

  unfoldable pub srvdb_account_register : Option Text → Message → Server m → Done m
  srvdb_account_register salt msg s =
      if is_undefined msg.user
      then (false, msg, s)
      else (let (o, s1) = run m count_accounts s in
          if is_failed o
          then (false, msg, mysql_check_connection m s1)
          else elim (get_simple_int o) [
            | none ↦ (false, msg, s1)
            | some n ↦
                if leb max_user_num n
                then (false, set_error msg too_many_users, s1)
                else register_named salt msg s1
          ])

  unfoldable pub srvdb_account_update : Option Text → Message → Server m → Done m
  srvdb_account_update salt msg s =
      if is_undefined msg.user
      then (false, msg, s)
      else (let (o, s1) = run m (count_named msg.account.name) s in
          if is_failed o
          then (false, msg, mysql_check_connection m s1)
          else elim (get_simple_int o) [
            | none ↦ (false, msg, s1)
            | some n ↦
                if n == 0
                then (false, msg, s1)
                else store_hash (λ hash. set_password msg.account.name hash) salt msg s1
          ])

  -- The message that registers the default administrator; `stack` is what stood in its place.
  unfoldable pub admin_message : Message → Message
  admin_message stack = record stack {
    user = admin_default_account;
    request = req_register_account;
    account = record {
      type = account_admin;
      name = admin_default_account;
      password = admin_default_pw;
    };
  }

  unfoldable pub srvdb_accounts_table_init : Message → Option Text → Server m → Bool × Server m
  srvdb_accounts_table_init stack salt s =
      let (o, s1) = run m create_accounts s in
      if is_failed o
      then (false, s1)
      else (true, (srvdb_account_register salt (admin_message stack) s1).2)

  unfoldable pub srvdb_user_archive_init : Text → Server m → Bool × Server m
  srvdb_user_archive_init u s =
      let (o, s1) = run m (create_shelves u) s in
      if is_failed o
      then (false, mysql_check_connection m s1)
      else (let (o2, s2) = run m (create_books u) s1 in
          if is_failed o2 then (false, mysql_check_connection m s2) else (true, s2))
