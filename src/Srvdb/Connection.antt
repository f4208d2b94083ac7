-- ===== src/Srvdb/Connection.antt =====
-- The connection and the search result that bsdqserver/srvdb.c keeps in static variables, and the
-- functions that manage them.
pub mod Keeps
use bookshelfdq.Base.{
  ℕ, Text, Bool, true, false, Option, none, some, List, [], take, ◌||◌, ◌==◌, if◌then◌else◌,
}
use bookshelfdq.Mysql.Statement.{BookRow, ShelfRow, Statement}
use bookshelfdq.Mysql.Meaning.{Outcome, scalar_int, scalar_text, failed}
use bookshelfdq.Mysql.Client.{Mysql}

-- res_ptr: the rows of the last search that are not fetched yet.
pub data Stored : Type 0 where
  no_result : Stored
  stored_books : List BookRow → Stored
  stored_shelves : List ShelfRow → Stored

module _ (m : Mysql) where
  pub record Server : Type 0 where
    pub conn : m.Conn
    pub res_ptr : Stored
    pub res_fields : ℕ
    pub res_rows : ℕ
    pub info_flag : Bool
    pub my_port : ℕ
    pub my_hostname : Text
    pub my_password : Text

  unfoldable pub run : Statement → Server → Outcome × Server
  run q s = let (o, c) = m.query q s.conn in (o, record s { conn = c })

  unfoldable pub srvdb_init : Server → Bool × Server
  srvdb_init s = let (ok, c) = m.start s.conn in (ok, record s { conn = c })

  remember : Text → Text → ℕ → Server → Server
  remember hostname password port s = if s.info_flag then s else record s {
    my_port = port;
    my_hostname = take 31 hostname;
    my_password = take 16 password;
    info_flag = true;
  }

  unfoldable pub srvdb_connect : Text → Text → ℕ → Server → Bool × Server
  unfolding remember
  srvdb_connect hostname password port s =
      let s1 = remember hostname password port s in
      let (ok, c) = m.connect hostname password port s1.conn in (ok, record s1 { conn = c })

  unfoldable pub srvdb_close : Server → Server
  srvdb_close s = record s { conn = m.close s.conn }

  unfoldable pub mysql_reconnect : Server → Bool × Server
  mysql_reconnect s =
      let (ok, s1) = srvdb_init (srvdb_close s) in
      if ok then srvdb_connect s1.my_hostname s1.my_password s1.my_port s1 else (false, s1)

  unfoldable pub mysql_check_connection : Server → Server
  mysql_check_connection s =
      let e = m.errno s.conn in
      if e == 2006 || e == 2003
      then (let (alive, c) = m.ping s.conn in
          let s1 = record s { conn = c } in if alive then s1 else (mysql_reconnect s1).1)
      else s

  unfoldable pub srvdb_free_result : Server → Server
  srvdb_free_result s = record s { res_ptr = no_result; res_fields = 0; res_rows = 0 }

-- get_simple_result on the result of a statement: `none` where it returns 0.
unfoldable pub get_simple_int : Outcome → Option ℕ
get_simple_int (scalar_int v) = v
get_simple_int _ = none

unfoldable pub get_simple_text : Outcome → Option Text
get_simple_text (scalar_text v) = v
get_simple_text _ = none

-- mysql_query returned non-zero.
unfoldable pub is_failed : Outcome → Bool
is_failed failed = true
is_failed _ = false
