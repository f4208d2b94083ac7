-- ===== src/Srvdb/Connection/Keeps.antt =====
-- Looking after the connection changes no table.
use bookshelfdq.Base.{ℕ, Text, ◌≡◌, arith, ◌⊎◌}
use bookshelfdq.Mysql.Statement.{Statement}
use bookshelfdq.Mysql.Meaning.{Tables, failed, meaning}
use bookshelfdq.Mysql.Client.{Mysql, IsDocumented, IsReliable}
use bookshelfdq.Srvdb.Connection.{
  Server, run, srvdb_init, srvdb_connect, srvdb_close, mysql_reconnect, mysql_check_connection,
}

module _ (m : Mysql) (d : IsDocumented m) where
  -- The tables behind the server's connection.
  abbrev pub tables_of : Server m → Tables
  tables_of s = d.tables s.conn

  pub close-keeps : (s : Server m) → tables_of (srvdb_close m s) ≡ tables_of s
  unfolding srvdb_close
  close-keeps s = d.close_keeps s.conn

  pub init-keeps : (s : Server m) → tables_of (srvdb_init m s).1 ≡ tables_of s
  unfolding srvdb_init
  init-keeps s = d.start_keeps s.conn

  pub connect-keeps :
      (h p : Text) (n : ℕ) (s : Server m) → tables_of (srvdb_connect m h p n s).1 ≡ tables_of s
  unfolding srvdb_connect
  connect-keeps h p n s = ground (arith, d.connect_keeps h p n s.conn)

  reconnect-keeps : (s : Server m) → tables_of (mysql_reconnect m s).1 ≡ tables_of s
  unfolding mysql_reconnect
  reconnect-keeps s =
      let s1 = srvdb_close m s in
      let s2 = (srvdb_init m s1).1 in
      ground (
        arith,
        close-keeps s,
        init-keeps s1,
        connect-keeps s2.my_hostname s2.my_password s2.my_port s2,
      )

  pub check-keeps : (s : Server m) → tables_of (mysql_check_connection m s) ≡ tables_of s
  unfolding mysql_check_connection
  check-keeps s =
      ground (arith, d.ping_keeps s.conn, reconnect-keeps (record s { conn = (m.ping s.conn).1 }))

  -- A statement fails and changes nothing, or does what it means.
  pub run-cases :
      (q : Statement) (s : Server m)
      → (((run m q s).0 ≡ failed) × (tables_of (run m q s).1 ≡ tables_of s))
        ⊎ (((run m q s).0 ≡ (meaning d.collation q (tables_of s)).0)
            × (tables_of (run m q s).1 ≡ (meaning d.collation q (tables_of s)).1))
  unfolding run
  run-cases q s = d.answers q s.conn

-- Where the server answers, a statement does what it means.
module _ (m : Mysql) (d : IsDocumented m) (w : IsReliable m d) where
  pub run-result :
      (q : Statement) (s : Server m) → (run m q s).0 ≡ (meaning d.collation q (tables_of m d s)).0
  unfolding run
  run-result q s = w.result q s.conn

  pub run-effect :
      (q : Statement) (s : Server m)
      → tables_of m d (run m q s).1 ≡ (meaning d.collation q (tables_of m d s)).1
  unfolding run
  run-effect q s = w.effect q s.conn

  pub run-errno : (q : Statement) (s : Server m) → m.errno (run m q s).1.conn ≡ 0
  unfolding run
  run-errno q s = w.no_error q s.conn
