-- ===== src/Mysql/Client.antt =====
-- libmysqlclient and the server behind it, as the program sees them, and what their documentation
-- says of them.
use bookshelfdq.Base.{ℕ, Text, ◌≡◌, ◌⊎◌, Bool, true, []}
use bookshelfdq.Mysql.Statement.{Statement}
use bookshelfdq.Mysql.Meaning.{Outcome, failed, Tables, Collation, meaning}

pub record Mysql : Type 1 where
  -- The connection handle, with the database behind it.
  pub Conn : Type 0
  -- mysql_query, with mysql_use_result, mysql_store_result and mysql_affected_rows
  pub query : Statement → Conn → Outcome × Conn
  pub errno : Conn → ℕ
  -- mysql_ping, true where it finds the server
  pub ping : Conn → Bool × Conn
  pub close : Conn → Conn
  -- mysql_init
  pub start : Conn → Bool × Conn
  -- mysql_real_connect with host, password and port
  pub connect : Text → Text → ℕ → Conn → Bool × Conn

-- A statement has the effect that is documented, or fails and leaves the tables alone; the calls
-- that manage the connection touch no table.
pub record IsDocumented (m : Mysql) : Type 0 where
  pub tables : m.Conn → Tables
  pub collation : Collation
  pub like_empty : (s : Text) → collation.like s [] ≡ true
  pub answers :
      (q : Statement) (c : m.Conn)
      → (((m.query q c).0 ≡ failed) × (tables (m.query q c).1 ≡ tables c))
        ⊎ (((m.query q c).0 ≡ (meaning collation q (tables c)).0)
            × (tables (m.query q c).1 ≡ (meaning collation q (tables c)).1))
  pub ping_keeps : (c : m.Conn) → tables (m.ping c).1 ≡ tables c
  pub close_keeps : (c : m.Conn) → tables (m.close c) ≡ tables c
  pub start_keeps : (c : m.Conn) → tables (m.start c).1 ≡ tables c
  pub connect_keeps :
      (host password : Text) (port : ℕ) (c : m.Conn)
      → tables (m.connect host password port c).1 ≡ tables c

-- Moreover the server is there: no statement fails without a reason of its own.
pub record IsReliable (m : Mysql) (d : IsDocumented m) : Type 0 where
  pub result :
      (q : Statement) (c : m.Conn) → (m.query q c).0 ≡ (meaning d.collation q (d.tables c)).0
  pub effect :
      (q : Statement) (c : m.Conn)
      → d.tables (m.query q c).1 ≡ (meaning d.collation q (d.tables c)).1
  pub no_error : (q : Statement) (c : m.Conn) → m.errno (m.query q c).1 ≡ 0
