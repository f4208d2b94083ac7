-- ===== src/Srvshell/Starting.antt =====
-- The start of bsdqserver/bsdq_server.c, and the whole main program.
use bookshelfdq.Mysql.Client.{Mysql, IsDocumented}
use bookshelfdq.Srvdb.Connection.{Server}
use bookshelfdq.Srvdb.Connection.Keeps.{tables_of}
use bookshelfdq.Srvdb.Account.{Bcrypt}
use bookshelfdq.Srvshell.Serving.{AreOrderly}

module _ (m : Mysql) (d : IsDocumented m) (b : Bcrypt) where
  abbrev Orderly : Server m → Type 0
  Orderly s = AreOrderly (tables_of m d s)
