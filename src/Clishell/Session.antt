-- ===== src/Clishell/Session.antt =====
-- bsdqclient/clishell.c: the log-in and the registration, over connecting and hanging up as a
-- parameter, which bsdqclient/socketcli.c fills.
pub mod Lines
use bookshelfdq.Base.{
  ℕ, Text, codes, ℤ, Bool, true, false, not, Option, none, some, List, [], ◌∷◌, if◌then◌else◌,
}
use bookshelfdq.Clisrv.{AccountEntry, account_admin, account_user, Message, Layout}
use bookshelfdq.Clidb.Gdbm.{Dbm}
use bookshelfdq.Clidb.{clidb_init}
use bookshelfdq.Aes.{Cipher}
use bookshelfdq.Socketcli.{
  Kernel, Socket, socket_client_init, socket_client_close, socket_client_send_request,
  socket_client_get_response,
}
use bookshelfdq.Clishell.{
  Remote, Client, Reply, reply_ok, reply_failed, reply_nothing, reply_unfinished,
}
use bookshelfdq.Clishell.Requests.{client_verify_account, client_register_account}

-- socket_client_init and socket_client_close.
pub record Dial (r : Remote) : Type 0 where
  pub connect : Text → r.Sock → Bool × r.Sock
  pub hang_up : r.Sock → r.Sock

-- What bsdqclient/socketcli.c makes of it.
module _ (k : Kernel) (c : Cipher) (l : Layout) where
  abbrev pub socket_remote : Remote
  socket_remote = record {
    Sock = Socket k c l;
    send = socket_client_send_request k c l;
    receive = socket_client_get_response k c l;
  }

  abbrev pub socket_dial : Option Text → List ℤ → Dial socket_remote
  socket_dial opened tkey = record {
    connect = λ host s. socket_client_init k c l host opened tkey s;
    hang_up = socket_client_close k c l;
  }

abbrev pub no_connection : Text
no_connection = codes "无法连接服务器..."

abbrev pub no_dbm : Text
no_dbm = codes "dbm初始化失败..."

-- The error text of client_verify_account and client_register_account, where they return 0.
unfoldable pub error_or : Text → Message → Text
error_or default_ m = elim m.error_text [ [] ↦ default_ | c ∷ t ↦ c ∷ t ]

-- What C takes for true: also -1.
abbrev pub is_nonzero : Reply → Bool
is_nonzero reply_ok = true
is_nonzero reply_nothing = true
is_nonzero reply_failed = false
is_nonzero reply_unfinished = false

module _ (r : Remote) (g : Dbm) (d : Dial r) where
  -- Whether 1 is returned, errInfo where it is written, and the client.
  abbrev pub Settled : Type 0
  Settled = Bool × Option Text × Client r g

  abbrev pub hung_up : Client r g → Client r g
  hung_up c = record c { line = d.hang_up c.line }

  -- A verified user's cache: `made`, `shelves` and `books` are what clidb_init finds.
  unfoldable pub open_cache : Bool → Option g.File → Option g.File → Text → Client r g → Settled
  open_cache made shelves books name c =
      let (ok, cache1) = clidb_init g made shelves books name c.cache in
      let c1 = record c { cache = cache1 } in
      if ok then (true, none, record c1 { login_user = name }) else (false, some no_dbm, hung_up c1)

  unfoldable pub client_start_login :
      ℕ → Text → AccountEntry → Bool → Option g.File → Option g.File → Client r g → Settled
  unfolding open_cache error_or
  client_start_login fuel host a made shelves books c =
      let (up, line1) = d.connect host c.line in
      let c1 = record c { line = line1 } in
      let (as_user, m, c2) = client_verify_account r g fuel true a c1 in
      let (as_admin, m', c2') = client_verify_account r g fuel false a c1 in
      if not up then (false, some no_connection, c1) else elim a.type [
        | account_user ↦
            if is_nonzero as_user
            then open_cache made shelves books a.name c2
            else (false, some (error_or (codes "账户验证失败") m), hung_up c2)
        | account_admin ↦
            if is_nonzero as_admin
            then (true, none, c2')
            else (false, some (error_or (codes "账户验证失败") m'), hung_up c2')
      ]

  -- A registration that fails does not hang up.
  unfoldable pub client_start_register : ℕ → Text → AccountEntry → Client r g → Settled
  unfolding error_or
  client_start_register fuel host a c =
      let (up, line1) = d.connect host c.line in
      let c1 = record c { line = line1 } in
      let (reply, m, c2) = client_register_account r g fuel a c1 in
      if not up
      then (false, some no_connection, c1)
      else if is_nonzero reply
      then (true, none, hung_up c2)
      else (false, some (error_or (codes "注册账户失败") m), c2)
