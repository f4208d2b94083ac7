-- ===== src/Clishell/Session/Lines.antt =====
-- Whether the client holds a descriptor (client_sockfd is not -1) after a log-in and a registration.
-- This says nothing of the connection behind a descriptor that was given up.
use bookshelfdq.Base.{
  ℕ, zero, suc, Text, ◌≡◌, refl, ap, ◌∙◌, inl, inr, Bool, true, false, Option, List, ℤ, arith,
  Option-cases, not, ◌&&◌, eq_ℤ,
}
use bookshelfdq.Clisrv.{AccountEntry, Message, Layout, break_limit_int}
use bookshelfdq.Clidb.Gdbm.{Dbm}
use bookshelfdq.Aes.{Cipher}
use bookshelfdq.Socketcli.{
  Kernel, Socket, is_some, send_struct, socket_client_init, socket_client_close,
  socket_client_send_request, socket_client_get_response,
}
use bookshelfdq.Clishell.{Remote, Client, is_find, cache_found, await_responses, find_from_server}
use bookshelfdq.Clishell.Requests.{client_verify_account, client_register_account}
use bookshelfdq.Clishell.Session.{
  Dial, socket_remote, socket_dial, open_cache, client_start_login, client_start_register,
}

-- When a line is held: after connecting with success, until it is given up; requests and responses
-- leave it as it is.
pub record IsDial (r : Remote) (d : Dial r) : Type 0 where
  pub holds_line : r.Sock → Bool
  pub connects :
      (host : Text) (s : r.Sock)
      → (d.connect host s).0 ≡ true
      → holds_line (d.connect host s).1 ≡ true
  pub hangs_up : (s : r.Sock) → holds_line (d.hang_up s) ≡ false
  pub sends : (m : Message) (s : r.Sock) → holds_line (r.send m s).1 ≡ holds_line s
  pub receives : (s : r.Sock) → holds_line (r.receive s).1 ≡ holds_line s

module _ (r : Remote) (g : Dbm) (d : Dial r) (h : IsDial r d) where
  await_responses-holds_line :
      (fuel : ℕ) (cached : Bool) (n : ℕ) (msg : Message) (c : Client r g)
      → h.holds_line (await_responses r g fuel cached n msg c).2.line ≡ h.holds_line c.line
  unfolding await_responses cache_found
  await_responses-holds_line zero cached n msg c = refl
  await_responses-holds_line (suc fuel) cached n msg c =
      let c1 = record c { line = (r.receive c.line).1 } in
      elim (Option-cases (r.receive c.line).0) [
        | inl e ↦ ground (arith, e, h.receives c.line)
        | inr (m, e) ↦ ground (
          arith,
          e,
          h.receives c.line,
          await_responses-holds_line fuel cached (suc n) m (cache_found r g cached m c1),
        )
      ]

  find_from_server-holds_line :
      (fuel : ℕ) (msg : Message) (c : Client r g)
      → h.holds_line (find_from_server r g fuel msg c).2.line ≡ h.holds_line c.line
  unfolding find_from_server
  find_from_server-holds_line fuel msg c =
      let cached = not (is_find msg.request && eq_ℤ msg.book.book_code break_limit_int) in
      let c1 = record c { line = (r.send msg c.line).1 } in
      ground (arith, h.sends msg c.line, await_responses-holds_line fuel cached 0 msg c1)

  verify_account-holds_line :
      (fuel : ℕ) (mode : Bool) (a : AccountEntry) (c : Client r g)
      → h.holds_line (client_verify_account r g fuel mode a c).2.line ≡ h.holds_line c.line
  unfolding client_verify_account
  verify_account-holds_line fuel mode a c = find_from_server-holds_line fuel _ c

  register_account-holds_line :
      (fuel : ℕ) (a : AccountEntry) (c : Client r g)
      → h.holds_line (client_register_account r g fuel a c).2.line ≡ h.holds_line c.line
  unfolding client_register_account
  register_account-holds_line fuel a c = find_from_server-holds_line fuel _ c

  -- A cache that does not open gives the line up.
  open_cache-holds_line :
      (made : Bool) (shelves books : Option g.File) (name : Text) (c : Client r g)
      → h.holds_line c.line ≡ true
      → h.holds_line (open_cache r g d made shelves books name c).2.line
        ≡ (open_cache r g d made shelves books name c).0
  unfolding open_cache
  open_cache-holds_line made shelves books name c up = ground (arith, up, h.hangs_up c.line)

  -- After a log-in that reached the server, the line is held exactly if 1 was returned.
  pub start_login-holds_line :
      (fuel : ℕ) (host : Text) (a : AccountEntry) (made : Bool) (shelves books : Option g.File)
      (c : Client r g)
      → (d.connect host c.line).0 ≡ true
      → let x = client_start_login r g d fuel host a made shelves books c in
        h.holds_line x.2.line ≡ x.0
  unfolding client_start_login
  start_login-holds_line fuel host a made shelves books c up =
      let c1 = record c { line = (d.connect host c.line).1 } in
      let up1 = h.connects host c.line up in
      let (as_user, m, c2) = client_verify_account r g fuel true a c1 in
      let (as_admin, m', c2') = client_verify_account r g fuel false a c1 in
      let user_up : h.holds_line c2.line ≡ true = verify_account-holds_line fuel true a c1 ∙ up1 in
      let admin_up : h.holds_line c2'.line ≡ true =
        verify_account-holds_line fuel false a c1 ∙ up1 in
      ground (
        arith,
        up,
        user_up,
        admin_up,
        open_cache-holds_line made shelves books a.name c2 user_up,
        h.hangs_up c2.line,
        h.hangs_up c2'.line,
      )

  -- After a registration that reached the server, the line is held exactly if 0 was returned.
  start_register-holds_line :
      (fuel : ℕ) (host : Text) (a : AccountEntry) (c : Client r g)
      → (d.connect host c.line).0 ≡ true
      → let x = client_start_register r g d fuel host a c in h.holds_line x.2.line ≡ not x.0
  unfolding client_start_register
  start_register-holds_line fuel host a c up =
      let c1 = record c { line = (d.connect host c.line).1 } in
      let up1 = h.connects host c.line up in
      let (reply, m, c2) = client_register_account r g fuel a c1 in
      let still : h.holds_line c2.line ≡ true = register_account-holds_line fuel a c1 ∙ up1 in
      ground (arith, up, still, h.hangs_up c2.line)

-- bsdqclient/socketcli.c is such a line: it is held while client_sockfd is not -1.
module _ (k : Kernel) (c : Cipher) (l : Layout) where
  sends_up :
      (m : Message) (s : Socket k c l)
      → (socket_client_send_request k c l m s).1.client_sockfd ≡ s.client_sockfd
  unfolding socket_client_send_request send_struct
  sends_up m s = ground arith

  receives_up :
      (s : Socket k c l) → (socket_client_get_response k c l s).1.client_sockfd ≡ s.client_sockfd
  unfolding socket_client_get_response
  receives_up s = ground arith

  connects_up :
      (host : Text) (opened : Option Text) (tkey : List ℤ) (s : Socket k c l)
      → (socket_client_init k c l host opened tkey s).0 ≡ true
      → is_some (socket_client_init k c l host opened tkey s).1.client_sockfd ≡ true
  unfolding socket_client_init
  connects_up host opened tkey s ok = ground arith

  hangs_up : (s : Socket k c l) → is_some (socket_client_close k c l s).client_sockfd ≡ false
  unfolding socket_client_close
  hangs_up s = refl

  -- After a registration over bsdqclient/socketcli.c that reached the server, client_sockfd is not
  -- -1 exactly if 0 was returned: a registration that failed leaves its descriptor to the client,
  -- and one that succeeded sets client_sockfd to -1.
  pub start_register-client_sockfd :
      (g : Dbm) (opened : Option Text) (tkey : List ℤ) (fuel : ℕ) (host : Text) (a : AccountEntry)
      (x : Client (socket_remote k c l) g)
      → (socket_client_init k c l host opened tkey x.line).0 ≡ true
      → let y =
          client_start_register
            (socket_remote k c l)
            g
            (socket_dial k c l opened tkey)
            fuel
            host
            a
            x in
        is_some y.2.line.client_sockfd ≡ not y.0
  unfolding client_start_register
  start_register-client_sockfd g opened tkey fuel host a x reached =
      start_register-holds_line (socket_remote k c l) g (socket_dial k c l opened tkey)
        (record {
          holds_line = λ s. is_some s.client_sockfd;
          connects = λ host s. connects_up host opened tkey s;
          hangs_up = hangs_up;
          sends = λ m s. ap is_some (sends_up m s);
          receives = λ s. ap is_some (receives_up s);
        })
        fuel host a x reached
