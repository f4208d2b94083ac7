-- ===== src/Srvshell/Serving.antt =====
-- The loop of bsdqserver/bsdq_server.c over any history of requests.
use bookshelfdq.Base.{
  subst, sym, inl, inr, Text, true, List, [], ◌∷◌, text_eq, text_eq_sound, Option, ℕ, All,
  Bool-cases,
}
use bookshelfdq.Clisrv.{Message}
use bookshelfdq.Mysql.Meaning.{Tables}
use bookshelfdq.Mysql.Client.{Mysql, IsDocumented}
use bookshelfdq.Srvdb.Connection.{Server}
use bookshelfdq.Srvdb.Connection.Keeps.{tables_of, close-keeps}
use bookshelfdq.Srvdb.Account.{Bcrypt}
use bookshelfdq.Socketsrv.{
  Link, Received, heartbeat, bad_length, read_error, undecodable, request, send_answer,
  socket_srv_process_request,
}
use bookshelfdq.Socketsrv.Inert.{IsInert}
use bookshelfdq.Socketsrv.Invariant.{IsOrderly, Kept, process_request-Kept}
use bookshelfdq.Srvshell.{Event, client, fetch_error, serve_all}

-- The tables of every user are well formed.
abbrev pub AreOrderly : Tables → Type 0
AreOrderly t = (u : Text) → IsOrderly u t

Kept-AreOrderly : (u : Text) (t t' : Tables) → AreOrderly t → Kept u t t' → AreOrderly t'
Kept-AreOrderly u t t' all k v = elim (Bool-cases (text_eq u v)) [
  | inl same ↦ subst (λ (x : Text). IsOrderly x t') (text_eq_sound u v same) k.orderly
  | inr other ↦
      let (books, shelves) = k.others v other in
      record {
        numbered = rw books ((all v).numbered);
        keyed = rw shelves ((all v).keyed);
        roster = k.orderly.roster;
      }
]

-- What is received holds no text that would break a statement.
abbrev pub IsInertReceived : Received → Type 0
IsInertReceived (request msg) = IsInert msg
IsInertReceived _ = Unit

abbrev pub IsInertEvent : Event → Type 0
IsInertEvent (client r stack salt fuel) = IsInertReceived r
IsInertEvent fetch_error = Unit

module _ (m : Mysql) (d : IsDocumented m) (b : Bcrypt) (l : Link) where
  process-AreOrderly :
      (r : Received) (fuel : ℕ) (stack : Message) (salt : Option Text) (s : Server m)
      (line : l.Line)
      → IsInertReceived r
      → AreOrderly (tables_of m d s)
      → AreOrderly
          (tables_of m d (socket_srv_process_request m l b fuel true r stack salt s line).1)
  unfolding socket_srv_process_request send_answer
  process-AreOrderly heartbeat fuel stack salt s line safe all = all
  process-AreOrderly bad_length fuel stack salt s line safe all = all
  process-AreOrderly read_error fuel stack salt s line safe all = all
  process-AreOrderly undecodable fuel stack salt s line safe all = all
  process-AreOrderly (request msg) fuel stack salt s line safe all =
      Kept-AreOrderly msg.user (tables_of m d s) _ all
        (process_request-Kept m d l b fuel true msg stack salt s line safe (all msg.user)).1

  -- Over any history of heartbeats, broken packets, inert requests of any users and errors, whatever
  -- the data base answers and the line delivers, the tables of every user and the accounts stay
  -- well formed.
  pub serve_all-AreOrderly :
      (es : List Event) (s : Server m) (line : l.Line)
      → All IsInertEvent es
      → AreOrderly (tables_of m d s)
      → AreOrderly (tables_of m d (serve_all m b l es s line).1)
  unfolding serve_all
  serve_all-AreOrderly [] s line safe all = all
  serve_all-AreOrderly (client r stack salt fuel ∷ es) s line safe all =
      serve_all-AreOrderly es _ _ safe.1 (process-AreOrderly r fuel stack salt s line safe.0 all)
  serve_all-AreOrderly (fetch_error ∷ es) s line safe all =
      subst AreOrderly (sym (close-keeps m d s)) all
