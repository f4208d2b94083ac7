-- ===== src/Tests/Mains.antt =====
-- The main program of the server and its password prompts at concrete inputs.
use bookshelfdq.Base.{Text, codes, ◌≡◌, ◌⊎◌, refl, true, false, some, List, [], ◌∷◌, keep, text_eq}
use bookshelfdq.Clisrv.{account_admin}
use bookshelfdq.Mysql.Meaning.{Tables, meaning, named, type_code}
use bookshelfdq.Mysql.Rows.Update.{update_rows}
use bookshelfdq.Socketsrv.{request, heartbeat}
use bookshelfdq.Srvdb.Connection.{run, is_failed, get_simple_int, get_simple_text}
use bookshelfdq.Srvdb.Connection.Keeps.{tables_of}
use bookshelfdq.Srvdb.Account.{
  admin_default_account, srvdb_account_verify, srvdb_account_update, verify_password, store_hash,
  new_hash,
}
use bookshelfdq.Srvshell.{
  Event, client, fgets, drop_last, get_mysql_password, admin_request, reset_admin_password,
}
use bookshelfdq.Srvshell.Reset.{Replaced, new_password, reset_admin_password-Replaced, reset_verify}
use bookshelfdq.Tests.Accounts.{plain, plain_checks}
use bookshelfdq.Tests.Engine.{
  ideal, ideal-IsDocumented, ideal-IsReliable, at_tables, three_books, a_message,
}
use bookshelfdq.Tests.Requests.{a_request}

-- A heartbeat, an insertion and a search.
abbrev three_events : List Event
three_events =
    client heartbeat a_message (some []) 5
    ∷ client (request a_message) a_message (some []) 5
    ∷ client (request a_request) a_message (some []) 5
    ∷ []

abbrev admin_tables : Tables
admin_tables = record three_books {
  accounts =
      record { name = admin_default_account; password = codes "$000000"; type = account_admin }
      ∷ [];
}

-- The old password and the new one twice, each with its newline.
abbrev three_lines : Text
three_lines = codes "000000\nBooks1\nBooks1\n"

-- A long password is cut after 14 characters, and the rest is read by the next prompt.
long_password :
    get_mysql_password true (codes "abcdefghijklmnopqrst\n") []
    ≡ (codes "abcdefghijklmn", codes "pqrst\n")
unfolding get_mysql_password fgets drop_last
long_password = refl

reset_succeeds :
    (reset_admin_password ideal plain true three_lines a_message
      (some [])
      (at_tables admin_tables)).0
    ≡ true
unfolding reset_admin_password get_mysql_password fgets drop_last srvdb_account_verify
    verify_password srvdb_account_update store_hash new_hash run meaning is_failed get_simple_int
    get_simple_text named keep text_eq type_code update_rows
reset_succeeds = refl

admin_reset_example :
    let r =
      reset_admin_password ideal plain true three_lines a_message
        (some [])
        (at_tables admin_tables) in
    ((r.0 ≡ false) × (tables_of ideal ideal-IsDocumented r.1 ≡ admin_tables))
    ⊎ ((r.0 ≡ true)
        × Replaced ideal ideal-IsDocumented plain true three_lines a_message
            (some [])
            (at_tables admin_tables)
            r.1)
admin_reset_example =
    reset_admin_password-Replaced ideal ideal-IsDocumented plain true three_lines a_message
      (some []) (at_tables admin_tables)

reset_example :
    (srvdb_account_verify ideal plain
      (admin_request a_message (new_password true three_lines))
      (reset_admin_password ideal plain true three_lines a_message
        (some [])
        (at_tables admin_tables)).1).0
    ≡ true
reset_example =
    reset_verify ideal ideal-IsDocumented plain true three_lines a_message (some [])
      (at_tables admin_tables) ideal-IsReliable plain_checks reset_succeeds
