-- ===== src/Tests/Requests.antt =====
-- Requests to the server at concrete inputs, over a line that keeps what is sent.
use bookshelfdq.Base.{
  ◌≡◌, ◌<◌, refl, true, codes, some, List, [], ◌∷◌, ◌++◌, keep, length, take, eq_ℤ, lt_ℤ, arith,
}
use bookshelfdq.Clisrv.{Message, req_find_book, rows_found}
use bookshelfdq.Socketsrv.{Link, cleared, request, socket_srv_process_request}
use bookshelfdq.Socketsrv.Finding.{
  IsDelivering, replies, last_response, asked_page, process_request-replies,
}
use bookshelfdq.Mysql.Printed.{is_name_char, read_name}
use bookshelfdq.Socketsrv.Inert.{IsInert}
use bookshelfdq.Tests.Engine.{
  contains, ideal, ideal-IsDocumented, ideal-IsReliable, at_tables, three_books, a_message,
}
use bookshelfdq.Tests.Searches.{a_search}
use bookshelfdq.Tests.Accounts.{plain}

abbrev pub wire : Link
wire = record { Line = List Message; send = λ msg line. (true, line ++ msg ∷ []) }

wire-IsDelivering : IsDelivering wire
wire-IsDelivering = record {
  sent = λ line. line;
  delivers = λ msg line. refl;
  logs = λ msg line. refl;
}

abbrev pub a_request : Message
a_request = record a_search { request = req_find_book }

few_asked :
    length (
      asked_page ideal ideal-IsDocumented ideal-IsReliable wire wire-IsDelivering plain a_request
        (at_tables three_books))
    < 5
unfolding keep take contains lt_ℤ eq_ℤ
few_asked = omega arith

find_request_example :
    let page =
      asked_page ideal ideal-IsDocumented ideal-IsReliable wire wire-IsDelivering plain a_request
        (at_tables three_books) in
    let r =
      socket_srv_process_request ideal wire plain 5 true
        (request a_request)
        a_message
        (some [])
        (at_tables three_books)
        [] in
    (r.0 ≡ true)
    × (wire-IsDelivering.sent r.2
        ≡ wire-IsDelivering.sent []
          ++ replies
              (last_response (length page))
              (record (cleared a_request) { extra_info = rows_found (length page) })
              page)
unfolding eq_ℤ lt_ℤ
find_request_example =
    process_request-replies ideal ideal-IsDocumented ideal-IsReliable wire wire-IsDelivering plain
      a_request (at_tables three_books) 5 a_message (some []) [] refl refl refl refl refl few_asked

pub a_message-IsInert : IsInert a_message
unfolding is_name_char
a_message-IsInert = record { names = (refl, tt); quotes = (refl, tt) }

-- A user that ends the name of the table: another user's table is named.
hostile_user :
    read_name (codes "alice_books SET cleaned=1 -- " ++ codes "_books" ++ codes " SET")
    ≡ (codes "alice_books", codes " SET cleaned=1 -- _books SET")
unfolding read_name is_name_char
hostile_user = refl
