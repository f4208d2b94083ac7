-- ===== src/Socketsrv/Finding.antt =====
-- The answer to a search of books: one message for each book of the page, and one that says whether
-- there may be more.
use bookshelfdq.Base.{
  ℕ, zero, suc, ◌<◌, ◌≡◌, refl, ap, ◌∙◌, true, false, Option, List, [], ◌∷◌, ◌++◌, Text, lt_ℤ, ◌==◌,
  if◌then◌else◌, length, arith, Bool-cases, inl, inr,
}
use mathlib.Core.List.{append_assoc}
use bookshelfdq.Clisrv.{
  default_finds, non_sense_int, Message, ServerResponse, rows_found, r_success, r_find_end,
  r_find_end_more, req_find_book,
}
use bookshelfdq.Mysql.Statement.{BookRow}
use bookshelfdq.Mysql.Client.{Mysql, IsDocumented, IsReliable}
use bookshelfdq.Srvdb.Connection.Keeps.{tables_of}
use bookshelfdq.Srvdb.Connection.{Server, stored_books}
use bookshelfdq.Srvdb.Book.{is_undefined}
use bookshelfdq.Srvdb.Search.{
  fetch_row, entry_of_row, limit_lifted, srvdb_book_find, srvdb_book_fetch_result,
}
use bookshelfdq.Srvdb.Search.Page.{page_of, is_well_formed, book_find-page}
use bookshelfdq.Srvdb.Account.{Bcrypt}
use bookshelfdq.Socketsrv.{
  Link, Answered, with_response, response_of, cleared, request, send_results, send_found, serve,
  process_message, socket_srv_process_request,
}

-- A line that delivers every message and knows what was sent.
pub record IsDelivering (l : Link) : Type 0 where
  pub sent : l.Line → List Message
  pub delivers : (msg : Message) (line : l.Line) → (l.send msg line).0 ≡ true
  pub logs : (msg : Message) (line : l.Line) → sent (l.send msg line).1 ≡ sent line ++ msg ∷ []

-- The messages for the rows, in their order, and the last one.
unfoldable pub replies : ServerResponse → Message → List BookRow → List Message
replies last msg [] = with_response last msg ∷ []
replies last msg (r ∷ rs) =
    let msg1 = with_response r_success (record msg { book = entry_of_row r }) in
    msg1 ∷ replies last msg1 rs

abbrev pub last_response : ℕ → ServerResponse
last_response n = if n == default_finds then r_find_end_more else r_find_end

module _ (m : Mysql) (l : Link) (v : IsDelivering l) where
  send_results-replies :
      (rows : List BookRow) (fuel : ℕ) (msg : Message) (s : Server m) (line : l.Line)
      → s.res_ptr ≡ stored_books rows
      → s.res_fields ≡ 10
      → m.errno s.conn ≡ 0
      → length rows < fuel
      → let r = send_results m l (srvdb_book_fetch_result m) fuel msg s line in
        (r.0 ≡ true) × (v.sent r.2 ≡ v.sent line ++ replies (last_response s.res_rows) msg rows)
  unfolding send_results srvdb_book_fetch_result fetch_row replies response_of
  send_results-replies rows zero msg s line held fields fine enough = absurd (omega arith)
  send_results-replies [] (suc fuel) msg s line held fields fine enough =
      elim (Bool-cases (s.res_rows == default_finds)) [
        | inl full ↦
            let last = with_response r_find_end_more msg in
            (ground (arith, v.delivers last line), ground (arith, v.logs last line))
        | inr part ↦
            let last = with_response r_find_end msg in
            (ground (arith, v.delivers last line), ground (arith, v.logs last line))
      ]
  send_results-replies (r ∷ rs) (suc fuel) msg s line held fields fine enough =
      let msg1 = with_response r_success (record msg { book = entry_of_row r }) in
      let s1 = record s { res_ptr = stored_books rs } in
      let line1 = (l.send msg1 line).1 in
      let ih = send_results-replies rs fuel msg1 s1 line1 refl fields fine (omega arith) in
      let goes : send_results m l (srvdb_book_fetch_result m) (suc fuel) msg s line
          ≡ send_results m l (srvdb_book_fetch_result m) fuel msg1 s1 line1 =
        ground (arith, v.delivers msg1 line) in
      (
        ap (λ (a : Answered m l). a.0) goes ∙ ih.0,
        ap (λ (a : Answered m l). v.sent a.2) goes
            ∙ ih.1
            ∙ ap (λ (x : List Message). x ++ replies (last_response s.res_rows) msg1 rs)
                (v.logs msg1 line)
            ∙ append_assoc (v.sent line) (msg1 ∷ []) (replies (last_response s.res_rows) msg1 rs),
      )

module _ (m : Mysql) (d : IsDocumented m) (w : IsReliable m d) (l : Link) (v : IsDelivering l)
    (b : Bcrypt) (msg : Message) (s : Server m) where
  -- The books of the page that the request asks for.
  abbrev pub asked_page : List BookRow
  asked_page = page_of d.collation msg.book ((tables_of m d s).books msg.user)

  -- A search of books that was received, in known modes and from a book number that is not negative,
  -- is answered, over a server and a line that do not fail, by one message for each book of its page,
  -- in the order of their numbers, and a last one, which says that there may be more exactly if the
  -- page is full; the tables are unchanged, and one turn more than there are books is enough.
  pub process_request-replies :
      (fuel : ℕ) (stack : Message) (salt : Option Text) (line : l.Line)
      → msg.request ≡ req_find_book
      → is_undefined msg.user ≡ false
      → is_well_formed msg.book ≡ true
      → limit_lifted msg.book ≡ false
      → lt_ℤ msg.book.book_code non_sense_int ≡ false
      → length asked_page < fuel
      → let r = socket_srv_process_request m l b fuel true (request msg) stack salt s line in
        (r.0 ≡ true)
        × (v.sent r.2
            ≡ v.sent line
              ++ replies
                  (last_response (length asked_page))
                  (record (cleared msg) { extra_info = rows_found (length asked_page) })
                  asked_page)
  unfolding socket_srv_process_request process_message serve send_found
  process_request-replies fuel stack salt line asks named wf limited up enough =
      let msg1 = cleared msg in
      let (found, holds, kept) = book_find-page m d w msg1 s named wf limited up in
      let s1 = (srvdb_book_find m msg1 s).1 in
      let msg2 = record msg1 { extra_info = rows_found (length asked_page) } in
      let goes : socket_srv_process_request m l b fuel true (request msg) stack salt s line
          ≡ send_results m l (srvdb_book_fetch_result m) fuel msg2 s1 line =
        ground arith in
      let done =
        send_results-replies m l v asked_page fuel msg2 s1 line holds.rows_held holds.fields
          holds.no_error enough in
      (
        ap (λ (a : Answered m l). a.0) goes ∙ done.0,
        ap (λ (a : Answered m l). v.sent a.2) goes
            ∙ done.1
            ∙ ap (λ (n : ℕ). v.sent line ++ replies (last_response n) msg2 asked_page)
                holds.row_count,
      )
