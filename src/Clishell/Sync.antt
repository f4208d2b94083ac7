-- ===== src/Clishell/Sync.antt =====
-- bsdqclient/clishell.c: the client brings its counts and its cache of shelves up to date. `stack`
-- is what stood in the place of the message that the source does not initialise.
pub mod Mirror
pub mod Serving
pub mod Purging
pub mod Synced
use bookshelfdq.Base.{
  ℕ, zero, suc, ◌+◌, ℤ, pos, neg_ℤ, Bool, true, false, not, Option, none, some, ◌==◌, if◌then◌else◌,
}
use bookshelfdq.Clisrv.{
  Message, BookCount, ExtraInfo, no_info, rows_found, book_counts, shelf_counts, init_archive,
  r_success, r_failed, r_find_end, r_find_end_more, max_shelf_num, non_sense_int, req_count_book,
  req_count_shelf, req_find_shelf,
}
use bookshelfdq.Clidb.Gdbm.{Dbm}
use bookshelfdq.Clidb.{
  clidb_shelf_synchronize, clidb_shelf_delete, clidb_shelf_not_syncs, clidb_shelf_record_sort,
}
use bookshelfdq.Socketsrv.{first_info}
use bookshelfdq.Clishell.{Remote, Client}

-- *(book_count_t *)&msg.extra_info
unfoldable pub book_count_of : ExtraInfo → BookCount
unfolding first_info
book_count_of (book_counts n) = n
book_count_of x = record {
  books_all = first_info x;
  books_on_reading = 0;
  books_borrowed = 0;
  books_unsorted = 0;
}

module _ (r : Remote) (g : Dbm) where
  -- A request and one response, `none` where sending or receiving fails.
  unfoldable pub ask_once : Message → Client r g → Option Message × Client r g
  ask_once msg c =
      let (sent, line1) = r.send msg c.line in
      let (got, line2) = r.receive line1 in
      if not sent then (none, record c { line = line1 }) else (got, record c { line = line2 })

  -- The counts, where 1 is returned.
  unfoldable pub client_books_count_sync : Message → Client r g → Option BookCount × Client r g
  unfolding ask_once book_count_of
  client_books_count_sync stack c =
      let msg = record stack {
        user = c.login_user;
        request = req_count_book;
        book = record stack.book { shelf_code = non_sense_int; floor_code = non_sense_int };
      } in
      let (got, c1) = ask_once msg c in
      elim got [
        | none ↦ (none, c1)
        | some m ↦ elim m.response [
          | r_success ↦ (some (book_count_of m.extra_info), c1)
          | _ ↦ (none, c1)
        ]
      ]

  -- Whether 1 is returned, and sc.shelves_all after the call: an answer that is no success leaves it.
  unfoldable pub client_shelves_count_sync : Message → ℕ → Client r g → Bool × ℕ × Client r g
  unfolding ask_once first_info
  client_shelves_count_sync stack sc c =
      let msg = record stack { user = c.login_user; request = req_count_shelf } in
      let (got, c1) = ask_once msg c in
      elim got [
        | none ↦ (false, sc, c1)
        | some m ↦ elim m.response [
          | r_success ↦ (true, first_info m.extra_info, c1)
          | _ ↦ (true, sc, c1)
        ]
      ]

  -- A shelf that was received goes to the cache and is counted; `none` where the function returns 0.
  unfoldable pub take_shelf : ℕ → Message → Client r g → Option ℕ × Client r g
  take_shelf cnt m c =
      let (ok, cache1) = clidb_shelf_synchronize g m.shelf c.cache in
      (if ok then some (suc cnt) else none, record c { cache = cache1 })

  -- The do loop: the number of shelves that came until the end of the search; `none` where the
  -- function returns 0, and where the fuel is used up.
  unfoldable pub await_shelves : ℕ → ℕ → Message → Client r g → Option ℕ × Client r g
  unfolding take_shelf
  await_shelves zero cnt msgreq c = (none, c)
  await_shelves (suc fuel) cnt msgreq c =
      let (got, line1) = r.receive c.line in
      let c1 = record c { line = line1 } in
      elim got [
        | none ↦ (none, c1)
        | some m ↦ elim m.response [
          | r_success ↦
              let (cnt1, c2) = take_shelf cnt m c1 in
              elim cnt1 [ none ↦ (none, c2) | some n ↦ await_shelves fuel n msgreq c2 ]
          | r_find_end_more ↦
              let msg2 = record msgreq { shelf = record msgreq.shelf { code = m.shelf.code } } in
              let (sent, line2) = r.send msg2 line1 in
              let c2 = record c { line = line2 } in
              elim sent [ false ↦ (none, c2) | true ↦ await_shelves fuel cnt msg2 c2 ]
          | r_failed ↦ await_shelves fuel cnt msgreq c1
          | r_find_end ↦ (some cnt, c1)
        ]
      ]

  -- A shelf of the cache that did not come is asked for by its number: one response is read.
  unfoldable pub ask_again : ℕ → ℕ → Message → Client r g → Option ℕ × Client r g
  unfolding ask_once take_shelf
  ask_again i cnt msgreq c =
      let msg = record msgreq { shelf = record msgreq.shelf { code = neg_ℤ (pos i) } } in
      let (got, c1) = ask_once msg c in
      elim got [
        | none ↦ (none, c1)
        | some m ↦ elim m.response [
          | r_success ↦ take_shelf cnt m c1
          | r_find_end ↦
              let (ok, cache1) = clidb_shelf_delete g i c1.cache in
              (if ok then some cnt else none, record c1 { cache = cache1 })
          | _ ↦ (some cnt, c1)
        ]
      ]

  -- The for loop over the numbers from i on, with the rounds that are left.
  unfoldable pub ask_again_from : ℕ → ℕ → ℕ → Message → Client r g → Option ℕ × Client r g
  unfolding ask_again
  ask_again_from zero i cnt msgreq c = (some cnt, c)
  ask_again_from (suc n) i cnt msgreq c =
      let (cnt1, c1) =
        if clidb_shelf_not_syncs g i c.cache then ask_again i cnt msgreq c else (some cnt, c) in
      elim cnt1 [ none ↦ (none, c1) | some k ↦ ask_again_from n (suc i) k msgreq c1 ]

  -- The record is sorted, and the count compared.
  unfoldable pub finish_shelves : ℕ → Option ℕ × Client r g → Bool × ℕ × Client r g
  finish_shelves sc counted = elim counted.0 [
    | none ↦ (false, sc, counted.1)
    | some n ↦
        let (ok, cache1) = clidb_shelf_record_sort g counted.1.cache in
        (if ok then n == sc else false, sc, record counted.1 { cache = cache1 })
  ]

  unfoldable pub client_shelves_info_sync :
      ℕ → Message → Message → ℕ → Client r g → Bool × ℕ × Client r g
  client_shelves_info_sync fuel stack0 stack sc c =
      let (ok, sc1, c1) = client_shelves_count_sync stack0 sc c in
      let msgreq = record stack {
        user = c.login_user;
        request = req_find_shelf;
        shelf = record stack.shelf { code = non_sense_int };
      } in
      let (sent, line2) = r.send msgreq c1.line in
      let c2 = record c1 { line = line2 } in
      let (came, c3) = await_shelves fuel 0 msgreq c2 in
      if not ok then (false, sc1, c1) else if not sent then (false, sc1, c2) else elim came [
        | none ↦ (false, sc1, c3)
        | some n ↦ finish_shelves sc1 (ask_again_from max_shelf_num 1 n msgreq c3)
      ]
