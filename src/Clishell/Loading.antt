-- ===== src/Clishell/Loading.antt =====
-- find_from_server on the answer to a search: the books of the page go to the end of the cache.
use bookshelfdq.Base.{
  ℕ, zero, suc, ◌+◌, ◌<◌, ◌≡◌, refl, sym, ap, subst, ◌∙◌, inl, inr, Bool, true, false, none, some,
  List, [], ◌∷◌, map, ◌==◌, if◌then◌else◌, length, eq_ℤ, arith,
}
use bookshelfdq.Clisrv.{
  Message, BookEntry, ServerResponse, r_success, r_find_end, r_find_end_more, req_find_book,
  break_limit_int,
}
use bookshelfdq.Mysql.Statement.{BookRow}
use bookshelfdq.Srvdb.Search.{entry_of_row}
use bookshelfdq.Socketsrv.{with_response}
use bookshelfdq.Socketsrv.Finding.{replies}
use bookshelfdq.Clidb.Gdbm.{Key, Value, book_key, book_value, Dbm, IsDbm}
use bookshelfdq.Clidb.{Cache, clidb_book_insert, clidb_book_peek}
use bookshelfdq.Clidb.Books.{book_insert-Peeks}
use bookshelfdq.Clidb.Pages.{slice, slice-suc}
use bookshelfdq.Clishell.{
  Remote, Client, Replied, Reply, reply_ok, reply_nothing, cache_found, await_responses,
  find_from_server,
}

-- What waits on the socket is received in its order.
pub record IsQueue (r : Remote) : Type 0 where
  pub waiting : r.Sock → List Message
  pub takes :
      (s : r.Sock) (m : Message) (ms : List Message)
      → waiting s ≡ m ∷ ms
      → ((r.receive s).0 ≡ some m) × (waiting (r.receive s).1 ≡ ms)

module _ (g : Dbm) (h : IsDbm g)
    (stored : (f : g.File) (k : Key) (v : Value) → (g.store f k v).0 ≡ true) where
  -- The cache `s1` has the books es behind the ones of `s`.
  pub record Extended (s : Cache g) (es : List BookEntry) (s1 : Cache g) : Type 0 where
    pub end_ : s1.book_dbm_pos ≡ s.book_dbm_pos + length es
    pub added : slice (λ k. clidb_book_peek g k s1) s.book_dbm_pos (length es) ≡ es
    pub before : (k : ℕ) → k < s.book_dbm_pos → clidb_book_peek g k s1 ≡ clidb_book_peek g k s
    pub file : g.File
    pub open_ : s1.book_dbm_ptr ≡ some file

  inserted : BookEntry → Cache g → Cache g
  inserted e s = (clidb_book_insert g e none s).1

  insert-peek :
      (e : BookEntry) (s : Cache g) (f : g.File) (k : ℕ)
      → s.book_dbm_ptr ≡ some f
      → clidb_book_peek g k (inserted e s)
        ≡ (if s.book_dbm_pos == k then some e else clidb_book_peek g k s)
  unfolding inserted clidb_book_insert
  insert-peek e s f k held = elim (book_insert-Peeks g h e none s) [
    | inl (ok, seen) ↦ seen k
    | inr (failed, same) ↦
        absurd (ground (arith, held, stored f (book_key s.book_dbm_pos) (book_value e)))
  ]

  insert-end :
      (e : BookEntry) (s : Cache g) (f : g.File)
      → s.book_dbm_ptr ≡ some f
      → ((inserted e s).book_dbm_pos ≡ suc s.book_dbm_pos)
        × ((inserted e s).book_dbm_ptr
            ≡ some (g.store f (book_key s.book_dbm_pos) (book_value e)).1)
  unfolding inserted clidb_book_insert
  insert-end e s f held = (ground arith, ground arith)

  nil-Extended : (s : Cache g) (f : g.File) → s.book_dbm_ptr ≡ some f → Extended s [] s
  unfolding slice
  nil-Extended s f held = record {
    end_ = omega arith;
    added = refl;
    before = λ k lower. refl;
    file = f;
    open_ = held;
  }

  -- One book, and the others behind it.
  cons-Extended :
      (e : BookEntry) (es : List BookEntry) (s s2 : Cache g) (f : g.File)
      → s.book_dbm_ptr ≡ some f
      → Extended (inserted e s) es s2
      → Extended s (e ∷ es) s2
  cons-Extended e es s s2 f held x =
      let (end1, ptr1) = insert-end e s f held in
      let here : clidb_book_peek g s.book_dbm_pos s2 ≡ some e =
        x.before s.book_dbm_pos (omega arith)
        ∙ insert-peek e s f s.book_dbm_pos held
        ∙ ground arith in
      record {
        end_ = omega (arith, x.end_);
        added =
            slice-suc (λ k. clidb_book_peek g k s2) s.book_dbm_pos (length es) e here
            ∙ ap (λ (y : List BookEntry). e ∷ y)
                (ap (λ (p : ℕ). slice (λ k. clidb_book_peek g k s2) p (length es)) (sym end1)
                  ∙ x.added);
        before = λ k lower. x.before k (omega arith) ∙ insert-peek e s f k held ∙ ground arith;
        file = x.file;
        open_ = x.open_;
      }

  module _ (r : Remote) (q : IsQueue r) where
    abbrev pub final : Bool → ServerResponse
    final true = r_find_end_more
    final false = r_find_end

    -- -1 only for a search that ends without a book.
    abbrev pub verdict : Bool → ℕ → Reply
    verdict true n = reply_ok
    verdict false n = if n == 0 then reply_nothing else reply_ok

    await-replies :
        (rows : List BookRow) (more : Bool) (fuel n : ℕ) (msg m0 : Message) (c : Client r g)
        (f : g.File)
        → length rows < fuel
        → q.waiting c.line ≡ replies (final more) m0 rows
        → m0.request ≡ req_find_book
        → c.cache.book_dbm_ptr ≡ some f
        → ((await_responses r g fuel true n msg c).0 ≡ verdict more (n + length rows))
          × Extended c.cache (map entry_of_row rows) (await_responses r g fuel true n msg c).2.cache
    unfolding await_responses replies cache_found inserted slice
    await-replies rows more zero n msg m0 c f enough queued asks held = absurd (omega arith)
    await-replies [] true (suc fuel) n msg m0 c f enough queued asks held =
        let (first, rest) = q.takes c.line _ _ queued in
        let c1 = record c { line = (r.receive c.line).1 } in
        let goes : await_responses r g (suc fuel) true n msg c
            ≡ (reply_ok, with_response r_find_end_more m0, c1) =
          ground (arith, first) in
        (
          ap (λ (a : Replied r g). a.0) goes,
          subst (λ (a : Replied r g). Extended c.cache [] a.2.cache) (sym goes)
              (nil-Extended c.cache f held),
        )
    await-replies [] false (suc fuel) n msg m0 c f enough queued asks held =
        let (first, rest) = q.takes c.line _ _ queued in
        let c1 = record c { line = (r.receive c.line).1 } in
        let goes : await_responses r g (suc fuel) true n msg c
            ≡ (if n == 0 then reply_nothing else reply_ok, with_response r_find_end m0, c1) =
          ground (arith, first) in
        (
          ap (λ (a : Replied r g). a.0) goes ∙ ap (verdict false) {x = n} {y = n + 0} (omega arith),
          subst (λ (a : Replied r g). Extended c.cache [] a.2.cache) (sym goes)
              (nil-Extended c.cache f held),
        )
    await-replies (x ∷ xs) more (suc fuel) n msg m0 c f enough queued asks held =
        let m1 = with_response r_success (record m0 { book = entry_of_row x }) in
        let (first, rest) = q.takes c.line _ _ queued in
        let c2 = record c {
          line = (r.receive c.line).1;
          cache = inserted (entry_of_row x) c.cache;
        } in
        let (end1, ptr1) = insert-end (entry_of_row x) c.cache f held in
        let (said, grown) =
          await-replies xs more fuel (suc n) m1 m1 c2 _ (omega arith) rest asks ptr1 in
        let goes : await_responses r g (suc fuel) true n msg c
            ≡ await_responses r g fuel true (suc n) m1 c2 =
          ground (arith, first) in
        (
          ap (λ (a : Replied r g). a.0) goes
              ∙ said
              ∙ ap (verdict more) {x = suc n + length xs} {y = n + length (x ∷ xs)} (omega arith),
          subst (λ (a : Replied r g). Extended c.cache (map entry_of_row (x ∷ xs)) a.2.cache)
              (sym goes)
              (cons-Extended (entry_of_row x) (map entry_of_row xs) c.cache
                (await_responses r g fuel true (suc n) m1 c2).2.cache f held grown),
        )

    -- A search whose answer waits on the socket, one message for each book and a last one, returns
    -- 1 (or -1, where it ended without a book) and puts exactly these books, in their order, behind
    -- the ones in the cache, which stay as they are; it needs one turn more than there are books.
    -- The dbm stores what it is given, and the search is no mere count.
    pub find_from_server-Extended :
        (rows : List BookRow) (more : Bool) (fuel : ℕ) (msg m0 : Message) (c : Client r g)
        (f : g.File)
        → msg.request ≡ req_find_book
        → eq_ℤ msg.book.book_code break_limit_int ≡ false
        → (r.send msg c.line).0 ≡ true
        → q.waiting (r.send msg c.line).1 ≡ replies (final more) m0 rows
        → m0.request ≡ req_find_book
        → c.cache.book_dbm_ptr ≡ some f
        → length rows < fuel
        → ((find_from_server r g fuel msg c).0 ≡ verdict more (length rows))
          × Extended c.cache (map entry_of_row rows) (find_from_server r g fuel msg c).2.cache
    unfolding find_from_server
    find_from_server-Extended rows more fuel msg m0 c f finds page sent queued asks held enough =
        let c1 = record c { line = (r.send msg c.line).1 } in
        let goes : find_from_server r g fuel msg c ≡ await_responses r g fuel true 0 msg c1 =
          ground arith in
        let (said, grown) = await-replies rows more fuel 0 msg m0 c1 f enough queued asks held in
        (
          ap (λ (a : Replied r g). a.0) goes
              ∙ said
              ∙ ap (verdict more) {x = 0 + length rows} {y = length rows} (omega arith),
          subst (λ (a : Replied r g). Extended c.cache (map entry_of_row rows) a.2.cache) (sym goes)
              grown,
        )
