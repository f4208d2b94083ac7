-- ===== src/Socketsrv/Inert.antt =====
-- The texts of a request that bsdqserver/srvdb.c prints into its statements as they are: the user in
-- the names of tables, the times and the digits of the floors in quotes. Statements carry them as
-- texts; the program sends these statements where MySQL reads the texts as they are.
use bookshelfdq.Base.{ℕ, ◌≡◌, Text, true, false, some, List, [], ◌∷◌, ◌++◌, All}
use bookshelfdq.Clisrv.{
  Message, ClientRequest, req_insert_book, req_update_book, req_build_shelf, req_verify_account,
  req_register_account, req_heartbeat,
}
use bookshelfdq.Mysql.Printed.{
  every, is_name_char, is_quotable, starts_quote, read_name, read_quoted, read_name-append,
  read_quoted-append,
}
use bookshelfdq.Srvdb.Shelf.{values_of}

-- The texts in front of _books and _shelves: a log-in creates the tables of its account.
abbrev pub raw_names : ClientRequest → Message → List Text
raw_names req_verify_account msg = msg.account.name ∷ []
raw_names req_register_account msg = []
raw_names req_heartbeat msg = []
raw_names _ msg = msg.user ∷ []

abbrev pub raw_quotes : ClientRequest → Message → List Text
raw_quotes req_insert_book msg = msg.book.encoding_time ∷ []
raw_quotes req_update_book msg = msg.book.encoding_time ∷ []
raw_quotes req_build_shelf msg = msg.shelf.building_time ∷ (values_of msg.shelf).floor_depth ∷ []
raw_quotes _ msg = []

-- Names of letters, digits, $ and _, or characters beyond ASCII, and no quotes or backslashes in what
-- is quoted.
pub record IsInert (msg : Message) : Type 0 where
  pub names : All (λ u. every is_name_char u ≡ true) (raw_names msg.request msg)
  pub quotes : All (λ t. every is_quotable t ≡ true) (raw_quotes msg.request msg)

-- MySQL reads the name of a table as one name, and a quoted text as the text.
abbrev pub IsName : Text → Type 0
IsName u =
    (kind rest : Text) (c : ℕ)
    → every is_name_char kind ≡ true
    → is_name_char c ≡ false
    → read_name (u ++ kind ++ c ∷ rest) ≡ (u ++ kind, c ∷ rest)

abbrev pub IsQuotable : Text → Type 0
IsQuotable t =
    (rest : Text) → starts_quote rest ≡ false → read_quoted (t ++ 39 ∷ rest) ≡ some (t, rest)

pub record AreRead (msg : Message) : Type 0 where
  pub names : All IsName (raw_names msg.request msg)
  pub quotes : All IsQuotable (raw_quotes msg.request msg)

All-map : {P Q : Text → Type 0} (xs : List Text) → ((x : Text) → P x → Q x) → All P xs → All Q xs
All-map [] f h = tt
All-map (x ∷ xs) f h = (f x h.0, All-map xs f h.1)

pub IsInert-AreRead : (msg : Message) → IsInert msg → AreRead msg
IsInert-AreRead msg safe = record {
  names =
      All-map (raw_names msg.request msg)
        (λ u h kind rest c k ends. read_name-append u kind rest c h k ends) safe.names;
  quotes =
      All-map (raw_quotes msg.request msg) (λ t h rest ends. read_quoted-append t rest h ends)
        safe.quotes;
}
