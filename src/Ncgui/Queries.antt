-- ===== src/Ncgui/Queries.antt =====
-- What handle_searchbook_keyword of bsdqclient/ncgui.c understands: keywords that are written from
-- conditions.
use bookshelfdq.Base.{
  suc, ◌<◌, ◌≡◌, Text, codes, false, List, [], ◌∷◌, ◌++◌, ◌==◌, if◌then◌else◌, length,
}
use bookshelfdq.Ncgui.{skip_blank, cut_blank, has_char}
use bookshelfdq.Ncgui.Keyword.{first_of, Asked, name_size, author_size, label_size}

pub data Query : Type 0 where
  by_reading by_lending : Query
  like_name like_author like_label exact_name exact_author : Text → Query

abbrev pub print_query : Query → Text
print_query by_reading = codes "r=1"
print_query by_lending = codes "o=1"
print_query (like_name t) = b'b' ∷ b'=' ∷ t
print_query (like_author t) = b'a' ∷ b'=' ∷ t
print_query (like_label t) = b'l' ∷ b'=' ∷ t
print_query (exact_name t) = b'b' ∷ b'o' ∷ b'o' ∷ b'k' ∷ b'=' ∷ t
print_query (exact_author t) = b'a' ∷ b'u' ∷ b't' ∷ b'h' ∷ b'o' ∷ b'r' ∷ b'=' ∷ t

-- With semicolons between them.
abbrev pub print_queries : List Query → Text
print_queries [] = []
print_queries (q ∷ []) = print_query q
print_queries (q ∷ p ∷ qs) = print_query q ++ b';' ∷ print_queries (p ∷ qs)

-- The condition that a query adds, in its place in the entry: a vague one only where the name is
-- not exact already.
abbrev pub ask : Query → Asked → Asked
ask by_reading (e, n) = (record e { on_reading = b'1' }, suc n)
ask by_lending (e, n) = (record e { borrowed = b'1' }, suc n)
ask (like_name t) (e, n) =
    if first_of e.name == b'=' then (e, n) else (record e { name = b'+' ∷ t }, suc n)
ask (like_author t) (e, n) =
    if first_of e.name == b'=' then (e, n) else (record e { author = b'+' ∷ t }, suc n)
ask (like_label t) (e, n) =
    if first_of e.name == b'=' then (e, n) else (record e { label = b'+' ∷ t }, suc n)
ask (exact_name t) (e, n) = (record e { name = b'=' ∷ t }, suc n)
ask (exact_author t) (e, n) = (record e { author = b'=' ∷ t }, suc n)

abbrev pub ask_all : List Query → Asked → Asked
ask_all [] a = a
ask_all (q ∷ qs) a = ask_all qs (ask q a)

-- A text that the syntax leaves as it is: no separators, and no blanks at its ends.
pub record IsPlain (t : Text) : Type 0 where
  pub no_equals : has_char b'=' t ≡ false
  pub no_semicolon : has_char b';' t ≡ false
  pub starts : skip_blank t ≡ t
  pub ends : cut_blank t ≡ t

-- The texts are plain and fit their arrays behind the first byte, with the NUL.
abbrev pub IsFitting : Query → Type 0
IsFitting by_reading = Unit
IsFitting by_lending = Unit
IsFitting (like_name t) = IsPlain t × (suc (length t) < name_size)
IsFitting (like_author t) = IsPlain t × (suc (length t) < author_size)
IsFitting (like_label t) = IsPlain t × (suc (length t) < label_size)
IsFitting (exact_name t) = IsPlain t × (suc (length t) < name_size)
IsFitting (exact_author t) = IsPlain t × (suc (length t) < author_size)
