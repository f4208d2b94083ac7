-- ===== src/Ncgui/Keyword.antt =====
-- handle_searchbook_keyword of bsdqclient/ncgui.c: the keyword of a search becomes the entry that
-- the server is asked for. A keyword has at most 319 bytes and fits the copies that are made of it;
-- its texts are bytes.
use bookshelfdq.Base.{
  ℕ, zero, suc, Text, codes, Option, none, some, [], ◌∷◌, ◌==◌, if◌then◌else◌, take, length, ltb,
  text_eq,
}
use bookshelfdq.Clisrv.{BookEntry}
use bookshelfdq.Ncgui.{string_filter, has_char, string_splitter}

abbrev pub or_empty : Option Text → Text
or_empty none = []
or_empty (some t) = t

-- t[0] = c
abbrev pub put_first : ℕ → Text → Text
put_first c [] = c ∷ []
put_first c (x ∷ t) = c ∷ t

abbrev pub first_of : Text → ℕ
first_of [] = 0
first_of (c ∷ t) = c

-- The entry that the loop starts from.
abbrev pub unasked : BookEntry → BookEntry
unasked e = record e {
  name = put_first b'0' e.name;
  author = put_first b'0' e.author;
  label = put_first b'0' e.label;
  borrowed = b'0';
  on_reading = b'0';
}

-- The entry and the count of conditions that were understood.
abbrev pub Asked : Type 0
Asked = BookEntry × ℕ

-- strcpy behind the first byte of an array of this size: `none` where the value and its NUL do not
-- fit, and what stands behind the array is written over.
abbrev pub copied : ℕ → Text → Asked → Option Asked
copied size value a = if ltb (suc (length value)) size then some a else none

-- sizeof name, author and label of book_entry_t
abbrev pub name_size : ℕ
name_size = 193

abbrev pub author_size : ℕ
author_size = 97

abbrev pub label_size : ℕ
label_size = 191

-- The keys of one letter; the last three ask whether the name is exact already.
unfoldable pub letter_part : ℕ → Text → Asked → Option Asked
unfolding text_eq
letter_part key value (e, n) =
    if key == b'r'
    then some
        (if text_eq value (b'1' ∷ []) then (record e { on_reading = b'1' }, suc n) else (e, n))
    else if key == b'o'
    then some (if text_eq value (b'1' ∷ []) then (record e { borrowed = b'1' }, suc n) else (e, n))
    else if first_of e.name == b'='
    then some (e, n)
    else if key == b'b'
    then copied name_size value (record e { name = b'+' ∷ value }, suc n)
    else if key == b'a'
    then copied author_size value (record e { author = b'+' ∷ value }, suc n)
    else if key == b'l'
    then copied label_size value (record e { label = b'+' ∷ value }, suc n)
    else some (e, n)

unfoldable pub word_part : Text → Text → Asked → Option Asked
unfolding text_eq
word_part key value (e, n) =
    if text_eq key (codes "book")
    then copied name_size value (record e { name = b'=' ∷ value }, suc n)
    else if text_eq key (codes "author")
    then copied author_size value (record e { author = b'=' ∷ value }, suc n)
    else some (e, n)

-- One part between semicolons.
unfoldable pub keyword_part : Text → Asked → Option Asked
unfolding string_splitter letter_part word_part
keyword_part part a =
    let key = or_empty (string_splitter part 0 b'=') in
    let value = or_empty (string_splitter part 1 b'=') in
    if length key == 1 then letter_part (first_of key) value a else word_part key value a

-- The loop over the parts from i on; `none` where a value is too long for its array, or the fuel is
-- used up.
unfoldable pub keyword_parts : ℕ → Text → ℕ → Asked → Option Asked
unfolding string_splitter keyword_part
keyword_parts zero keyword i a = none
keyword_parts (suc fuel) keyword i a = elim (string_splitter keyword i b';') [
  | none ↦ some a
  | some part ↦ elim (keyword_part part a) [
    | none ↦ none
    | some a1 ↦ keyword_parts fuel keyword (suc i) a1
  ]
]

-- A keyword without = is looked for in the name, the author and the label.
unfoldable pub fuzzy : Text → BookEntry → BookEntry
unfolding take
fuzzy kw e = record e {
  name = b'-' ∷ take 191 kw;
  author = b'-' ∷ take 95 kw;
  label = b'-' ∷ take 17 kw;
}

unfoldable pub handle_searchbook_keyword : ℕ → Text → BookEntry → Option Asked
unfolding keyword_parts fuzzy string_filter
handle_searchbook_keyword fuel keyword e =
    if has_char b'=' keyword
    then keyword_parts fuel keyword 0 (unasked e, 0)
    else some (fuzzy (string_filter keyword) (unasked e), 1)
