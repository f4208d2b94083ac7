-- ===== src/Tests/Terminal.antt =====
-- The texts of the terminal interface at concrete inputs.
use bookshelfdq.Base.{
  ◌≡◌, refl, true, ℕ, zero, suc, some, none, List, [], ◌∷◌, ◌++◌, codes, arith, length,
}
use bookshelfdq.Ncgui.{string_splitter}
use bookshelfdq.Ncgui.Keyword.{handle_searchbook_keyword}
use bookshelfdq.Ncgui.Queries.{Query, by_reading, like_author, exact_author, print_queries}
use bookshelfdq.Ncgui.Login.{lg_option_name, c_string, get_login_input}
use bookshelfdq.Ncgui.Buffer.{IsTyped, IsEntered}
use bookshelfdq.Ncgui.Entered.{get_login_input-IsEntered}
use bookshelfdq.Tests.Engine.{an_entry}

third_part : string_splitter (codes "a; b ; c d ") 2 b';' ≡ some (codes "c d")
unfolding string_splitter
third_part = refl

no_part : string_splitter (codes "a; b") 2 b';' ≡ none
unfolding string_splitter
no_part = refl

-- "book=war;a=war;r=1": the author is no condition, since the name is exact.
abbrev queries : List Query
queries = like_author (codes "war") ∷ by_reading ∷ []

-- Bytes of a text.
abbrev letters : ℕ → List ℕ
letters zero = []
letters (suc n) = b'x' ∷ letters n

-- An author of 96 bytes does not fit its array.
long_author :
    handle_searchbook_keyword 4 (print_queries (exact_author (letters 96) ∷ [])) an_entry ≡ none
unfolding handle_searchbook_keyword
long_author = refl

abbrev blank_bytes : ℕ → List ℕ
blank_bytes zero = []
blank_bytes (suc n) = 0 ∷ blank_bytes n

blank-IsTyped : IsTyped lg_option_name (blank_bytes 21) (length (c_string (blank_bytes 21)))
blank-IsTyped = record {
  typed = [];
  behind = blank_bytes 21;
  laid = refl;
  counted = refl;
  few = omega arith;
  room = omega arith;
  allowed = refl;
  single = omega arith;
}

-- A second underscore and a blank are not taken.
abbrev tom_keys : List ℕ
tom_keys = codes "tom_ _01" ++ 10 ∷ []

tom_typed :
    get_login_input lg_option_name tom_keys (blank_bytes 21)
    ≡ some (true, codes "tom_01" ++ blank_bytes 15)
unfolding get_login_input
tom_typed = refl

input_example : IsEntered lg_option_name (codes "tom_01" ++ blank_bytes 15)
input_example =
    get_login_input-IsEntered lg_option_name tom_keys (blank_bytes 21)
      (codes "tom_01" ++ blank_bytes 15) blank-IsTyped tom_typed
