-- ===== src/Mysql/Printed.antt =====
-- How MySQL reads the names and the quoted texts of a statement, for texts that are printed into it
-- without mysql_escape_string.
use bookshelfdq.Base.{
  ℕ, ◌≡◌, refl, Text, Bool, true, false, ◌&&◌, ◌||◌, not, Option, none, some, [], ◌∷◌, ◌++◌, leb,
  ◌==◌, if◌then◌else◌, arith,
}

abbrev pub every : (ℕ → Bool) → Text → Bool
every p [] = true
every p (c ∷ s) = p c && every p s

-- A character of a name without backquotes: a digit, a letter, $, _ or one beyond ASCII.
unfoldable pub is_name_char : ℕ → Bool
is_name_char c =
    leb b'0' c && leb c b'9'
    || leb b'A' c && leb c b'Z'
    || leb b'a' c && leb c b'z'
    || c == b'$'
    || c == b'_'
    || leb 128 c

-- The name at the start of a text, and what stands behind it.
unfoldable pub read_name : Text → Text × Text
read_name [] = ([], [])
read_name (c ∷ s) =
    let (name, rest) = read_name s in if is_name_char c then (c ∷ name, rest) else ([], c ∷ s)

-- Neither a quote nor a backslash.
abbrev pub is_quotable : ℕ → Bool
is_quotable c = not (c == 39 || c == 92)

abbrev pub starts_quote : Text → Bool
starts_quote [] = false
starts_quote (c ∷ s) = c == 39

abbrev in_front : ℕ → Option (Text × Text) → Option (Text × Text)
in_front c none = none
in_front c (some (t, rest)) = some (c ∷ t, rest)

-- What is read behind an opening quote, up to the closing one, and what stands behind that; `none`
-- where the text does not close, and where it has an escape or a doubled quote, by which it would
-- stand for another text.
unfoldable pub read_quoted : Text → Option (Text × Text)
read_quoted [] = none
read_quoted (c ∷ s) =
    let more = read_quoted s in
    if c == 39
    then (if starts_quote s then none else some ([], s))
    else if c == 92
    then none
    else in_front c more

-- The table NAME_kind is read as one name.
pub read_name-append :
    (u kind rest : Text) (c : ℕ)
    → every is_name_char u ≡ true
    → every is_name_char kind ≡ true
    → is_name_char c ≡ false
    → read_name (u ++ kind ++ c ∷ rest) ≡ (u ++ kind, c ∷ rest)
unfolding read_name
read_name-append [] [] rest c h k ends = rw ends refl
read_name-append [] (x ∷ kind) rest c h k ends =
    ground (arith, read_name-append [] kind rest c refl)
read_name-append (x ∷ u) kind rest c h k ends = ground (arith, read_name-append u kind rest c)

-- A text without quotes and backslashes is read as it is.
pub read_quoted-append :
    (t rest : Text)
    → every is_quotable t ≡ true
    → starts_quote rest ≡ false
    → read_quoted (t ++ 39 ∷ rest) ≡ some (t, rest)
unfolding read_quoted
read_quoted-append [] rest h ends = ground arith
read_quoted-append (c ∷ t) rest h ends = ground (arith, read_quoted-append t rest)
