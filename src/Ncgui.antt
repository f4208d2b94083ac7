-- ===== src/Ncgui.antt =====
-- bsdqclient/ncgui.c, the functions of the terminal interface on texts: the search keyword and the
-- input of names and passwords. Windows are not modelled; the keys that are typed are an argument.
pub mod Keyword
pub mod Queries
pub mod Login
pub mod Buffer
pub mod Entered
use bookshelfdq.Base.{
  ℕ, zero, suc, Text, Bool, true, false, ◌&&◌, ◌||◌, Option, none, some, List, [], ◌∷◌, ◌==◌,
  if◌then◌else◌,
}

abbrev pub is_blank : ℕ → Bool
is_blank c = c == 32 || c == 9

abbrev pub is_empty : Text → Bool
is_empty [] = true
is_empty (c ∷ s) = false

unfoldable pub skip_blank : Text → Text
skip_blank [] = []
skip_blank (c ∷ s) = if is_blank c then skip_blank s else c ∷ s

-- Without the blanks at the end.
unfoldable pub cut_blank : Text → Text
cut_blank [] = []
cut_blank (c ∷ s) = let rest = cut_blank s in if is_blank c && is_empty rest then [] else c ∷ rest

-- string_filter(s, '\0')
unfoldable pub string_filter : Text → Text
unfolding skip_blank cut_blank
string_filter s = cut_blank (skip_blank s)

-- strchr(s, ch) != NULL
abbrev pub has_char : ℕ → Text → Bool
has_char ch [] = false
has_char ch (c ∷ s) = c == ch || has_char ch s

-- What stands before the first ch, and what behind it.
unfoldable pub cut_at : ℕ → Text → Text × Option Text
cut_at ch [] = ([], none)
cut_at ch (c ∷ s) =
    let (before, behind) = cut_at ch s in if c == ch then ([], some s) else (c ∷ before, behind)

-- The part of a number, without the blanks around it; `none` where 0 is returned, and the
-- destination is empty.
unfoldable pub string_splitter : Text → ℕ → ℕ → Option Text
unfolding string_filter cut_at
string_splitter s zero ch = some (string_filter (cut_at ch s).0)
string_splitter s (suc n) ch = elim (cut_at ch s).1 [
  | none ↦ none
  | some t ↦ string_splitter t n ch
]
