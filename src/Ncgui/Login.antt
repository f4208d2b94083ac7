-- ===== src/Ncgui/Login.antt =====
-- get_login_input of bsdqclient/ncgui.c: a name or a password is typed into a buffer. Keys are the
-- numbers that the window returns; `none` says that it waits for another key.
use bookshelfdq.Base.{
  ℕ, suc, ◌-◌, Text, Bool, true, false, ◌&&◌, ◌||◌, not, Option, none, some, List, [], ◌∷◌, ltb,
  leb, ◌==◌, if◌then◌else◌, set, length,
}
use bookshelfdq.Ncgui.{has_char}

pub data LoginOption : Type 0 where
  lg_option_name lg_option_password lg_option_login lg_option_register : LoginOption

abbrev pub min_pw_len : ℕ
min_pw_len = 6

abbrev pub default_input_len : ℕ
default_input_len = 20

abbrev pub key_backspace : ℕ
key_backspace = 263

-- The C string in a buffer.
abbrev pub c_string : List ℕ → Text
c_string [] = []
c_string (c ∷ s) = if c == 0 then [] else c ∷ c_string s

abbrev pub is_name_char : ℕ → Bool
is_name_char c =
    (leb 0x30 c && leb c 0x39) || ((leb 0x41 c && leb c 0x5A) || (leb 0x61 c && leb c 0x7A))

unfoldable pub check_login_input_char : List ℕ → ℕ → LoginOption → Bool
check_login_input_char input_str ch lg_option_name =
    is_name_char ch || (ch == b'_' && not (has_char b'_' (c_string input_str)))
check_login_input_char input_str ch lg_option_password = leb 0x21 ch && leb ch 0x7E
check_login_input_char input_str ch lg_option_login = false
check_login_input_char input_str ch lg_option_register = false

-- What one key does: it ends the input with a result, or leaves a buffer and a position.
pub data Typed : Type 0 where
  done : Bool → List ℕ → Typed
  going : List ℕ → ℕ → Typed

unfoldable pub type_key : LoginOption → ℕ → List ℕ → ℕ → Typed
unfolding check_login_input_char
type_key opt ch input_str i =
    if ltb ch 128
    then (if ch == 10
        then (if ltb i min_pw_len
            then done false (set input_str 0 0)
            else done true (set input_str i 0))
        else if check_login_input_char input_str ch opt
        then (if ltb i default_input_len
            then going (set input_str i ch) (suc i)
            else going input_str i)
        else going input_str i)
    else if ch == key_backspace
    then going (set input_str (i - 1) 0) (i - 1)
    else going input_str i

-- The result, and the buffer after it.
abbrev pub Input : Type 0
Input = Bool × List ℕ

-- The loop, until a key ends it.
unfoldable pub type_keys : LoginOption → List ℕ → List ℕ → ℕ → Option Input
unfolding type_key
type_keys opt [] input_str i = none
type_keys opt (ch ∷ keys) input_str i = elim (type_key opt ch input_str i) [
  | done ret out ↦ some (ret, out)
  | going out j ↦ type_keys opt keys out j
]

unfoldable pub get_login_input : LoginOption → List ℕ → List ℕ → Option Input
unfolding type_keys
get_login_input opt keys input_str = type_keys opt keys input_str (length (c_string input_str))
