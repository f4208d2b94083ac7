-- ===== src/Ncgui/Buffer.antt =====
-- The buffer of get_login_input of bsdqclient/ncgui.c: what was typed, and what stands behind it.
use bookshelfdq.Base.{
  ℕ, suc, ◌+◌, ◌≤◌, ◌<◌, ◌≡◌, refl, ap, ◌∙◌, Text, Bool, true, false, ◌&&◌, ◌||◌, List, [], ◌∷◌,
  leb, ◌==◌, if◌then◌else◌, set, length, arith,
}
use bookshelfdq.Ncgui.{has_char}
use bookshelfdq.Ncgui.Login.{
  LoginOption, lg_option_name, lg_option_password, lg_option_login, lg_option_register, min_pw_len,
  default_input_len, c_string, is_name_char, check_login_input_char,
}

-- The characters of an input, and how many underscores a name has.
abbrev pub is_allowed : LoginOption → ℕ → Bool
is_allowed lg_option_name c = is_name_char c || c == b'_'
is_allowed lg_option_password c = leb 0x21 c && leb c 0x7E
is_allowed lg_option_login c = false
is_allowed lg_option_register c = false

abbrev pub all_allowed : LoginOption → Text → Bool
all_allowed opt [] = true
all_allowed opt (c ∷ s) = is_allowed opt c && all_allowed opt s

abbrev pub underscores : LoginOption → Text → ℕ
underscores lg_option_name [] = 0
underscores lg_option_name (c ∷ s) =
    if c == b'_' then suc (underscores lg_option_name s) else underscores lg_option_name s
underscores opt s = 0

-- The characters of a list, the last first, before another.
abbrev pub rev_onto : List ℕ → List ℕ → List ℕ
rev_onto [] s = s
rev_onto (c ∷ r) s = rev_onto r (c ∷ s)

-- A string that may be the result.
pub record IsEntered (opt : LoginOption) (out : List ℕ) : Type 0 where
  pub long : min_pw_len ≤ length (c_string out)
  pub short : length (c_string out) ≤ default_input_len
  pub allowed : all_allowed opt (c_string out) ≡ true
  pub single : underscores opt (c_string out) ≤ 1

-- A buffer of more than 20 bytes into which the first i were typed.
pub record IsTyped (opt : LoginOption) (buf : List ℕ) (i : ℕ) : Type 0 where
  pub typed : List ℕ
  pub behind : List ℕ
  pub laid : buf ≡ rev_onto typed behind
  pub counted : i ≡ length typed
  pub few : length typed ≤ default_input_len
  pub room : default_input_len < length typed + length behind
  pub allowed : all_allowed opt typed ≡ true
  pub single : underscores opt typed ≤ 1

set-rev_onto :
    (r s : List ℕ) (j v : ℕ) → set (rev_onto r s) (length r + j) v ≡ rev_onto r (set s j v)
set-rev_onto [] s j v = ap (λ (x : ℕ). set s x v) {x = 0 + j} {y = j} (omega arith)
set-rev_onto (c ∷ r) s j v =
    ap (λ (x : ℕ). set (rev_onto r (c ∷ s)) x v) {x = suc (length r) + j} {y = length r + suc j}
      (omega arith)
    ∙ set-rev_onto r (c ∷ s) (suc j) v

pub set_behind :
    (r s : List ℕ) (x v : ℕ) → set (rev_onto r (x ∷ s)) (length r) v ≡ rev_onto r (v ∷ s)
set_behind r s x v =
    ap (λ (j : ℕ). set (rev_onto r (x ∷ s)) j v) {x = length r} {y = length r + 0} (omega arith)
    ∙ set-rev_onto r (x ∷ s) 0 v

pub length-rev_onto : (r s : List ℕ) → length (rev_onto r s) ≡ length r + length s
length-rev_onto [] s = omega arith
length-rev_onto (c ∷ r) s = omega (arith, length-rev_onto r (c ∷ s))

pub allowed-rev_onto :
    (opt : LoginOption) (r s : List ℕ)
    → all_allowed opt (rev_onto r s) ≡ (all_allowed opt r && all_allowed opt s)
allowed-rev_onto opt [] s = refl
allowed-rev_onto opt (c ∷ r) s = allowed-rev_onto opt r (c ∷ s) ∙ ground arith

pub underscores-rev_onto :
    (opt : LoginOption) (r s : List ℕ)
    → underscores opt (rev_onto r s) ≡ underscores opt r + underscores opt s
underscores-rev_onto lg_option_name [] s = omega arith
underscores-rev_onto lg_option_name (c ∷ r) s =
    underscores-rev_onto lg_option_name r (c ∷ s) ∙ ground arith
underscores-rev_onto lg_option_password r s = refl
underscores-rev_onto lg_option_login r s = refl
underscores-rev_onto lg_option_register r s = refl

pub underscores-nil : (opt : LoginOption) → underscores opt [] ≡ 0
underscores-nil lg_option_name = refl
underscores-nil lg_option_password = refl
underscores-nil lg_option_login = refl
underscores-nil lg_option_register = refl

allowed_nonzero : (opt : LoginOption) (c : ℕ) → is_allowed opt c ≡ true → (c == 0) ≡ false
allowed_nonzero lg_option_name c h = ground arith
allowed_nonzero lg_option_password c h = ground arith
allowed_nonzero lg_option_login c h = absurd (ground arith)
allowed_nonzero lg_option_register c h = absurd (ground arith)

-- The C string of a buffer goes on behind what was typed.
pub c_string-rev_onto :
    (opt : LoginOption) (r s : List ℕ)
    → all_allowed opt r ≡ true
    → c_string (rev_onto r s) ≡ rev_onto r (c_string s)
c_string-rev_onto opt [] s h = refl
c_string-rev_onto opt (c ∷ r) s h =
    c_string-rev_onto opt r (c ∷ s) (ground arith)
    ∙ ap (rev_onto r) (ground (arith, allowed_nonzero opt c))

has_char-rev_onto :
    (ch : ℕ) (r s : List ℕ) → has_char ch (rev_onto r s) ≡ (has_char ch r || has_char ch s)
has_char-rev_onto ch [] s = refl
has_char-rev_onto ch (c ∷ r) s = has_char-rev_onto ch r (c ∷ s) ∙ ground arith

no_underscores : (r : List ℕ) → has_char b'_' r ≡ false → underscores lg_option_name r ≡ 0
no_underscores [] h = refl
no_underscores (c ∷ r) h = ground (arith, no_underscores r)

-- A character that passes the check is allowed, and an underscore is the first.
pub checked :
    (opt : LoginOption) (r s : List ℕ) (ch : ℕ)
    → all_allowed opt r ≡ true
    → underscores opt r ≤ 1
    → check_login_input_char (rev_onto r s) ch opt ≡ true
    → (all_allowed opt (ch ∷ r) ≡ true) × (underscores opt (ch ∷ r) ≤ 1)
unfolding check_login_input_char
checked lg_option_name r s ch a u h =
    let e = ap (has_char b'_') (c_string-rev_onto lg_option_name r s a) in
    let e2 = has_char-rev_onto b'_' r (c_string s) in
    (ground arith, ground (arith, e, e2, no_underscores r))
checked lg_option_password r s ch a u h = (ground arith, omega arith)
checked lg_option_login r s ch a u h = absurd (ground arith)
checked lg_option_register r s ch a u h = absurd (ground arith)
