-- ===== src/CheckPassword.antt =====
-- bsdqclient/check_password/check_password.c: the strength of a password, and
-- check_password_strength of bsdqclient/ncgui.c, which asks for it. The dictionary of cracklib is a
-- parameter. The characters are tested as in the C locale.
pub mod Tally
pub mod Verdict
use bookshelfdq.Base.{
  ℕ, zero, suc, ◌+◌, ◌<◌, Text, codes, ℤ, pos, negsuc, lt_ℤ, Bool, true, false, ◌&&◌, ◌||◌, not,
  Option, none, some, List, [], ◌∷◌, ◌++◌, ltb, leb, ◌==◌, if◌then◌else◌, length,
}
use bookshelfdq.Aes.{is_digit}
use bookshelfdq.Aes.Key.{print_byte}

-- Whether the three files of the dictionary open, and FascistCheck with its reason.
pub record Dictionary : Type 0 where
  pub has_hwm : Bool
  pub has_pwd : Bool
  pub has_pwi : Bool
  pub fascist_check : Text → Option Text

-- LDAP_SUCCESS is 0, EXIT_FAILURE 1 and DICT_FAILURE 2.
abbrev pub ldap_success : ℕ
ldap_success = 0

abbrev pub exit_failure : ℕ
exit_failure = 1

abbrev pub dict_failure : ℕ
dict_failure = 2

abbrev pub default_quality : ℕ
default_quality = 3

abbrev pub memory_margin : ℕ
memory_margin = 50

abbrev pub mem_init_sz : ℕ
mem_init_sz = 64

-- islower, isupper and ispunct
abbrev pub is_lower : ℕ → Bool
is_lower c = leb b'a' c && leb c b'z'

abbrev pub is_upper : ℕ → Bool
is_upper c = leb b'A' c && leb c b'Z'

unfoldable pub is_punct : ℕ → Bool
is_punct c = leb 33 c && leb c 126 && not (is_lower c || is_upper c || is_digit c)

-- The variables of the loop that counts.
pub record Points : Type 0 where
  pub min_lower : ℤ
  pub min_upper : ℤ
  pub min_digit : ℤ
  pub min_punct : ℤ
  pub n_lower : Bool
  pub n_upper : Bool
  pub n_digit : Bool
  pub n_punct : Bool
  pub n_quality : ℕ

abbrev pub pred_ℤ : ℤ → ℤ
pred_ℤ (pos zero) = negsuc 0
pred_ℤ (pos (suc n)) = pos n
pred_ℤ (negsuc n) = negsuc (suc n)

-- Whether the first character of a class, behind those that are required, is this one.
unfoldable pub scores : Bool → ℤ → Bool
scores seen least = not seen && lt_ℤ least (pos 1)

unfoldable pub raised : Bool → ℕ → ℕ
raised now q = if now then suc q else q

unfoldable pub count_char : ℕ → Points → Points
unfolding scores raised
count_char c p =
    if is_lower c
    then (let now = scores p.n_lower (pred_ℤ p.min_lower) in
        record p {
          min_lower = pred_ℤ p.min_lower;
          n_lower = now || p.n_lower;
          n_quality = raised now p.n_quality;
        })
    else if is_upper c
    then (let now = scores p.n_upper (pred_ℤ p.min_upper) in
        record p {
          min_upper = pred_ℤ p.min_upper;
          n_upper = now || p.n_upper;
          n_quality = raised now p.n_quality;
        })
    else if is_digit c
    then (let now = scores p.n_digit (pred_ℤ p.min_digit) in
        record p {
          min_digit = pred_ℤ p.min_digit;
          n_digit = now || p.n_digit;
          n_quality = raised now p.n_quality;
        })
    else if is_punct c
    then (let now = scores p.n_punct (pred_ℤ p.min_punct) in
        record p {
          min_punct = pred_ℤ p.min_punct;
          n_punct = now || p.n_punct;
          n_quality = raised now p.n_quality;
        })
    else p

unfoldable pub count_points : Text → Points → Points
unfolding count_char is_punct
count_points [] p = p
count_points (c ∷ s) p = count_points s (count_char c p)

abbrev pub no_points : Points
no_points = record {
  min_lower = pos 1;
  min_upper = pos 1;
  min_digit = pos 1;
  min_punct = pos 0;
  n_lower = false;
  n_upper = false;
  n_digit = false;
  n_punct = false;
  n_quality = 0;
}

-- Whether the points are too few.
unfoldable pub is_weak : Points → Bool
is_weak p =
    lt_ℤ (pos 0) p.min_lower
    || lt_ℤ (pos 0) p.min_upper
    || lt_ℤ (pos 0) p.min_digit
    || lt_ℤ (pos 0) p.min_punct
    || ltb p.n_quality default_quality

-- The four formats, cut at their %s and %d.
abbrev pub dn_quote : Text
dn_quote = codes "Password for dn=\""

abbrev pub too_short_text : Text → ℕ → Text
too_short_text name n =
    dn_quote ++ (name ++ (codes "\" is too short (" ++ (print_byte n ++ codes "/6)")))

abbrev pub too_short_sz : ℕ
too_short_sz = length (codes "Password for dn=\"%s\" is too short (%d/6)")

abbrev pub not_strong : Text
not_strong =
    codes "\" does not pass required number of strength checks for the required character sets ("

abbrev pub quality_text : Text → ℕ → ℕ → Text
quality_text name n m =
    dn_quote
    ++ (name ++ (not_strong ++ (print_byte n ++ (codes " of " ++ (print_byte m ++ codes ")")))))

abbrev pub quality_sz : ℕ
quality_sz = length dn_quote + 2 + length not_strong + length (codes "%d of %d)")

abbrev pub bad_password_text : Text → Text → Text
bad_password_text name r = codes "Bad password for dn=\"" ++ (name ++ (codes "\" because " ++ r))

abbrev pub bad_password_sz : ℕ
bad_password_sz = length (codes "Bad password for dn=\"%s\" because %s")

-- The new length of the buffer of messages.
unfoldable pub realloc_error_message : ℕ → ℕ → ℕ
realloc_error_message curlen nextlen =
    if ltb curlen (nextlen + memory_margin) then nextlen + memory_margin else curlen

-- The code, the message that the caller gets, and the length of the buffer in which sprintf made it.
pub record Checked : Type 0 where
  pub code : ℕ
  pub err_str : Text
  pub mem_len : ℕ

-- The dictionary is asked only where its three files open.
unfoldable pub is_bad_word : Dictionary → Text → Option Text
is_bad_word d pw = if d.has_hwm && d.has_pwd && d.has_pwi then d.fascist_check pw else none

unfoldable pub check_password : Dictionary → Text → Text → Checked
unfolding count_points is_weak is_bad_word realloc_error_message
check_password d pw name =
    let p = count_points pw no_points in
    if ltb (length pw) 6
    then record {
      code = exit_failure;
      err_str = too_short_text name (length pw);
      mem_len = realloc_error_message mem_init_sz (too_short_sz + length name + 1);
    }
    else if is_weak p
    then record {
      code = exit_failure;
      err_str = quality_text name p.n_quality default_quality;
      mem_len = realloc_error_message mem_init_sz (quality_sz + length name + 2);
    }
    else elim (is_bad_word d pw) [
      | none ↦ record { code = ldap_success; err_str = []; mem_len = mem_init_sz }
      | some r ↦ record {
        code = dict_failure;
        err_str = bad_password_text name r;
        mem_len = realloc_error_message mem_init_sz (bad_password_sz + length name + length r);
      }
    ]

-- The code alone, for the name USER.
unfoldable pub check_password_strength : Dictionary → Text → ℕ
unfolding check_password
check_password_strength d pw = (check_password d pw (codes "USER")).code
