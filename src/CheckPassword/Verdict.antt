-- ===== src/CheckPassword/Verdict.antt =====
-- What check_password.c accepts, and that its messages fit their buffer.
use bookshelfdq.Base.{
  ℕ, ◌+◌, ◌≤◌, codes, ◌<◌, ◌≡◌, refl, Text, ℤ, pos, negsuc, lt_ℤ, Bool, true, false, ◌&&◌, ◌||◌,
  not, inl, inr, none, some, ◌++◌, ltb, if◌then◌else◌, length, length-append, arith, Option-cases,
}
use bookshelfdq.Aes.{is_digit}
use bookshelfdq.Aes.Key.{print_byte}
use bookshelfdq.Aes.Scanning.{length-print_byte}
use bookshelfdq.CheckPassword.{
  Dictionary, ldap_success, exit_failure, dict_failure, default_quality, not_strong, is_lower,
  is_upper, is_punct, Points, count_points, no_points, is_weak, is_bad_word, realloc_error_message,
  too_short_text, quality_text, bad_password_text, check_password, check_password_strength,
}
use bookshelfdq.CheckPassword.Tally.{any, Tallies, count_points_lem}

-- The rule in one line: six characters, among them a lower, an upper and a digit, and no word that
-- the dictionary objects to.
abbrev pub is_mixed : Text → Bool
is_mixed pw = any is_lower pw && any is_upper pw && any is_digit pw

abbrev pub verdict : Dictionary → Text → ℕ
verdict d pw =
    if ltb (length pw) 6 || not (is_mixed pw)
    then exit_failure
    else elim (is_bad_word d pw) [ none ↦ ldap_success | some r ↦ dict_failure ]

not_positive : (z : ℤ) → lt_ℤ z (pos 1) ≡ true → lt_ℤ (pos 0) z ≡ false
unfolding lt_ℤ
not_positive (pos n) h = ground arith
not_positive (negsuc n) h = refl

-- Three classes that are required make three points, so that the points decide nothing more.
is_weak-Tallies : (l u d q : Bool) (p : Points) → Tallies l u d q p → is_weak p ≡ not (l && u && d)
unfolding is_weak
is_weak-Tallies l u d q p t = ground (
  arith,
  t.of_lower.0,
  t.of_upper.0,
  t.of_digit.0,
  t.in_all,
  not_positive p.min_punct t.of_punct.0,
)

is_weak-is_mixed : (pw : Text) → is_weak (count_points pw no_points) ≡ not (is_mixed pw)
is_weak-is_mixed pw =
    is_weak-Tallies (any is_lower pw) (any is_upper pw) (any is_digit pw) (any is_punct pw)
      (count_points pw no_points) (count_points_lem pw)

-- The code that check_password_strength returns is the one of the rule: 1 for a password that is
-- shorter than 6 characters or lacks a lower case letter, an upper case letter or a digit, else 2
-- for one that the dictionary, where its three files are there, objects to, else 0.
pub check_password_strength-verdict :
    (d : Dictionary) (pw : Text) → check_password_strength d pw ≡ verdict d pw
unfolding check_password_strength check_password
check_password_strength-verdict d pw = elim (Option-cases (is_bad_word d pw)) [
  | inl e ↦ ground (arith, e, is_weak-is_mixed pw)
  | inr (r, e) ↦ ground (arith, e, is_weak-is_mixed pw)
]

-- The lengths of the three messages.
length-too_short_text : (name : Text) (n : ℕ) → length (too_short_text name n) ≤ length name + 40
length-too_short_text name n = omega (
  arith,
  length-append name (codes "\" is too short (" ++ (print_byte n ++ codes "/6)")),
  length-append (print_byte n) (codes "/6)"),
  length-print_byte n,
)

length-quality_text : (name : Text) (n m : ℕ) → length (quality_text name n m) ≤ length name + 117
length-quality_text name n m = omega (
  arith,
  length-append name
      (not_strong ++ (print_byte n ++ (codes " of " ++ (print_byte m ++ codes ")")))),
  length-append (print_byte n) (codes " of " ++ (print_byte m ++ codes ")")),
  length-append (print_byte m) (codes ")"),
  length-print_byte n,
  length-print_byte m,
)

length-bad_password_text :
    (name r : Text) → length (bad_password_text name r) ≡ length name + length r + 31
length-bad_password_text name r = omega (arith, length-append name (codes "\" because " ++ r))

-- Every message that check_password makes fits with its NUL the buffer that it has then.
pub check_password_fits :
    (d : Dictionary) (pw name : Text)
    → let r = check_password d pw name in length r.err_str < r.mem_len
unfolding check_password realloc_error_message
check_password_fits d pw name =
    let p = count_points pw no_points in
    elim (Option-cases (is_bad_word d pw)) [
      | inl e ↦ ground (
        arith,
        e,
        length-too_short_text name (length pw),
        length-quality_text name p.n_quality default_quality,
      )
      | inr (r, e) ↦ ground (
        arith,
        e,
        length-too_short_text name (length pw),
        length-quality_text name p.n_quality default_quality,
        length-bad_password_text name r,
      )
    ]
