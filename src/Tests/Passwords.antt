-- ===== src/Tests/Passwords.antt =====
-- Passwords at concrete inputs, under a dictionary that objects to one word.
use bookshelfdq.Base.{◌≡◌, ◌<◌, refl, true, none, some, codes, text_eq, length, if◌then◌else◌, lt_ℤ}
use bookshelfdq.CheckPassword.{
  Dictionary, exit_failure, dict_failure, ldap_success, is_punct, count_char, check_password,
  check_password_strength,
}
use bookshelfdq.CheckPassword.Verdict.{
  verdict, check_password_strength-verdict, check_password_fits,
}

abbrev one_word : Dictionary
one_word = record {
  has_hwm = true;
  has_pwd = true;
  has_pwi = true;
  fascist_check =
      λ pw. if text_eq pw (codes "Passw0rd") then some (codes "it is too simplistic") else none;
}

no_digit : check_password_strength one_word (codes "Password") ≡ exit_failure
unfolding check_password_strength count_char is_punct lt_ℤ
no_digit = refl

too_simple : check_password_strength one_word (codes "Passw0rd") ≡ dict_failure
unfolding check_password_strength count_char is_punct lt_ℤ text_eq
too_simple = refl

good_word : check_password_strength one_word (codes "shelfDQ7") ≡ ldap_success
unfolding check_password_strength count_char is_punct lt_ℤ text_eq
good_word = refl

strength_example :
    check_password_strength one_word (codes "shelfDQ7") ≡ verdict one_word (codes "shelfDQ7")
strength_example = check_password_strength-verdict one_word (codes "shelfDQ7")

message_example :
    let r = check_password one_word (codes "abc") (codes "USER") in length r.err_str < r.mem_len
message_example = check_password_fits one_word (codes "abc") (codes "USER")
