-- ===== src/Ncgui/Entered.antt =====
-- What get_login_input of bsdqclient/ncgui.c accepts, whatever is typed.
use bookshelfdq.Base.{
  ℕ, suc, ◌+◌, ◌-◌, ◌≤◌, ◌<◌, ◌≡◌, refl, ap, subst, ◌∙◌, inl, inr, Text, Bool, true, false, Option,
  none, some, List, [], ◌∷◌, ltb, ◌==◌, set, length, arith, Bool-cases,
}
use bookshelfdq.Ncgui.Login.{
  LoginOption, lg_option_name, lg_option_password, lg_option_login, lg_option_register, min_pw_len,
  default_input_len, key_backspace, c_string, check_login_input_char, Typed, Input, done, going,
  type_key, type_keys, get_login_input,
}
use bookshelfdq.Ncgui.Buffer.{
  all_allowed, underscores, rev_onto, IsEntered, IsTyped, set_behind, length-rev_onto,
  allowed-rev_onto, underscores-rev_onto, underscores-nil, c_string-rev_onto, checked,
}

-- A typed character.
put-IsTyped :
    (opt : LoginOption) (buf : List ℕ) (i ch : ℕ)
    → check_login_input_char buf ch opt ≡ true
    → i < default_input_len
    → IsTyped opt buf i
    → IsTyped opt (set buf i ch) (suc i)
put-IsTyped opt buf i ch pass low t = put t.behind t.laid t.room
  where
    put :
        (s : List ℕ)
        → buf ≡ rev_onto t.typed s
        → default_input_len < length t.typed + length s
        → IsTyped opt (set buf i ch) (suc i)
    put [] laid room = absurd (omega (arith, t.few, t.counted))
    put (x ∷ s) laid room =
        let (good, lone) =
          checked opt t.typed (x ∷ s) ch t.allowed t.single
            (subst (λ (b : List ℕ). check_login_input_char b ch opt ≡ true) laid pass) in
        record {
          typed = ch ∷ t.typed;
          behind = s;
          laid =
              ap (λ (b : List ℕ). set b i ch) laid
              ∙ ap (λ (j : ℕ). set (rev_onto t.typed (x ∷ s)) j ch) t.counted
              ∙ set_behind t.typed s x ch;
          counted = omega (arith, t.counted);
          few = omega (arith, t.counted);
          room = omega arith;
          allowed = good;
          single = lone;
        }

fewer_underscores :
    (opt : LoginOption) (c : ℕ) (r : Text) → underscores opt r ≤ underscores opt (c ∷ r)
fewer_underscores lg_option_name c r = ground arith
fewer_underscores lg_option_password c r = omega arith
fewer_underscores lg_option_login c r = omega arith
fewer_underscores lg_option_register c r = omega arith

-- A character taken back.
back-IsTyped :
    (opt : LoginOption) (buf : List ℕ) (i : ℕ)
    → IsTyped opt buf i
    → IsTyped opt (set buf (i - 1) 0) (i - 1)
back-IsTyped opt buf i t = back t.typed t.behind t.laid t.counted t.few t.room t.allowed t.single
  where
    back :
        (r s : List ℕ)
        → buf ≡ rev_onto r s
        → i ≡ length r
        → length r ≤ default_input_len
        → default_input_len < length r + length s
        → all_allowed opt r ≡ true
        → underscores opt r ≤ 1
        → IsTyped opt (set buf (i - 1) 0) (i - 1)
    back [] [] laid counted few room good lone = absurd (omega arith)
    back [] (x ∷ s) laid counted few room good lone = record {
      typed = [];
      behind = 0 ∷ s;
      laid =
          ap (λ (b : List ℕ). set b (i - 1) 0) laid
          ∙ ap (λ (j : ℕ). set (x ∷ s) j 0) {x = i - 1} {y = 0} (omega arith);
      counted = omega arith;
      few = omega arith;
      room = omega arith;
      allowed = refl;
      single = lone;
    }
    back (c ∷ r) s laid counted few room good lone = record {
      typed = r;
      behind = 0 ∷ s;
      laid =
          ap (λ (b : List ℕ). set b (i - 1) 0) laid
          ∙ ap (λ (j : ℕ). set (rev_onto r (c ∷ s)) j 0) {x = i - 1} {y = length r} (omega arith)
          ∙ set_behind r s c 0;
      counted = omega arith;
      few = omega arith;
      room = omega arith;
      allowed = ground arith;
      single = omega (arith, fewer_underscores opt c r);
    }

-- The end of the line behind six characters.
enter-IsEntered :
    (opt : LoginOption) (buf : List ℕ) (i : ℕ)
    → min_pw_len ≤ i
    → IsTyped opt buf i
    → IsEntered opt (set buf i 0)
enter-IsEntered opt buf i high t = enter t.behind t.laid t.room
  where
    enter :
        (s : List ℕ)
        → buf ≡ rev_onto t.typed s
        → default_input_len < length t.typed + length s
        → IsEntered opt (set buf i 0)
    enter [] laid room = absurd (omega (arith, t.few))
    enter (x ∷ s) laid room =
        let read : c_string (set buf i 0) ≡ rev_onto t.typed [] =
          ap c_string (
            ap (λ (b : List ℕ). set b i 0) laid
            ∙ ap (λ (j : ℕ). set (rev_onto t.typed (x ∷ s)) j 0) t.counted
            ∙ set_behind t.typed s x 0)
          ∙ c_string-rev_onto opt t.typed (0 ∷ s) t.allowed in
        let sized = ap length read ∙ length-rev_onto t.typed [] in
        record {
          long = omega (arith, sized, t.counted);
          short = omega (arith, sized, t.few);
          allowed =
              ap (all_allowed opt) read
              ∙ allowed-rev_onto opt t.typed []
              ∙ ground (arith, t.allowed);
          single = omega (
            arith,
            ap (underscores opt) read,
            underscores-rev_onto opt t.typed [],
            underscores-nil opt,
            t.single,
          );
        }

abbrev Keeps : LoginOption → Typed → Type 0
Keeps opt (done true out) = IsEntered opt out
Keeps opt (done false out) = Unit
Keeps opt (going out j) = IsTyped opt out j

type_key-Keeps :
    (opt : LoginOption) (ch : ℕ) (buf : List ℕ) (i : ℕ)
    → IsTyped opt buf i
    → Keeps opt (type_key opt ch buf i)
unfolding type_key
type_key-Keeps opt ch buf i t = elim (Bool-cases (ltb ch 128)) [
  | inl ascii ↦ rw ascii (elim (Bool-cases (ch == 10)) [
    | inl enter ↦ rw enter (elim (Bool-cases (ltb i min_pw_len)) [
      | inl few ↦ rw few tt
      | inr many ↦ rw many (enter-IsEntered opt buf i (ground arith) t)
    ])
    | inr other ↦ rw other (elim (Bool-cases (check_login_input_char buf ch opt)) [
      | inl pass ↦ rw pass (elim (Bool-cases (ltb i default_input_len)) [
        | inl low ↦ rw low (put-IsTyped opt buf i ch pass (ground arith) t)
        | inr full ↦ rw full t
      ])
      | inr fail ↦ rw fail t
    ])
  ])
  | inr special ↦ rw special (elim (Bool-cases (ch == key_backspace)) [
    | inl back ↦ rw back (back-IsTyped opt buf i t)
    | inr other ↦ rw other t
  ])
]

abbrev buffer_or : List ℕ → Option Input → List ℕ
buffer_or o none = o
buffer_or o (some (r, y)) = y

ended :
    (opt : LoginOption) (ret : Bool) (o out : List ℕ)
    → Keeps opt (done ret o)
    → ◌≡◌ {A = Option Input} (some (ret, o)) (some (true, out))
    → IsEntered opt out
ended opt true o out k h = subst (IsEntered opt) (ap (λ (x : Option Input). buffer_or o x) h) k
ended opt false o out k h = absurd (ground arith)

type_keys-IsEntered :
    (opt : LoginOption) (keys buf out : List ℕ) (i : ℕ)
    → IsTyped opt buf i
    → type_keys opt keys buf i ≡ some (true, out)
    → IsEntered opt out
unfolding type_keys
type_keys-IsEntered opt [] buf out i t h = absurd (ground arith)
type_keys-IsEntered opt (ch ∷ keys) buf out i t h =
    after (type_key opt ch buf i) (type_key-Keeps opt ch buf i t) (type_keys-IsEntered opt keys) h
  where
    after :
        (x : Typed)
        → Keeps opt x
        → ((o u : List ℕ) (j : ℕ)
            → IsTyped opt o j
            → type_keys opt keys o j ≡ some (true, u)
            → IsEntered opt u)
        → ◌≡◌ {A = Option Input}
            (elim x [ done ret o ↦ some (ret, o) | going o j ↦ type_keys opt keys o j ])
            (some (true, out))
        → IsEntered opt out
    after (done ret o) k ih h = ended opt ret o out k h
    after (going o j) k ih h = ih o out j k h

-- Whatever keys are typed into a buffer of more than 20 bytes, which holds an allowed text before:
-- an input that is accepted has 6 to 20 characters, all allowed for a name or a password, and a name
-- has at most one underscore.
pub get_login_input-IsEntered :
    (opt : LoginOption) (keys buf out : List ℕ)
    → IsTyped opt buf (length (c_string buf))
    → get_login_input opt keys buf ≡ some (true, out)
    → IsEntered opt out
unfolding get_login_input
get_login_input-IsEntered opt keys buf out t h =
    type_keys-IsEntered opt keys buf out (length (c_string buf)) t h
