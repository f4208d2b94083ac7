-- ===== src/Srvshell/Reset.antt =====
-- reset_admin_password of bsdqserver/srvshell.c: whom it obeys and what it leaves.
use bookshelfdq.Base.{
  ◌≡◌, ◌==◌, refl, ap, sym, subst, ◌∙◌, inl, inr, ◌⊎◌, Bool, true, false, Option, some, List, [],
  ◌∷◌, keep, Text, text_eq, text_eq_sound, arith, Bool-cases, Option-cases,
}
use bookshelfdq.Clisrv.{Message}
use bookshelfdq.Mysql.Statement.{AccountRow, select_type, select_password}
use bookshelfdq.Mysql.Rows.Update.{update_rows}
use bookshelfdq.Mysql.Meaning.{named, type_code}
use bookshelfdq.Mysql.Client.{Mysql, IsDocumented, IsReliable}
use bookshelfdq.Srvdb.Connection.{Server, is_failed, run, get_simple_int, get_simple_text}
use bookshelfdq.Srvdb.Connection.Keeps.{tables_of}
use bookshelfdq.Srvdb.Account.{
  Bcrypt, matches, admin_default_account, new_hash, verify_password, srvdb_account_verify,
  srvdb_account_update,
}
use bookshelfdq.Srvdb.Account.Register.{
  of_name, with_password, turned_away, hashed, account_update-Repassworded,
}
use bookshelfdq.Srvdb.Account.Verify.{
  is_authentic, Checked-cases, account_verify-authentic, verify_lets,
}
use bookshelfdq.Srvshell.{get_mysql_password, admin_request, reset_admin_password}

-- The answers to the three prompts.
abbrev pub old_password : Bool → Text → Text
old_password quiet typed = (get_mysql_password quiet typed []).0

abbrev pub new_password : Bool → Text → Text
new_password quiet typed =
    let (old, rest) = get_mysql_password quiet typed [] in (get_mysql_password quiet rest old).0

abbrev pub again_password : Bool → Text → Text
again_password quiet typed =
    let (old, rest) = get_mysql_password quiet typed [] in
    (get_mysql_password quiet (get_mysql_password quiet rest old).1 []).0

module _ (m : Mysql) (b : Bcrypt) (msg : Message) where
  -- A verification that succeeds leaves the message as it is.
  verify_password-same :
      (s : Server m) → (verify_password m b msg s).0 ≡ true → (verify_password m b msg s).1 ≡ msg
  unfolding verify_password
  verify_password-same s ok =
      let (o, s1) = run m (select_password msg.account.name) s in
      elim (Bool-cases (is_failed o)) [
        | inl f ↦ absurd (ground arith)
        | inr f ↦ elim (Option-cases (get_simple_text o)) [
          | inl q ↦ absurd (ground arith)
          | inr (hash, q) ↦ elim (Checked-cases (b.checkpw msg.account.password hash)) [
            | inl c ↦ ground arith
            | inr (inl c) ↦ absurd (ground arith)
            | inr (inr c) ↦ absurd (ground arith)
          ]
        ]
      ]

  account_verify-same :
      (s : Server m)
      → (srvdb_account_verify m b msg s).0 ≡ true
      → (srvdb_account_verify m b msg s).1 ≡ msg
  unfolding srvdb_account_verify
  account_verify-same s ok =
      let (o, s1) = run m (select_type msg.account.name) s in
      elim (Option-cases (get_simple_int o)) [
        | inl q ↦ absurd (ground arith)
        | inr (n, q) ↦ ground (arith, verify_password-same s1)
      ]

-- Where an account was authentic, it is so under its new password after the change.
changed_authentic :
    (b : Bcrypt) (old new : Message) (n hash : Text) (rows : List AccountRow)
    → type_code new.account.type ≡ type_code old.account.type
    → b.checkpw new.account.password hash ≡ matches
    → is_authentic b old (of_name n rows) ≡ true
    → is_authentic b new
        (of_name n (update_rows (named n) (λ a. record a { password = hash }) rows))
      ≡ true
unfolding keep update_rows named
changed_authentic b old new n hash [] same c h = h
changed_authentic b old new n hash (x ∷ xs) same c h = elim (Bool-cases (text_eq x.name n)) [
  | inl q ↦
      let front : of_name n (x ∷ xs) ≡ x ∷ of_name n xs = rw q refl in
      let authentic : is_authentic b old (x ∷ of_name n xs) ≡ true =
        subst (λ l. is_authentic b old l ≡ true) front h in
      let typed : (type_code x.type == type_code new.account.type) ≡ true =
        rw same (ground (arith, authentic)) in
      let rest = of_name n (update_rows (named n) (λ a. record a { password = hash }) xs) in
      let changed : is_authentic b new (record x { password = hash } ∷ rest) ≡ true =
        rw (typed, c) refl in
      rw (q, q) changed
  | inr q ↦ ground (arith, changed_authentic b old new n hash xs same c)
]

module _ (m : Mysql) (d : IsDocumented m) (b : Bcrypt) (quiet : Bool) (typed : Text)
    (stack : Message) (salt : Option Text) (s : Server m) where
  -- The administrator's password is the hash of the new one, in place of the old one.
  pub record Replaced (s' : Server m) : Type 0 where
    pub allowed :
        is_authentic b
          (admin_request stack (old_password quiet typed))
          (of_name admin_default_account (tables_of m d s).accounts)
        ≡ true
    pub hash : Text
    pub made : new_hash m b salt (new_password quiet typed) ≡ some hash
    pub stored : tables_of m d s' ≡ with_password admin_default_account hash (tables_of m d s)

  -- The message of the update, and what the update leaves.
  abbrev update_message : Message → Message
  update_message msg = record msg {
    account = record msg.account { password = again_password quiet typed };
  }

  abbrev Left : Bool × Server m → Type 0
  Left r = ((r.0 ≡ false) × (tables_of m d r.1 ≡ tables_of m d s)) ⊎ ((r.0 ≡ true) × Replaced r.1)

  update-Left :
      let verified = srvdb_account_verify m b (admin_request stack (old_password quiet typed)) s in
      let r = srvdb_account_update m b salt (update_message verified.1) verified.2 in
      verified.0 ≡ true → new_password quiet typed ≡ again_password quiet typed → Left (r.0, r.2)
  update-Left ok same =
      let msg = admin_request stack (old_password quiet typed) in
      let (ok', msg1, s1) = srvdb_account_verify m b msg s in
      let kept : msg1 ≡ msg = account_verify-same m b msg s ok in
      let (quiet_tables, said) = account_verify-authentic m d b msg s in
      rw kept (elim (account_update-Repassworded m d b salt (update_message msg) s1) [
        | inl (e, k) ↦ inl (e, k ∙ quiet_tables)
        | inr (there, h) ↦ elim h [
          | turned_away e k ↦ inl (e, k ∙ quiet_tables)
          | hashed hash e made k ↦ inr (
            e,
            record {
              allowed = elim said [ inl refused ↦ absurd (ground arith) | inr let_in ↦ let_in ];
              hash = hash;
              made = rw same made;
              stored = k ∙ ap (with_password admin_default_account hash) quiet_tables;
            },
          )
        ]
      ])

  -- Whatever is typed and whatever the server answers, a reset returns 0 and changes no table, or
  -- it returns 1, the first password was the administrator's, and the hash of the second one
  -- replaces it; nothing else is changed.
  pub reset_admin_password-Replaced :
      let r = reset_admin_password m b quiet typed stack salt s in
      ((r.0 ≡ false) × (tables_of m d r.1 ≡ tables_of m d s)) ⊎ ((r.0 ≡ true) × Replaced r.1)
  unfolding reset_admin_password
  reset_admin_password-Replaced =
      let (ok, msg1, s1) =
        srvdb_account_verify m b (admin_request stack (old_password quiet typed)) s in
      let quiet_tables =
        (account_verify-authentic m d b (admin_request stack (old_password quiet typed)) s).0 in
      let updated = srvdb_account_update m b salt (update_message msg1) s1 in
      elim (Bool-cases ok) [
        | inl good ↦
            elim (Bool-cases (text_eq (new_password quiet typed) (again_password quiet typed))) [
              | inl same ↦
                  let goes : reset_admin_password m b quiet typed stack salt s
                      ≡ (updated.0, updated.2) =
                    rw (good, same) refl in
                  subst Left (sym goes) (update-Left good (text_eq_sound _ _ same))
              | inr other ↦ inl (rw (good, other) refl, rw (good, other) quiet_tables)
            ]
        | inr bad ↦ inl (rw bad refl, rw bad quiet_tables)
      ]

  -- On a server that answers, after a reset that returns 1 the administrator is let in with the new
  -- password, as the check accepts a password against its own hash.
  pub reset_verify :
      IsReliable m d
      → ((p x hash : Text) → b.hashpw p x ≡ some hash → b.checkpw p hash ≡ matches)
      → let r = reset_admin_password m b quiet typed stack salt s in
        r.0 ≡ true
        → (srvdb_account_verify m b (admin_request stack (new_password quiet typed)) r.1).0 ≡ true
  unfolding new_hash
  reset_verify w checks ok =
      let old = admin_request stack (old_password quiet typed) in
      let new = admin_request stack (new_password quiet typed) in
      elim reset_admin_password-Replaced [
        | inl (e, k) ↦ absurd (ground arith)
        | inr (e, changed) ↦ elim (Option-cases salt) [
          | inl q ↦ absurd (ground (arith, changed.made))
          | inr (x, q) ↦
              let c : b.checkpw (new_password quiet typed) changed.hash ≡ matches =
                checks (new_password quiet typed) x changed.hash
                  (sym (ap (λ o. new_hash m b o (new_password quiet typed)) q) ∙ changed.made) in
              verify_lets m d w b new _ refl (
                rw changed.stored (
                  changed_authentic b old new admin_default_account changed.hash
                    (tables_of m d s).accounts refl c changed.allowed))
        ]
      ]
