-- ===== src/Srvdb/Account/Verify.antt =====
-- srvdb_account_verify: whom it lets in.
use bookshelfdq.Base.{
  ◌≡◌, refl, sym, subst, ◌∙◌, inl, inr, ◌⊎◌, Bool, true, false, ◌&&◌, Option, none, some, List, [],
  ◌∷◌, ◌==◌, keep, Text, text_eq_refl, ==_refl, arith, Option-cases, Bool-cases,
}
use bookshelfdq.Clisrv.{Message}
use bookshelfdq.Mysql.Statement.{AccountRow, select_type, select_password}
use bookshelfdq.Mysql.Meaning.{Tables, meaning, named, type_code, scalar_int, scalar_text}
use bookshelfdq.Mysql.Client.{Mysql, IsDocumented, IsReliable}
use bookshelfdq.Srvdb.Connection.Keeps.{tables_of, check-keeps, run-cases, run-result, run-effect}
use bookshelfdq.Srvdb.Connection.{Server, run, get_simple_int, get_simple_text, is_failed}
use bookshelfdq.Srvdb.Book.{Done, is_undefined}
use bookshelfdq.Srvdb.Account.{
  Bcrypt, Checked, matches, check_error, differs, verify_password, srvdb_account_verify,
  srvdb_account_register, new_hash, account_row,
}
use bookshelfdq.Srvdb.Account.Roster.{of_name-append}
use bookshelfdq.Srvdb.Account.Register.{
  of_name, with_account, turned_away, hashed, account_register-Registered,
}

-- The password's check, as a test.
abbrev pub is_match : Checked → Bool
is_match matches = true
is_match _ = false

-- The first account of the name, if any, has the type of the message and its password.
abbrev pub is_authentic : Bcrypt → Message → List AccountRow → Bool
is_authentic b msg [] = false
is_authentic b msg (a ∷ rest) =
    type_code a.type == type_code msg.account.type
    && is_match (b.checkpw msg.account.password a.password)

pub Checked-cases : (c : Checked) → (c ≡ matches) ⊎ ((c ≡ check_error) ⊎ (c ≡ differs))
Checked-cases matches = inl refl
Checked-cases check_error = inr (inl refl)
Checked-cases differs = inr (inr refl)

List-cases : {A : Type 0} → (xs : List A) → (xs ≡ []) ⊎ ((x : A) × (ys : List A) × (xs ≡ x ∷ ys))
List-cases [] = inl refl
List-cases (x ∷ ys) = inr (x, ys, refl)

module _ (m : Mysql) (d : IsDocumented m) (b : Bcrypt) (msg : Message) (t : Tables) where
  abbrev Lets : Done m → Type 0
  Lets r =
      (tables_of m d r.2 ≡ t)
      × ((r.0 ≡ false) ⊎ (is_authentic b msg (of_name msg.account.name t.accounts) ≡ true))

  verify_password-Lets :
      (s : Server m) (a : AccountRow) (rest : List AccountRow)
      → tables_of m d s ≡ t
      → of_name msg.account.name t.accounts ≡ a ∷ rest
      → (type_code a.type == type_code msg.account.type) ≡ true
      → Lets (verify_password m b msg s)
  unfolding verify_password meaning is_failed get_simple_text
  verify_password-Lets s a rest same h typed =
      let q = select_password msg.account.name in
      let s1 = (run m q s).1 in
      elim (run-cases m d q s) [
        | inl (e, k) ↦ (ground (arith, check-keeps m d s1), inl (ground arith))
        | inr (e, k) ↦
            let read : (run m q s).0 ≡ scalar_text (some a.password) = e ∙ rw (same, h) refl in
            elim (Checked-cases (b.checkpw msg.account.password a.password)) [
              | inl c ↦ (ground (arith, read), inr (rw (h, typed, c) refl))
              | inr (inl c) ↦ (ground (arith, read), inl (ground (arith, read)))
              | inr (inr c) ↦ (ground (arith, read), inl (ground (arith, read)))
            ]
      ]

  verify-Lets : (s : Server m) → tables_of m d s ≡ t → Lets (srvdb_account_verify m b msg s)
  unfolding srvdb_account_verify meaning is_failed get_simple_int
  verify-Lets s same =
      let q = select_type msg.account.name in
      let s1 = (run m q s).1 in
      elim (Bool-cases (is_undefined msg.user)) [
        | inl u ↦ (ground arith, inl (ground arith))
        | inr u ↦ elim (run-cases m d q s) [
          | inl (e, k) ↦ (ground (arith, check-keeps m d s1), inl (ground arith))
          | inr (e, k) ↦ elim (List-cases (of_name msg.account.name t.accounts)) [
            | inl empty ↦
                let read : (run m q s).0 ≡ scalar_int none = e ∙ rw (same, empty) refl in
                (ground (arith, read), inl (ground (arith, read)))
            | inr (a, rest, h) ↦
                let read : (run m q s).0 ≡ scalar_int (some (type_code a.type)) =
                  e ∙ rw (same, h) refl in
                elim (Bool-cases (type_code a.type == type_code msg.account.type)) [
                  | inl typed ↦
                      let goes : srvdb_account_verify m b msg s ≡ verify_password m b msg s1 =
                        ground (arith, read) in
                      subst Lets (sym goes) (verify_password-Lets s1 a rest (k ∙ same) h typed)
                  | inr other ↦ (ground (arith, read), inl (ground (arith, read)))
                ]
          ]
        ]
      ]

only_account :
    (a : AccountRow) (t : Tables)
    → of_name a.name t.accounts ≡ []
    → of_name a.name (with_account a t).accounts ≡ a ∷ []
unfolding named keep
only_account a t free =
    rw (of_name-append a.name t.accounts (a ∷ []), free, text_eq_refl a.name) refl

pub account_verify-authentic :
    (m : Mysql) (d : IsDocumented m) (b : Bcrypt) (msg : Message) (s : Server m)
    → (tables_of m d (srvdb_account_verify m b msg s).2 ≡ tables_of m d s)
      × (((srvdb_account_verify m b msg s).0 ≡ false)
          ⊎ (is_authentic b msg (of_name msg.account.name (tables_of m d s).accounts) ≡ true))
account_verify-authentic m d b msg s = verify-Lets m d b msg (tables_of m d s) s refl

module _ (m : Mysql) (d : IsDocumented m) (w : IsReliable m d) (b : Bcrypt) (msg : Message) where
  -- On a server that answers, an account is let in if it is authentic.
  pub verify_lets :
      (s : Server m)
      → is_undefined msg.user ≡ false
      → is_authentic b msg (of_name msg.account.name (tables_of m d s).accounts) ≡ true
      → (srvdb_account_verify m b msg s).0 ≡ true
  unfolding srvdb_account_verify verify_password meaning is_failed get_simple_int get_simple_text
  verify_lets s defined auth =
      let q = select_type msg.account.name in
      let s1 = (run m q s).1 in
      let q2 = select_password msg.account.name in
      elim (List-cases (of_name msg.account.name (tables_of m d s).accounts)) [
        | inl empty ↦ absurd (ground arith)
        | inr (a, rest, h) ↦
            let read : (run m q s).0 ≡ scalar_int (some (type_code a.type)) =
              run-result m d w q s ∙ rw h refl in
            let hash : (run m q2 s1).0 ≡ scalar_text (some a.password) =
              run-result m d w q2 s1 ∙ rw (run-effect m d w q s, h) refl in
            elim (Checked-cases (b.checkpw msg.account.password a.password)) [
              | inl c ↦ ground (arith, read, hash)
              | inr (inl c) ↦ absurd (ground arith)
              | inr (inr c) ↦ absurd (ground arith)
            ]
      ]

  -- On a server that answers, whoever registers with success can be verified with the same message
  -- at once, as the check accepts a password against its own hash.
  pub registered_verify :
      (salt : Option Text) (s : Server m)
      → is_undefined msg.user ≡ false
      → ((p x hash : Text) → b.hashpw p x ≡ some hash → b.checkpw p hash ≡ matches)
      → (srvdb_account_register m b salt msg s).0 ≡ true
      → (srvdb_account_verify m b msg (srvdb_account_register m b salt msg s).2).0 ≡ true
  unfolding new_hash
  registered_verify salt s defined checks ok =
      let s1 = (srvdb_account_register m b salt msg s).2 in
      elim (account_register-Registered m d b salt msg s) [
        | inl (e, k) ↦ absurd (ground arith)
        | inr (free, room, h) ↦ elim h [
          | turned_away e k ↦ absurd (ground arith)
          | hashed hash e made k ↦ elim (Option-cases salt) [
            | inl q ↦ absurd (ground arith)
            | inr (x, q) ↦
                let c : b.checkpw msg.account.password hash ≡ matches =
                  checks msg.account.password x hash (ground arith) in
                verify_lets s1 defined (
                  rw
                    (
                      k,
                      only_account (account_row m b msg hash) (tables_of m d s) free,
                      ==_refl (type_code msg.account.type),
                      c,
                    )
                    refl)
          ]
        ]
      ]
