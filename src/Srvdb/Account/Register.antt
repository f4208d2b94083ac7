-- ===== src/Srvdb/Account/Register.antt =====
-- srvdb_account_register and srvdb_account_update: what they do to the table of accounts.
use bookshelfdq.Base.{
  ◌<◌, ◌≡◌, refl, ap, sym, subst, ◌∙◌, inl, inr, ◌⊎◌, true, false, Option, some, List, [], ◌∷◌,
  ◌++◌, leb, ◌==◌, length, keep, Text, arith, Option-cases, Bool-cases,
}
use bookshelfdq.Clisrv.{max_user_num, Message}
use bookshelfdq.Mysql.Statement.{
  AccountRow, Statement, count_named, count_accounts, insert_account, set_password,
}
use bookshelfdq.Mysql.Rows.Update.{update_rows}
use bookshelfdq.Mysql.Meaning.{Tables, meaning, named}
use bookshelfdq.Mysql.Client.{Mysql, IsDocumented}
use bookshelfdq.Srvdb.Connection.Keeps.{tables_of, check-keeps, run-cases}
use bookshelfdq.Srvdb.Connection.{Server, run, get_simple_int, is_failed}
use bookshelfdq.Srvdb.Book.{Done, is_undefined}
use bookshelfdq.Srvdb.Account.{
  Bcrypt, new_hash, store_hash, account_row, register_named, srvdb_account_register,
  srvdb_account_update,
}

-- The accounts of a name.
abbrev pub of_name : Text → List AccountRow → List AccountRow
of_name n rows = keep (named n) rows

abbrev pub with_account : AccountRow → Tables → Tables
with_account a t = record t { accounts = t.accounts ++ a ∷ [] }

abbrev pub with_password : Text → Text → Tables → Tables
with_password n hash t = record t {
  accounts = update_rows (named n) (λ a. record a { password = hash }) t.accounts;
}

module _ (m : Mysql) (d : IsDocumented m) (b : Bcrypt) (salt : Option Text) (msg : Message)
    (t : Tables) where
  -- Nothing was changed, or the hash of the password is stored by the change f.
  pub data Hashed (f : Text → Tables) (r : Done m) : Type 0 where
    turned_away : r.0 ≡ false → tables_of m d r.2 ≡ t → Hashed f r
    hashed :
        (hash : Text)
        → r.0 ≡ true
        → new_hash m b salt msg.account.password ≡ some hash
        → tables_of m d r.2 ≡ f hash
        → Hashed f r

  store_hash-Hashed :
      (q : Text → Statement) (f : Text → Tables) (s : Server m)
      → tables_of m d s ≡ t
      → ((hash : Text)
          → (is_failed (meaning d.collation (q hash) t).0 ≡ false)
            × ((meaning d.collation (q hash) t).1 ≡ f hash))
      → Hashed f (store_hash m b q salt msg s)
  unfolding store_hash is_failed
  store_hash-Hashed q f s same h = elim (Option-cases (new_hash m b salt msg.account.password)) [
    | inl e ↦ turned_away (ground arith) (ground arith)
    | inr (hash, e) ↦ elim (run-cases m d (q hash) s) [
      | inl (x, k) ↦
          turned_away (ground arith) (ground (arith, check-keeps m d (run m (q hash) s).1))
      | inr (x, k) ↦
          let means = h hash in
          let result : is_failed (run m (q hash) s).0 ≡ false = ap is_failed x ∙ rw same means.0 in
          let effect : tables_of m d (run m (q hash) s).1 ≡ f hash = k ∙ rw same means.1 in
          hashed hash (ground (arith, result)) e (ground (arith, result, effect))
    ]
  ]

  -- A registration: refused, or the table had room and no such name, and has the account now.
  abbrev pub Registered : Done m → Type 0
  Registered r =
      ((r.0 ≡ false) × (tables_of m d r.2 ≡ t))
      ⊎ ((of_name msg.account.name t.accounts ≡ [])
          × (length t.accounts < max_user_num)
          × Hashed (λ hash. with_account (account_row m b msg hash) t) r)

  -- An update: refused, or the name is there and all its passwords are the new hash.
  abbrev pub Repassworded : Done m → Type 0
  Repassworded r =
      ((r.0 ≡ false) × (tables_of m d r.2 ≡ t))
      ⊎ ((0 < length (of_name msg.account.name t.accounts))
          × Hashed (λ hash. with_password msg.account.name hash t) r)

length_zero : {A : Type 0} → (xs : List A) → length xs ≡ 0 → xs ≡ []
length_zero [] h = refl
length_zero (x ∷ xs) h = absurd (omega arith)

module _ (m : Mysql) (d : IsDocumented m) (b : Bcrypt) (salt : Option Text) (msg : Message) where
  register_named-Registered :
      (t : Tables) (s : Server m)
      → tables_of m d s ≡ t
      → length t.accounts < max_user_num
      → Registered m d b salt msg t (register_named m b salt msg s)
  unfolding register_named meaning is_failed get_simple_int
  register_named-Registered t s same room =
      let q = count_named msg.account.name in
      let s1 = (run m q s).1 in
      elim (run-cases m d q s) [
        | inl (e, k) ↦ inl (ground arith, ground (arith, check-keeps m d s1))
        | inr (e, k) ↦ elim (Bool-cases (length (of_name msg.account.name t.accounts) == 0)) [
          | inl z ↦
              let goes : register_named m b salt msg s
                  ≡ store_hash m b (λ hash. insert_account (account_row m b msg hash)) salt msg s1 =
                ground arith in
              inr (
                length_zero _ (ground arith),
                room,
                subst (Hashed m d b salt msg t _) (sym goes)
                    (store_hash-Hashed m d b salt msg t _ _ s1 (k ∙ same) (λ hash. (refl, refl))),
              )
          | inr z ↦ inl (ground arith, ground arith)
        ]
      ]

  -- Whatever the server answers, a registration returns 0 and changes no table, or returns 1,
  -- where there were fewer than MAX_USER_NUM accounts and none of the name, and then the account
  -- with the hash of its password is added, and nothing else is changed.
  pub account_register-Registered :
      (s : Server m)
      → Registered m d b salt msg (tables_of m d s) (srvdb_account_register m b salt msg s)
  unfolding srvdb_account_register meaning is_failed get_simple_int
  account_register-Registered s =
      let t = tables_of m d s in
      let s1 = (run m count_accounts s).1 in
      elim (Bool-cases (is_undefined msg.user)) [
        | inl u ↦ inl (ground arith, ground arith)
        | inr u ↦ elim (run-cases m d count_accounts s) [
          | inl (e, k) ↦ inl (ground arith, ground (arith, check-keeps m d s1))
          | inr (e, k) ↦ elim (Bool-cases (leb max_user_num (length t.accounts))) [
            | inl full ↦ inl (ground arith, ground arith)
            | inr room ↦
                let goes : srvdb_account_register m b salt msg s ≡ register_named m b salt msg s1 =
                  ground arith in
                subst (Registered m d b salt msg t) (sym goes)
                  (register_named-Registered t s1 k (ground arith))
          ]
        ]
      ]

  -- Whatever the server answers, an update returns 0 and changes no table, or returns 1, where
  -- there is an account of the name, and then the password of that name is the hash of the new
  -- one, and nothing else is changed.
  pub account_update-Repassworded :
      (s : Server m)
      → Repassworded m d b salt msg (tables_of m d s) (srvdb_account_update m b salt msg s)
  unfolding srvdb_account_update meaning is_failed get_simple_int
  account_update-Repassworded s =
      let t = tables_of m d s in
      let q = count_named msg.account.name in
      let s1 = (run m q s).1 in
      elim (Bool-cases (is_undefined msg.user)) [
        | inl u ↦ inl (ground arith, ground arith)
        | inr u ↦ elim (run-cases m d q s) [
          | inl (e, k) ↦ inl (ground arith, ground (arith, check-keeps m d s1))
          | inr (e, k) ↦ elim (Bool-cases (length (of_name msg.account.name t.accounts) == 0)) [
            | inl z ↦ inl (ground arith, ground arith)
            | inr z ↦
                let goes : srvdb_account_update m b salt msg s
                    ≡ store_hash m b (λ hash. set_password msg.account.name hash) salt msg s1 =
                  ground arith in
                inr (
                  ground arith,
                  subst (Hashed m d b salt msg t _) (sym goes)
                      (store_hash-Hashed m d b salt msg t _ _ s1 k (λ hash. (refl, refl))),
                )
          ]
        ]
      ]
