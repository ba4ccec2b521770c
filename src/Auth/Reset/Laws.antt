-- ===== src/Auth/Reset/Laws.antt =====
-- A reset token is used once, and not after it has expired.
use server_deck_backend.Base.{
  ℕ, ◌≡◌, refl, ap, sym, subst, ◌∙◌, true, false, [], ◌∷◌, ◌==◌, nat_eq, text_eq, Option, some,
  select, delete_where, update_where, ltb, ==-refl,
}
use server_deck_backend.Base.Rows.{select-delete_where_self}
use server_deck_backend.Base.Text.{Text}
use server_deck_backend.Base.Outcome.{Outcome, ok, http, scalar_one_or_none}
use server_deck_backend.Models.{User, PasswordResetToken}
use server_deck_backend.Database.{
  Session, Tables, lift, commit, tables, put_tables, public_tables, put_public, set_search_path,
  with_tables,
}
use server_deck_backend.Database.Laws.{>>=-ok, tables-read}
use server_deck_backend.Tenant.SchemaName.{validate_schema_name}
use server_deck_backend.Auth.Env.{Env}
use server_deck_backend.Hub.Client.{new_session}
use server_deck_backend.Auth.Login.{find_by_email, save_user}
use server_deck_backend.Auth.Reset.{
  public_schema, invalid_token, spend_token, reset_user, reset_in_schema, reset_with,
  reset_password,
}

abbrev pub in_public : Session → Session
in_public s = record s { search_path = public_schema }

to_public : (s : Session) → set_search_path public_schema s ≡ (ok tt, in_public s)
unfolding set_search_path validate_schema_name
to_public s = refl

-- The session once the token is gone and everything is committed.
abbrev pub spent : PasswordResetToken → Session → Session
spent row s = record s {
  current = record s.current {
    reset_tokens = delete_where (λ r. r.token == row.token) s.current.reset_tokens;
  };
  committed = record s.current {
    reset_tokens = delete_where (λ r. r.token == row.token) s.current.reset_tokens;
  };
}

spend_token-run :
    (row : PasswordResetToken) (s : Session) → spend_token row s ≡ (ok tt, spent row s)
unfolding spend_token public_tables put_public commit
spend_token-run row s = refl

-- The request comes down to the row that its token has.
reset_password-run :
    (env : Env) (now salt : ℕ) (token new_password : Text) (s : Session)
    {row : Option PasswordResetToken}
    → scalar_one_or_none (select (λ r. r.token == token) s.current.reset_tokens) ≡ ok row
    → reset_password env now salt token new_password s
      ≡ reset_with env now salt new_password row (in_public s)
unfolding reset_password public_tables
reset_password-run env now salt token new_password s {row} e =
    >>=-ok (set_search_path public_schema) (λ _. _) s (to_public s)
    ∙ >>=-ok (lift (scalar_one_or_none (select (λ r. r.token == token) s.current.reset_tokens)))
        (reset_with env now salt new_password) (in_public s) (ap (λ o. (o, in_public s)) e)

-- A token that is not there is refused, and nothing changes.
reset_password-unknown :
    (env : Env) (now salt : ℕ) (token new_password : Text) (s : Session)
    → select (λ r. r.token == token) s.current.reset_tokens ≡ []
    → reset_password env now salt token new_password s
      ≡ (http 400 "Invalid or expired reset token.", in_public s)
unfolding reset_with
reset_password-unknown env now salt token new_password s gone =
    reset_password-run env now salt token new_password s (ap scalar_one_or_none gone)

-- An expired token is refused, and is gone for good although the request fails.
reset_password-expired :
    (env : Env) (now salt : ℕ) (token new_password : Text) (s : Session) (row : PasswordResetToken)
    → select (λ r. r.token == token) s.current.reset_tokens ≡ row ∷ []
    → row.token ≡ token
    → ltb row.expires_at now ≡ true
    → ((reset_password env now salt token new_password s).0
        ≡ http 400 "Invalid or expired reset token.")
      × (select
            (λ r. r.token == token)
            (reset_password env now salt token new_password s).1.committed.reset_tokens
          ≡ [])
unfolding reset_with
reset_password-expired env now salt token new_password s row found same late =
    let run : reset_password env now salt token new_password s
        ≡ (http 400 "Invalid or expired reset token.", spent row (in_public s)) =
      reset_password-run env now salt token new_password s (ap scalar_one_or_none found)
      ∙ rw late (
          >>=-ok (spend_token row) (λ _. invalid_token) (in_public s)
            (spend_token-run row (in_public s))) in
    (
      ap (λ r. r.0) run,
      ap (λ r. select (λ v. v.token == token) r.1.committed.reset_tokens) run
          ∙ subst
              (λ (u : Text).
                select (λ v. v.token == u)
                  (delete_where (λ v. v.token == row.token) s.current.reset_tokens)
                ≡ [])
              same (select-delete_where_self (λ v. v.token == row.token) s.current.reset_tokens),
    )

-- The tenant's tables with the new password of a user.
abbrev pub tables_with_hash : Env → ℕ → Text → User → Tables → Tables
tables_with_hash env salt new_password user t = record t {
  users =
      update_where (λ u. u.id == user.id)
        (λ _. record user { password_hash = env.bcrypt.hash salt new_password }) t.users;
}

module _ (env : Env) (now salt : ℕ) (token new_password : Text) (s : Session)
    (row : PasswordResetToken) (t : Tables) (user : User)
    (found : select (λ r. r.token == token) s.current.reset_tokens ≡ row ∷ [])
    (same : row.token ≡ token) (valid : ltb row.expires_at now ≡ false)
    (schema : validate_schema_name row.schema_name ≡ ok row.schema_name)
    (seen : s.current.tenants row.schema_name ≡ some t)
    (known : find_by_email row.email t.users ≡ ok (some user)) where
  abbrev in_schema : Session
  in_schema = record s { search_path = row.schema_name }

  abbrev saved : Session
  saved = record in_schema {
    current = with_tables s.current row.schema_name (tables_with_hash env salt new_password user t);
  }

  to_schema : set_search_path row.schema_name (in_public s) ≡ (ok tt, in_schema)
  unfolding set_search_path
  to_schema = rw (schema, set_search_path) refl

  save_user-run :
      save_user (record user { password_hash = env.bcrypt.hash salt new_password }) in_schema
      ≡ (ok tt, saved)
  unfolding save_user put_tables
  save_user-run = >>=-ok tables _ in_schema (tables-read in_schema seen)

  reset_user-run :
      reset_user env salt new_password row (some user) in_schema
      ≡ (ok tt, spent row (in_public saved))
  unfolding reset_user
  reset_user-run =
      >>=-ok (save_user (record user { password_hash = env.bcrypt.hash salt new_password }))
        (λ _. _) in_schema save_user-run
      ∙ >>=-ok (set_search_path public_schema) (λ _. spend_token row) saved (to_public saved)
      ∙ spend_token-run row (in_public saved)

  reset_password-done :
      reset_password env now salt token new_password s ≡ (ok tt, spent row (in_public saved))
  unfolding reset_with reset_in_schema
  reset_password-done =
      reset_password-run env now salt token new_password s (ap scalar_one_or_none found)
      ∙ rw valid (
          >>=-ok (set_search_path row.schema_name) (λ _. _) (in_public s) to_schema
          ∙ >>=-ok tables _ in_schema (tables-read in_schema seen)
          ∙ >>=-ok (lift (find_by_email row.email t.users)) (reset_user env salt new_password row)
              in_schema (ap (λ o. (o, in_schema)) known)
          ∙ reset_user-run)

  -- A token that has not expired sets the password of the user with its address in its schema, and
  -- a later request with the same token is refused.
  pub reset_password-once :
      (later salt2 : ℕ) (password2 : Text)
      → ((reset_password env now salt token new_password s).0 ≡ ok tt)
        × ((reset_password env now salt token new_password s).1.committed.tenants row.schema_name
            ≡ some (tables_with_hash env salt new_password user t))
        × ((reset_password env later salt2 token password2
              (new_session (reset_password env now salt token new_password s).1.committed)).0
            ≡ http 400 "Invalid or expired reset token.")
  reset_password-once later salt2 password2 =
      subst
        (λ (r : Outcome (Unit {0}) × Session).
          (r.0 ≡ ok tt)
          × (r.1.committed.tenants row.schema_name
              ≡ some (tables_with_hash env salt new_password user t))
          × ((reset_password env later salt2 token password2 (new_session r.1.committed)).0
              ≡ http 400 "Invalid or expired reset token."))
        (sym reset_password-done)
        (
          refl,
          rw (==-refl row.schema_name),
          ap (λ r. r.0)
              (reset_password-unknown env later salt2 token password2
                (new_session (spent row (in_public saved)).committed)
                (subst
                  (λ (u : Text).
                    select (λ v. v.token == u)
                      (delete_where (λ v. v.token == row.token) s.current.reset_tokens)
                    ≡ [])
                  same
                  (select-delete_where_self (λ v. v.token == row.token) s.current.reset_tokens))),
        )
