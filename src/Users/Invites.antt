-- ===== src/Users/Invites.antt =====
-- An invitation is accepted once.
use server_deck_backend.Base.{
  ℕ, ◌≡◌, refl, ap, ◌∙◌, sym, subst, Bool, true, false, List, [], ◌∷◌, ◌==◌, nat_eq, text_eq,
  if◌then◌else◌, Option, none, some, select, delete_where, any, ltb, Bool-cases, inl, inr, ==-refl,
}
use server_deck_backend.Base.Text.{Text}
use server_deck_backend.Base.Outcome.{
  Outcome, ok, http, crash, scalar_one_or_none, scalar_one_or_none-some,
}
use server_deck_backend.Base.Rows.{select-deleted}
use server_deck_backend.Models.{User, UserInvite, WaitlistRequest}
use server_deck_backend.Database.{
  Session, Tables, Action, proceed, ◌>>◌, lift, raise_http, commit, tables, public_tables,
  put_public,
}
use server_deck_backend.Database.Laws.{
  >>=-returned, >>=-ok, >>=-keeps, tables-current, tables-read, put_tables-read,
}
use server_deck_backend.Auth.Env.{Env}
use server_deck_backend.Users.{
  UserAcceptInvite, add_user, delete_invite, delete_request, clear_waitlist, accept_valid,
  accept_found, accept_invite, invited_user,
}

-- The invitations that a session sees.
abbrev pub HasInvites : Session → List UserInvite → Type 0
HasInvites s invites =
    (t : Tables) × (s.current.tenants s.search_path ≡ some t) × (t.invites ≡ invites)

add_user-HasInvites :
    (user : User) (s : Session) (invites : List UserInvite) {a : Unit {0}}
    → HasInvites s invites
    → (add_user user s).0 ≡ ok a
    → HasInvites (add_user user s).1 invites
unfolding add_user
add_user-HasInvites user s invites {a} (t, seen, same) h =
    subst (λ r. r.0 ≡ ok a → HasInvites r.1 invites) (sym (>>=-ok tables _ s (tables-read s seen)))
      (elim (Bool-cases (any (λ u. u.email == user.email) t.users)) [
        | inl taken ↦ rw taken (λ e. cc)
        | inr free ↦ rw free (λ e. (record t { users = user ∷ t.users }, put_tables-read _ s, same))
      ])
      h

delete_invite-HasInvites :
    (invite : UserInvite) (s : Session) (invites : List UserInvite)
    → HasInvites s invites
    → HasInvites (delete_invite invite s).1 (delete_where (λ i. i.id == invite.id) invites)
unfolding delete_invite
delete_invite-HasInvites invite s invites (t, seen, same) =
    subst (λ r. HasInvites r.1 (delete_where (λ i. i.id == invite.id) invites))
      (sym (>>=-ok tables _ s (tables-read s seen)))
      (
        record t { invites = delete_where (λ i. i.id == invite.id) t.invites },
        put_tables-read _ s,
        ap (delete_where (λ i. i.id == invite.id)) same,
      )

clear_waitlist-HasInvites :
    (email : Text) (s : Session) (invites : List UserInvite) {a : Unit {0}}
    → HasInvites s invites
    → (clear_waitlist email s).0 ≡ ok a
    → HasInvites (clear_waitlist email s).1 invites
unfolding clear_waitlist public_tables delete_request put_public commit
clear_waitlist-HasInvites email s invites {a} seen e =
    go (scalar_one_or_none (select (λ w. w.email == email) s.current.waitlist)) e
  where
    go :
        (r : Outcome (Option WaitlistRequest))
        → (proceed r (λ waiting. delete_request waiting >> commit) s).0 ≡ ok a
        → HasInvites (proceed r (λ waiting. delete_request waiting >> commit) s).1 invites
    go (ok none) e' = seen
    go (ok (some waiting)) e' = seen
    go (http n d) e' = cc
    go (crash x) e' = cc

module _ (env : Env) (salt new_id : ℕ) (request : UserAcceptInvite) where
  accept_valid-HasInvites :
      (invite : UserInvite) (s : Session) (invites : List UserInvite) {a : Unit {0}}
      → HasInvites s invites
      → (accept_valid env salt new_id request invite s).0 ≡ ok a
      → HasInvites
          (accept_valid env salt new_id request invite s).1
          (delete_where (λ i. i.id == invite.id) invites)
  unfolding accept_valid
  accept_valid-HasInvites invite s invites seen e =
      let left : List UserInvite = delete_where (λ i. i.id == invite.id) invites in
      >>=-keeps (λ u. HasInvites u left) (add_user (invited_user env salt new_id request invite))
        (λ _. _) s e
        (λ _ added e1.
          >>=-keeps (λ u. HasInvites u left) (delete_invite invite)
            (λ _. clear_waitlist invite.email) _ e1
            (λ _ _ e2.
              clear_waitlist-HasInvites invite.email _ left
                (delete_invite-HasInvites invite _ invites
                  (add_user-HasInvites _ s invites seen added))
                e2))

  accept_found-HasInvites :
      (now : ℕ) (found : Option UserInvite) (s : Session) (invites : List UserInvite) {a : Unit {0}}
      → HasInvites s invites
      → (accept_found env now salt new_id request found s).0 ≡ ok a
      → (invite : UserInvite) × (found ≡ some invite)
        × HasInvites
            (accept_found env now salt new_id request found s).1
            (delete_where (λ i. i.id == invite.id) invites)
  unfolding accept_found
  accept_found-HasInvites now none s invites seen e = cc
  accept_found-HasInvites now (some invite) s invites {a} seen e =
      (invite, refl, go (ltb invite.expires_at now) e)
    where
      go :
          (expired : Bool)
          → (if◌then◌else◌ {A = Action (Unit {0})} expired
              (raise_http 400 "Invitation expired")
              (accept_valid env salt new_id request invite)
              s).0
            ≡ ok a
          → HasInvites
              (if◌then◌else◌ {A = Action (Unit {0})} expired
                (raise_http 400 "Invitation expired")
                (accept_valid env salt new_id request invite)
                s).1
              (delete_where (λ i. i.id == invite.id) invites)
      go true e' = cc
      go false e' = accept_valid-HasInvites invite s invites seen e'

-- A token that no row has is refused.
accept_invite-unknown :
    (env : Env) (now salt new_id : ℕ) (request : UserAcceptInvite) (s : Session)
    (invites : List UserInvite)
    → HasInvites s invites
    → select (λ i. i.token == request.token) invites ≡ []
    → (accept_invite env now salt new_id request s).0 ≡ http 404 "Invitation not found"
unfolding accept_invite accept_found
accept_invite-unknown env now salt new_id request s invites (t, seen, same) h =
    let none_left : select (λ i. i.token == request.token) t.invites ≡ [] =
      subst (λ l. select (λ i. i.token == request.token) l ≡ []) (sym same) h in
    ap (λ r. r.0)
      (>>=-ok tables _ s (tables-read s seen)
        ∙ >>=-ok (lift (scalar_one_or_none (select (λ i. i.token == request.token) t.invites)))
            (accept_found env now salt new_id request) s
            (ap (λ l. (scalar_one_or_none l, s)) none_left))

-- Once an invitation has been accepted, its token is unknown to every later request on the same
-- tables, whatever name and password come with it.
pub accept_invite-once :
    (env : Env) (now salt new_id later salt' new_id' : ℕ) (request again : UserAcceptInvite)
    (s : Session) {a : Unit {0}}
    → (accept_invite env now salt new_id request s).0 ≡ ok a
    → again.token ≡ request.token
    → (accept_invite env later salt' new_id' again
        (accept_invite env now salt new_id request s).1).0
      ≡ http 404 "Invitation not found"
unfolding accept_invite
accept_invite-once env now salt new_id later salt' new_id' request again s {a} h same =
    let (t, read, h1) = >>=-returned tables _ s h in
    let (seen, stay) = tables-current s read in
    let start : HasInvites (tables s).1 t.invites =
      subst (λ u. HasInvites u t.invites) (sym stay) (t, seen, refl) in
    let (found, row, h2) =
      >>=-returned (lift (scalar_one_or_none (select (λ i. i.token == request.token) t.invites))) _
        _ h1 in
    let (invite, e, ends) =
      accept_found-HasInvites env salt new_id request now found _ t.invites start h2 in
    let left : List UserInvite = delete_where (λ i. i.id == invite.id) t.invites in
    let final : HasInvites (accept_invite env now salt new_id request s).1 left =
      subst (λ r. HasInvites r.1 left)
        (sym (
          >>=-ok tables _ s (tables-read s seen)
          ∙ >>=-ok (lift (scalar_one_or_none (select (λ i. i.token == request.token) t.invites)))
              (accept_found env now salt new_id request) s (ap (λ o. (o, s)) row)))
        (subst (λ u. HasInvites (accept_found env now salt new_id request found u).1 left) stay
          ends) in
    accept_invite-unknown env later salt' new_id' again _ left final (
      subst (λ token. select (λ i. i.token == token) left ≡ []) (sym same)
        (select-deleted (λ i. i.token == request.token) (λ i. i.id == invite.id) t.invites
          (scalar_one_or_none-some _ (row ∙ ap ok e)) (==-refl invite.id)))
