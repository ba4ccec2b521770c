-- ===== src/Users/Laws.antt =====
-- Whom an admin may delete, and whose modules an admin may change.
use server_deck_backend.Base.{
  ℕ, ◌≡◌, refl, ap, ◌∙◌, sym, subst, false, ◌&&◌, [], ◌∷◌, ◌==◌, nat_eq, text_eq, string_eq, Option,
  none, some, select, any, Bool-cases, inl, inr, ==-refl, Option-cases,
}
use server_deck_backend.Base.Text.{Text}
use server_deck_backend.Base.Outcome.{Outcome, ok, scalar_one_or_none, scalar_one_or_none-some}
use server_deck_backend.Models.{User}
use server_deck_backend.Database.{Session, Tables, commit, tables, put_tables, with_tables}
use server_deck_backend.Database.Laws.{>>=-returned, >>=-ok, tables-current, tables-read}
use server_deck_backend.Auth.Env.{Env}
use server_deck_backend.Users.Members.{find_member, delete_member, delete_user, without_user}

module _ (env : Env) (user_id : Text) (admin : User) where
  -- The one row of the id in the caller's team.
  pub record IsMember (s : Session) (target : User) : Type 0 where
    pub id : ℕ
    pub parsed : env.uuid.parse user_id ≡ some id
    pub tenant : Tables
    pub tenant_of : s.current.tenants s.search_path ≡ some tenant
    pub row : select (λ u. u.id == id && u.team_id == admin.team_id) tenant.users ≡ target ∷ []

  find_member-some :
      (s : Session) {target : User}
      → (find_member env user_id admin.team_id s).0 ≡ ok (some target)
      → IsMember s target
  unfolding find_member
  find_member-some s {target} h = elim (Option-cases (env.uuid.parse user_id)) [
    | inl bad ↦ cc (rw (bad, find_member) at h)
    | inr (id, good) ↦
        let (t, read, h1) = >>=-returned tables (λ _. _) s (rw (good, find_member) at h) in
        record {
          id = id;
          parsed = good;
          tenant = t;
          tenant_of = (tables-current s read).0;
          row = scalar_one_or_none-some _ h1;
        }
  ]

  delete_member-found :
      (found : Option User) (s : Session) {a : Unit {0}}
      → (delete_member found s).0 ≡ ok a
      → (target : User) × (found ≡ some target)
  unfolding delete_member
  delete_member-found none s h = cc
  delete_member-found (some target) s h = (target, refl)

  -- A deletion that returns was of the one row of the id in the caller's team, under an id that is
  -- not written as the caller's own.
  delete_user-IsMember :
      (s : Session) {a : Unit {0}}
      → (delete_user env user_id admin s).0 ≡ ok a
      → (target : User) × IsMember s target × ((env.uuid.show admin.id == user_id) ≡ false)
  unfolding delete_user
  delete_user-IsMember s {a} h = elim (Bool-cases (env.uuid.show admin.id == user_id)) [
    | inl own ↦ cc (rw (own, delete_user) at h)
    | inr other ↦
        let (found, row, h1) =
          >>=-returned (find_member env user_id admin.team_id) delete_member s
            (rw (other, delete_user) at h) in
        let (target, e) = delete_member-found found _ h1 in
        (target, find_member-some s (row ∙ ap ok e), other)
  ]

  find_member-read :
      (s : Session) {target : User}
      → IsMember s target
      → find_member env user_id admin.team_id s ≡ (ok (some target), s)
  unfolding find_member
  find_member-read s {target} m =
      rw (m.parsed, find_member)
        (>>=-ok tables _ s (tables-read s m.tenant_of) ∙ ap (λ l. (scalar_one_or_none l, s)) m.row)

  delete_member-done :
      (target : User) (s : Session) (t : Tables)
      → s.current.tenants s.search_path ≡ some t
      → any (λ k. k.created_by_id == target.id) t.tickets ≡ false
      → ((delete_member (some target) s).0 ≡ ok tt)
        × ((delete_member (some target) s).1.committed.tenants s.search_path
            ≡ some (without_user target t))
  unfolding delete_member commit put_tables
  delete_member-done target s t seen ticketless =
      let deleted : Session = record s {
        current = with_tables s.current s.search_path (without_user target t);
        committed = with_tables s.current s.search_path (without_user target t);
      } in
      let run : delete_member (some target) s ≡ (ok tt, deleted) =
        >>=-ok tables _ s (tables-read s seen) ∙ rw ticketless refl in
      subst
        (λ (r : Outcome (Unit {0}) × Session).
          (r.0 ≡ ok tt) × (r.1.committed.tenants s.search_path ≡ some (without_user target t)))
        (sym run) (refl, rw (==-refl s.search_path))

  -- The deletion of a member who has created no ticket succeeds whatever the roles of the two are:
  -- the row is gone, and with it the entries of the audit log that the member made.
  delete_user-any_role :
      (s : Session) (target : User)
      → (m : IsMember s target) → (env.uuid.show admin.id == user_id) ≡ false
      → any (λ k. k.created_by_id == target.id) m.tenant.tickets ≡ false
      → ((delete_user env user_id admin s).0 ≡ ok tt)
        × ((delete_user env user_id admin s).1.committed.tenants s.search_path
            ≡ some (without_user target m.tenant))
  unfolding delete_user
  delete_user-any_role s target m other ticketless =
      let step : delete_user env user_id admin s ≡ delete_member (some target) s =
        rw (other, delete_user)
          (>>=-ok (find_member env user_id admin.team_id) delete_member s (find_member-read s m)) in
      subst
        (λ (r : Outcome (Unit {0}) × Session).
          (r.0 ≡ ok tt)
          × (r.1.committed.tenants s.search_path ≡ some (without_user target m.tenant)))
        (sym step) (delete_member-done target s m.tenant m.tenant_of ticketless)
