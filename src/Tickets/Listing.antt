-- ===== src/Tickets/Listing.antt =====
-- What a listing of tickets shows, and in which order.
use server_deck_backend.Base.{
  ℕ, ◌≤◌, ◌+◌, ◌≡◌, refl, ◌∙◌, Bool, List, [], ◌∷◌, String, Option, some, select, leb, All,
  Bool-cases, inl, inr, arith, leb→le, none, true, ◌≢◌, eq_of_==, ==-refl, string_eq, nat_eq,
}
use server_deck_backend.Base.Counts.{count, count-implied, count-select, count-cons, one_if}
use server_deck_backend.Base.Outcome.{ok}
use server_deck_backend.Models.{User, Ticket}
use server_deck_backend.Database.{Session, Tables, tables}
use server_deck_backend.Database.Laws.{>>=-ok, tables-read}
use server_deck_backend.Tickets.{by_update, insert_by_update, passes, listed, list_tickets}

-- The tickets that were updated last come first.
abbrev pub NewestFirst : List Ticket → Type 0
NewestFirst [] = Unit
NewestFirst (k ∷ tickets) = All (λ j. j.updated_at ≤ k.updated_at) tickets × NewestFirst tickets

insert-All :
    (P : Ticket → Type 0) (k : Ticket) (tickets : List Ticket)
    → P k
    → All P tickets
    → All P (insert_by_update k tickets)
insert-All P k [] h all = (h, tt)
insert-All P k (j ∷ tickets) h (first, rest) = elim (Bool-cases (leb j.updated_at k.updated_at)) [
  | inl e ↦ rw e (h, (first, rest))
  | inr e ↦ rw e (first, insert-All P k tickets h rest)
]

by_update-All :
    (P : Ticket → Type 0) (tickets : List Ticket) → All P tickets → All P (by_update tickets)
unfolding by_update
by_update-All P [] all = tt
by_update-All P (k ∷ tickets) (h, all) =
    insert-All P k (by_update tickets) h (by_update-All P tickets all)

All-raise :
    (m n : ℕ) (tickets : List Ticket)
    → m ≤ n
    → All (λ j. j.updated_at ≤ m) tickets
    → All (λ j. j.updated_at ≤ n) tickets
All-raise m n [] h all = tt
All-raise m n (j ∷ tickets) h (first, rest) = (omega arith, All-raise m n tickets h rest)

insert-NewestFirst :
    (k : Ticket) (tickets : List Ticket)
    → NewestFirst tickets
    → NewestFirst (insert_by_update k tickets)
insert-NewestFirst k [] sorted = (tt, tt)
insert-NewestFirst k (j ∷ tickets) (all, sorted) =
    elim (Bool-cases (leb j.updated_at k.updated_at)) [
      | inl e ↦
          let older = leb→le j.updated_at k.updated_at e in
          rw e ((older, All-raise j.updated_at k.updated_at tickets older all), (all, sorted))
      | inr e ↦ rw e (
        insert-All (λ i. i.updated_at ≤ j.updated_at) k tickets (ground (arith, e)) all,
        insert-NewestFirst k tickets sorted,
      )
    ]

by_update-NewestFirst : (tickets : List Ticket) → NewestFirst (by_update tickets)
unfolding by_update
by_update-NewestFirst [] = tt
by_update-NewestFirst (k ∷ tickets) =
    insert-NewestFirst k (by_update tickets) (by_update-NewestFirst tickets)

insert-count :
    (p : Ticket → Bool) (k : Ticket) (tickets : List Ticket)
    → count p (insert_by_update k tickets) ≡ one_if (p k) + count p tickets
insert-count p k [] = ground arith
insert-count p k (j ∷ tickets) = elim (Bool-cases (leb j.updated_at k.updated_at)) [
  | inl e ↦ rw e (count-cons p k (j ∷ tickets))
  | inr e ↦ rw e (
      omega (
        arith,
        count-cons p j (insert_by_update k tickets),
        count-cons p j tickets,
        insert-count p k tickets,
      ))
]

by_update-count :
    (p : Ticket → Bool) (tickets : List Ticket) → count p (by_update tickets) ≡ count p tickets
unfolding by_update
by_update-count p [] = refl
by_update-count p (k ∷ tickets) =
    omega (
      arith,
      insert-count p k (by_update tickets),
      by_update-count p tickets,
      count-cons p k tickets,
    )

-- Who sees a ticket, and which filters let it pass: a filter that is missing or empty lets all pass.
pub record IsListed (status_filter priority_filter : Option String) (user : User) (k : Ticket)
    : Type 0 where
  pub team : k.team_id ≡ user.team_id
  pub own : user.role ≡ "member" → k.created_by_id ≡ user.id
  pub status : (wanted : String) → status_filter ≡ some wanted → wanted ≢ "" → k.status ≡ wanted
  pub priority :
      (wanted : String) → priority_filter ≡ some wanted → wanted ≢ "" → k.priority ≡ wanted

passes-to :
    (filter : Option String) (text : String)
    → passes filter text ≡ true
    → (wanted : String) → filter ≡ some wanted
    → wanted ≢ ""
    → text ≡ wanted
passes-to none text h wanted e some_text = cc e
passes-to (some w) text h wanted e some_text =
    ground (arith, string_eq.same_iff w "", string_eq.same_iff text w)

passes-from :
    (filter : Option String) (text : String)
    → ((wanted : String) → filter ≡ some wanted → wanted ≢ "" → text ≡ wanted)
    → passes filter text ≡ true
passes-from none text h = refl
passes-from (some w) text h =
    ground (arith, string_eq.same_iff w "", string_eq.same_iff text w, h w refl)

module _ (status_filter priority_filter : Option String) (user : User) where
  listed-to :
      (k : Ticket)
      → listed user status_filter priority_filter k ≡ true
      → IsListed status_filter priority_filter user k
  listed-to k h = record {
    team = eq_of_== k.team_id user.team_id (ground arith);
    own = λ member.
        eq_of_== k.created_by_id user.id (ground (arith, string_eq.same_iff user.role "member"));
    status = passes-to status_filter k.status (ground arith);
    priority = passes-to priority_filter k.priority (ground arith);
  }

  listed-from :
      (k : Ticket)
      → IsListed status_filter priority_filter user k
      → listed user status_filter priority_filter k ≡ true
  listed-from k l = ground (
    arith,
    l.team,
    l.own,
    ==-refl user.team_id,
    ==-refl user.id,
    string_eq.same_iff user.role "member",
    passes-from status_filter k.status l.status,
    passes-from priority_filter k.priority l.priority,
  )

  select-IsListed :
      (tickets : List Ticket)
      → All
          (IsListed status_filter priority_filter user)
          (select (listed user status_filter priority_filter) tickets)
  select-IsListed [] = tt
  select-IsListed (k ∷ tickets) = elim (Bool-cases (listed user status_filter priority_filter k)) [
    | inl e ↦ rw e (listed-to k e, select-IsListed tickets)
    | inr e ↦ rw e (select-IsListed tickets)
  ]

  -- A listing is newest first by update, and has only tickets of the caller's team, only the
  -- caller's own for a member, and only those that the filters let pass. Of tickets for which this
  -- holds none is left out or doubled: any such class of tickets is listed as often as it is stored.
  pub list_tickets-IsListed :
      (s : Session) (t : Tables)
      → s.current.tenants s.search_path ≡ some t
      → (p : Ticket → Bool)
      → ((k : Ticket) → p k ≡ true → IsListed status_filter priority_filter user k)
      → (tickets : List Ticket) × (list_tickets status_filter priority_filter user s
          ≡ (ok tickets, s))
        × NewestFirst tickets
        × All (IsListed status_filter priority_filter user) tickets
        × (count p tickets ≡ count p t.tickets)
  unfolding list_tickets
  list_tickets-IsListed s t seen p visible = (
    by_update (select (listed user status_filter priority_filter) t.tickets),
    >>=-ok tables _ s (tables-read s seen),
    by_update-NewestFirst _,
    by_update-All _ _ (select-IsListed t.tickets),
    by_update-count p _
        ∙ count-select p (listed user status_filter priority_filter) t.tickets
        ∙ count-implied p (listed user status_filter priority_filter)
            (λ k h. listed-from k (visible k h)) t.tickets,
  )
