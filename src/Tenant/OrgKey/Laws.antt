-- ===== src/Tenant/OrgKey/Laws.antt =====
-- What organization key an address gets (`get_org_key_from_email` and `is_personal_email`).
use server_deck_backend.Base.{
  ℕ, ◌≡◌, refl, ap, sym, ◌∙◌, true, false, List, [], ◌∷◌, ◌++◌, some, ◌==◌, text_eq, nat_eq,
  contains, if◌then◌else◌, arith, All, ◌↔◌, ◌⊎◌, inl, inr, Bool-cases, Option-cases,
}
use server_deck_backend.Base.Text.{Text, split_char, part, is_space, lower_char}
use server_deck_backend.Base.Text.Laws.{
  split_char-append, split_char-none, split_char-cons, strip-id, lower-id,
}
use server_deck_backend.Tenant.OrgKey.{
  is_common, individual, lacks_domain, domain_labels, is_personal_domain, org_key_of_domain,
  is_personal_email, get_org_key_from_email,
}

-- Behind the test for "@" the second part of the split is there: no IndexError.
lacks_domain-part :
    (sep : ℕ) (s : Text) → contains sep s ≡ true → (d : Text) × (part 1 (split_char sep s) ≡ some d)
unfolding split_char
lacks_domain-part sep [] h = cc
lacks_domain-part sep (c ∷ s) h = elim (Bool-cases (c == sep)) [
  | inl e ↦ let (w, ws, shape) = split_char-cons sep s in (w, rw (e, shape))
  | inr e ↦
      let (d, found) =
        lacks_domain-part sep s (ground (arith, nat_eq.same_iff sep c, nat_eq.same_iff c sep)) in
      let (w, ws, shape) = split_char-cons sep s in (d, rw (e, shape) (rw shape at found))
]

-- A label of a lower-case domain: no white space and no capital, hence its own `strip` and `lower`.
abbrev pub IsPlain : Text → Type 0
IsPlain s = All (λ c. is_space c ≡ false) s × All (λ c. lower_char c ≡ c) s

lacks_domain-address : (local domain : Text) → lacks_domain (local ++ b'@' ∷ domain) ≡ false
unfolding lacks_domain
lacks_domain-address [] domain = refl
lacks_domain-address (c ∷ s) domain = ground (arith, contains-middle s)
  where
    contains-middle : (t : Text) → contains b'@' (t ++ b'@' ∷ domain) ≡ true
    contains-middle [] = refl
    contains-middle (d ∷ t) = ground (arith, contains-middle t)

key_of_labels :
    (email : Text) {parts : List Text}
    → lacks_domain email ≡ false
    → domain_labels email ≡ some parts
    → (get_org_key_from_email email ≡ org_key_of_domain parts)
      × (is_personal_email email ≡ is_personal_domain parts)
unfolding get_org_key_from_email is_personal_email
key_of_labels email there labels = (rw (there, labels), rw (there, labels))

domain_labels-address :
    (local key rest : Text)
    → contains b'@' local ≡ false
    → contains b'@' (key ++ b'.' ∷ rest) ≡ false
    → contains b'.' key ≡ false
    → IsPlain (key ++ b'.' ∷ rest)
    → domain_labels (local ++ b'@' ∷ (key ++ b'.' ∷ rest)) ≡ some (key ∷ split_char b'.' rest)
unfolding domain_labels
domain_labels-address local key rest no_at one_at no_dot plain = rw (
  split_char-append b'@' local (key ++ b'.' ∷ rest) no_at,
  split_char-none b'@' (key ++ b'.' ∷ rest) one_at,
  strip-id (key ++ b'.' ∷ rest) plain.0,
  lower-id (key ++ b'.' ∷ rest) plain.1,
  split_char-append b'.' key rest no_dot,
  domain_labels,
)

-- For an address local@key.rest whose domain has neither "@" nor white space nor a capital, and
-- whose first label has no dot, the key is "individual" if the label is a common provider, and
-- the label itself otherwise; the address counts as personal in the first case only.
get_org_key-address :
    (local key rest : Text)
    → contains b'@' local ≡ false
    → contains b'@' (key ++ b'.' ∷ rest) ≡ false
    → contains b'.' key ≡ false
    → IsPlain (key ++ b'.' ∷ rest)
    → (get_org_key_from_email (local ++ b'@' ∷ (key ++ b'.' ∷ rest))
        ≡ some (if is_common key then individual else key))
      × (is_personal_email (local ++ b'@' ∷ (key ++ b'.' ∷ rest)) ≡ is_common key)
unfolding org_key_of_domain is_personal_domain
get_org_key-address local key rest no_at one_at no_dot plain =
    let (w, ws, shape) = split_char-cons b'.' rest in
    let labels = domain_labels-address local key rest no_at one_at no_dot plain in
    let there = lacks_domain-address local (key ++ b'.' ∷ rest) in
    let key_eq = key_of_labels (local ++ b'@' ∷ (key ++ b'.' ∷ rest)) there labels in
    (
      key_eq.0 ∙ rw (shape, org_key_of_domain) (ground arith),
      key_eq.1 ∙ rw (shape, is_personal_domain),
    )

-- The first label of the address's domain is the word "individual" itself.
abbrev pub IsNamedIndividual : Text → Type 0
IsNamedIndividual email =
    (lacks_domain email ≡ false)
    × ((next : Text) × (rest : List Text) × (domain_labels email ≡ some (individual ∷ next ∷ rest)))

labels_individual :
    (parts : List Text)
    → org_key_of_domain parts ≡ some individual
    → (is_personal_domain parts ≡ true)
      ⊎ ((next : Text) × (rest : List Text) × (parts ≡ individual ∷ next ∷ rest))
unfolding org_key_of_domain is_personal_domain
labels_individual [] h = cc
labels_individual (key ∷ []) h = cc
labels_individual (key ∷ next ∷ rest) h = elim (Bool-cases (is_common key)) [
  | inl common ↦ inl common
  | inr other ↦ inr (next, rest, ground arith)
]

labels_personal :
    (parts : List Text)
    → is_personal_domain parts ≡ true
    → org_key_of_domain parts ≡ some individual
unfolding org_key_of_domain is_personal_domain
labels_personal [] h = cc
labels_personal (key ∷ []) h = cc
labels_personal (key ∷ next ∷ rest) h = rw h

org_key-named :
    (next : Text) (rest : List Text)
    → org_key_of_domain (individual ∷ next ∷ rest) ≡ some individual
unfolding org_key_of_domain is_common
org_key-named next rest = refl

-- Every address that counts as personal has the key "individual", and one other class of
-- addresses has it too: those whose domain's first label is the word "individual".
pub get_org_key-individual_iff :
    (email : Text)
    → (get_org_key_from_email email ≡ some individual)
      ↔ ((is_personal_email email ≡ true) ⊎ IsNamedIndividual email)
unfolding get_org_key_from_email is_personal_email
get_org_key-individual_iff email = elim (Bool-cases (lacks_domain email)) [
  | inl lacks ↦ (λ h. cc, λ h. rw lacks (ground arith))
  | inr there ↦ elim (Option-cases (domain_labels email)) [
    | inl missing ↦ (λ h. rw (there, missing) (ground arith), λ h. ground arith)
    | inr (parts, labels) ↦
        let (to_key, to_personal) = key_of_labels email there labels in
        (
          λ h. elim (labels_individual parts (sym to_key ∙ h)) [
            | inl personal ↦ inl (to_personal ∙ personal)
            | inr (next, rest, named) ↦ inr (there, (next, rest, labels ∙ ap some named))
          ],
          λ h. elim h [
            | inl personal ↦ to_key ∙ labels_personal parts (sym to_personal ∙ personal)
            | inr (_, (next, rest, named)) ↦
                (key_of_labels email there named).0 ∙ org_key-named next rest
          ],
        )
  ]
]
