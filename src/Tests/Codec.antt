-- ===== src/Tests/Codec.antt =====
-- Token packages for the tests: a token spells out its payload and the secret. Each text stands
-- behind its length.
use server_deck_backend.Base.{
  ℕ, zero, suc, ◌≡◌, refl, ap, Bool, true, false, ◌&&◌, ◌||◌, not, Option, none, some, ◌==◌,
  text_eq, if◌then◌else◌, [], ◌∷◌, ◌++◌, length, arith,
}
use server_deck_backend.Base.Text.{Text}
use server_deck_backend.Auth.Env.{Claims, Stamped, is_past, Jose}

abbrev pub take : ℕ → Text → Text
take zero s = []
take (suc n) [] = []
take (suc n) (c ∷ s) = c ∷ take n s

abbrev pub drop : ℕ → Text → Text
drop zero s = s
drop (suc n) [] = []
drop (suc n) (c ∷ s) = drop n s

take-append : (t rest : Text) → take (length t) (t ++ rest) ≡ t
take-append [] rest = refl
take-append (c ∷ t) rest = ap (λ u. c ∷ u) (take-append t rest)

drop-append : (t rest : Text) → drop (length t) (t ++ rest) ≡ rest
drop-append [] rest = refl
drop-append (c ∷ t) rest = drop-append t rest

unfoldable pub put_text : Text → Text → Text
put_text t rest = length t ∷ (t ++ rest)

unfoldable pub get_text : Text → Text × Text
get_text [] = ([], [])
get_text (n ∷ s) = (take n s, drop n s)

get-put_text : (t rest : Text) → get_text (put_text t rest) ≡ (t, rest)
unfolding get_text put_text
get-put_text t rest = λ i. (take-append t rest i, drop-append t rest i)

unfoldable pub put_option : Option Text → Text → Text
put_option none rest = zero ∷ rest
put_option (some t) rest = suc zero ∷ put_text t rest

unfoldable pub get_option : Text → Option Text × Text
get_option [] = (none, [])
get_option (zero ∷ s) = (none, s)
get_option (suc n ∷ s) = let (t, rest) = get_text s in (some t, rest)

get-put_option : (t : Option Text) (rest : Text) → get_option (put_option t rest) ≡ (t, rest)
unfolding get_option put_option
get-put_option none rest = refl
get-put_option (some t) rest = ap (λ (p : Text × Text). (some p.0, p.1)) (get-put_text t rest)

unfoldable pub put_bool : Bool → Text → Text
put_bool false rest = zero ∷ rest
put_bool true rest = suc zero ∷ rest

unfoldable pub get_bool : Text → Bool × Text
get_bool [] = (false, [])
get_bool (zero ∷ s) = (false, s)
get_bool (suc n ∷ s) = (true, s)

get-put_bool : (b : Bool) (rest : Text) → get_bool (put_bool b rest) ≡ (b, rest)
unfolding get_bool put_bool
get-put_bool false rest = refl
get-put_bool true rest = refl

unfoldable pub put_time : Option ℕ → Text
put_time none = []
put_time (some n) = n ∷ []

unfoldable pub get_time : Text → Option ℕ
get_time [] = none
get_time (n ∷ s) = some n

get-put_time : (t : Option ℕ) → get_time (put_time t) ≡ t
unfolding get_time put_time
get-put_time none = refl
get-put_time (some n) = refl

unfoldable pub put_stamped : Stamped → Text
put_stamped p = put_text p.iss (
    put_text p.aud (
      put_option p.claims.sub (
        put_option p.claims.team_id (
          put_option p.claims.email (
            put_option p.claims.tenant_schema (
              put_bool p.claims.is_platform_owner
                (put_bool p.claims.mfa_handshake (put_time p.claims.exp))))))))

unfoldable pub get_stamped : Text → Stamped
get_stamped s =
    let (iss, s1) = get_text s in
    let (aud, s2) = get_text s1 in
    let (sub, s3) = get_option s2 in
    let (team_id, s4) = get_option s3 in
    let (email, s5) = get_option s4 in
    let (tenant_schema, s6) = get_option s5 in
    let (is_platform_owner, s7) = get_bool s6 in
    let (mfa_handshake, s8) = get_bool s7 in
    record {
      claims = record {
        sub = sub;
        team_id = team_id;
        email = email;
        tenant_schema = tenant_schema;
        is_platform_owner = is_platform_owner;
        mfa_handshake = mfa_handshake;
        exp = get_time s8;
      };
      iss = iss;
      aud = aud;
    }

get-put_stamped : (p : Stamped) → get_stamped (put_stamped p) ≡ p
unfolding get_stamped put_stamped
get-put_stamped p = simp (get-put_text, get-put_option, get-put_bool, get-put_time)

unfoldable pub encode : Stamped → Text → Text → Text
encode p secret algorithm = put_text secret (put_text algorithm (put_stamped p))

-- What a decoded payload has to pass.
abbrev pub accept : ℕ → Stamped → Text → Text → Option Claims
accept now p aud iss =
    if is_past p.claims.exp now || not (p.aud == aud) || not (p.iss == iss)
    then none
    else some p.claims

unfoldable pub decode : ℕ → Text → Text → Text → Text → Text → Option Claims
decode now token secret algorithm aud iss =
    let (key, s1) = get_text token in
    let (alg, s2) = get_text s1 in
    if key == secret && alg == algorithm then accept now (get_stamped s2) aud iss else none

pub decode-encode :
    (now : ℕ) (p : Stamped) (secret algorithm aud iss : Text)
    → decode now (encode p secret algorithm) secret algorithm aud iss ≡ accept now p aud iss
unfolding decode encode
decode-encode now p secret algorithm aud iss =
    simp (get-put_text, get-put_stamped)
      (ground (arith, text_eq.same_iff secret secret, text_eq.same_iff algorithm algorithm))

abbrev pub toy_jose : Jose
toy_jose = record { encode = encode; decode = decode; decode-encode = decode-encode }

-- Opening this opens the token package.
unfoldable pub codec : Unit {0}
unfolding encode decode put_stamped get_stamped put_text get_text put_option get_option put_bool
    get_bool put_time get_time
codec = tt
