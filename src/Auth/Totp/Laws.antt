-- ===== src/Auth/Totp/Laws.antt =====
-- Which codes `verify_totp` accepts.
use server_deck_backend.Base.{
  ℕ, zero, suc, ◌+◌, ◌-◌, ◌/◌, ◌%◌, ◌^◌, ◌≤◌, ◌<◌, ◌≡◌, refl, ap, ◌∙◌, true, false, Option, some,
  nat_eq, text_eq, lt→ltb, List, [], ◌∷◌, length, arith, ◌↔◌, ◌⊎◌, inl, inr, Option-cases,
}
use server_deck_backend.Base.Text.{Text, strip}
use server_deck_backend.Auth.Totp.{
  six_digits, counter_bytes, pack_counter, last_byte, word_at, truncate, code_at, check_window,
  verify_totp, normalize_secret,
}

-- Two numbers below a million have the same six digits only if they are equal.
pub six_digits-injective :
    (m n : ℕ) → m < 1000000 → n < 1000000 → six_digits m ≡ six_digits n → m ≡ n
unfolding six_digits
six_digits-injective m n hm hn e = ground arith

last_byte-cons : (b : ℕ) (bs : List ℕ) → (l : ℕ) × (last_byte (b ∷ bs) ≡ some l)
last_byte-cons b [] = (b, refl)
last_byte-cons b (c ∷ bs) = last_byte-cons c bs

word_at-some : (o : ℕ) (bs : List ℕ) → o + 4 ≤ length bs → (w : ℕ) × (word_at o bs ≡ some w)
word_at-some zero (a ∷ b ∷ c ∷ d ∷ rest) h = (_, refl)
word_at-some zero [] h = absurd (omega arith)
word_at-some zero (a ∷ []) h = absurd (omega arith)
word_at-some zero (a ∷ b ∷ []) h = absurd (omega arith)
word_at-some zero (a ∷ b ∷ c ∷ []) h = absurd (omega arith)
word_at-some (suc o) [] h = absurd (omega arith)
word_at-some (suc o) (b ∷ bs) h = word_at-some o bs (omega arith)

-- A digest of twenty bytes is always long enough for the dynamic truncation.
truncate-total :
    (digest : List ℕ) → length digest ≡ 20 → (v : ℕ) × (truncate digest ≡ some v) × (v < 1000000)
unfolding truncate
truncate-total [] h = absurd (omega arith)
truncate-total (b ∷ bs) h =
    let (l, last) = last_byte-cons b bs in
    let (w, word) = word_at-some (l % 16) (b ∷ bs) (omega arith) in
    (w % 2 ^ 31 % 1000000, rw (last, truncate) (rw (word, truncate)), omega arith)

module _ (hmac_sha1 : List ℕ → List ℕ → List ℕ) (b32decode : Text → Option (List ℕ))
    (digest_size : (key msg : List ℕ) → length (hmac_sha1 key msg) ≡ 20) where
  code_at-total :
      (key : List ℕ) (counter : ℕ)
      → counter < 2 ^ 64
      → (t : Text) × (code_at hmac_sha1 b32decode key counter ≡ some t)
  unfolding code_at pack_counter
  code_at-total key counter h =
      let msg = counter_bytes counter in
      let (v, cut, small) = truncate-total (hmac_sha1 key msg) (digest_size key msg) in
      (six_digits v, ground (arith, lt→ltb counter (2 ^ 64) h, cut))

  -- The code of a counter is the text that was sent, up to white space at its ends.
  abbrev pub Matches : List ℕ → Text → ℕ → Type 0
  Matches key code counter = code_at hmac_sha1 b32decode key counter ≡ some (strip code)

  check_one :
      (key : List ℕ) (code : Text) (rounds n : ℕ)
      → n < 2 ^ 64
      → (check_window hmac_sha1 b32decode key code 1 (suc rounds) (suc n) ≡ true) ↔ (
          Matches key code n
          ⊎ (check_window hmac_sha1 b32decode key code 1 rounds (suc (suc n)) ≡ true))
  unfolding check_window
  check_one key code rounds n h =
      let (t, found) = code_at-total key n h in
      let here : code_at hmac_sha1 b32decode key (suc n - 1) ≡ some t =
        ap (code_at hmac_sha1 b32decode key) (omega arith) ∙ found in
      ground (arith, found, here, text_eq.same_iff t (strip code))

  check_done :
      (key : List ℕ) (code : Text) (step : ℕ)
      → check_window hmac_sha1 b32decode key code 1 0 step ≡ false
  unfolding check_window
  check_done key code step = refl

  check_window_iff :
      (key : List ℕ) (code : Text) (n : ℕ)
      → suc (suc n) < 2 ^ 64
      → (check_window hmac_sha1 b32decode key code 1 3 (suc n) ≡ true)
        ↔ (Matches key code n ⊎ (Matches key code (suc n) ⊎ Matches key code (suc (suc n))))
  check_window_iff key code n bound = ground (
    arith,
    check_one key code 2 n (omega arith),
    check_one key code 1 (suc n) (omega arith),
    check_one key code 0 (suc (suc n)) (omega arith),
    check_done key code (suc (suc (suc (suc n)))),
  )

  -- With digests of twenty bytes, and `suc n` the current step of thirty seconds, a code is
  -- accepted exactly when the secret decodes and the code is that of the current step, of the one
  -- before or of the one after.
  pub verify_totp_iff :
      (now n : ℕ) (secret code : Text)
      → now / 30 ≡ suc n
      → suc (suc n) < 2 ^ 64
      → (verify_totp hmac_sha1 b32decode now secret code 1 ≡ true) ↔ (
          (key : List ℕ) × (b32decode (normalize_secret secret) ≡ some key)
          × (Matches key code n ⊎ (Matches key code (suc n) ⊎ Matches key code (suc (suc n)))))
  unfolding verify_totp
  verify_totp_iff now n secret code middle bound =
      elim (Option-cases (b32decode (normalize_secret secret))) [
        | inl bad ↦ (λ h. cc (rw (bad, verify_totp) at h), λ (key, good, _). cc)
        | inr (key, good) ↦ (
          λ h. (key, good, (check_window_iff key code n bound).0 (ground arith)),
          λ (other, same, one_of). ground (
            arith,
            check_window_iff key code n bound,
            ap (λ k. Matches k code) {x = other} {y = key},
          ),
        )
      ]
