-- ===== src/Auth/Totp.antt =====
-- `verify_totp` of Backend/app/services/totp.py. HMAC-SHA1 and the base32 decoder of Python's
-- standard library are arguments; an exception in the code is `none` here, and makes the code
-- return False.
pub mod Laws
use server_deck_backend.Base.{
  ℕ, zero, suc, ◌+◌, ◌-◌, ◌*◌, ◌/◌, ◌%◌, ◌^◌, ◌≡◌, refl, Bool, true, false, ◌&&◌, Option, none,
  some, ◌==◌, nat_eq, text_eq, ltb, leb, if◌then◌else◌, List, [], ◌∷◌, ◌++◌, length,
}
use server_deck_backend.Base.Text.{Text, codes, strip, part}

-- `s.replace(" ", "")`
unfoldable pub without_spaces : Text → Text
without_spaces [] = []
without_spaces (c ∷ s) = let rest = without_spaces s in if c == 32 then rest else c ∷ rest

-- `s.upper()`
unfoldable pub upper : Text → Text
upper [] = []
upper (c ∷ s) = (if leb b'a' c && leb c b'z' then c - 32 else c) ∷ upper s

abbrev pub repeat : ℕ → ℕ → Text
repeat zero c = []
repeat (suc n) c = c ∷ repeat n c

-- The secret without spaces, in capitals, padded with "=" to a multiple of eight.
unfoldable pub normalize_secret : Text → Text
normalize_secret secret =
    let s : Text = upper (without_spaces (strip secret)) in
    let missing_padding : ℕ = length s % 8 in
    if missing_padding == 0 then s else s ++ repeat (8 - missing_padding) b'='

-- `f"{val:06d}"` of a number below a million.
unfoldable pub six_digits : ℕ → Text
six_digits n =
    (48 + n / 100000 % 10)
    ∷ (48 + n / 10000 % 10)
    ∷ (48 + n / 1000 % 10)
    ∷ (48 + n / 100 % 10)
    ∷ (48 + n / 10 % 10)
    ∷ (48 + n % 10)
    ∷ []

abbrev pub byte_of : ℕ → ℕ → ℕ
byte_of counter k = counter / 256 ^ k % 256

-- The eight bytes of a counter, the highest first.
abbrev pub counter_bytes : ℕ → List ℕ
counter_bytes counter =
    byte_of counter 7
    ∷ byte_of counter 6
    ∷ byte_of counter 5
    ∷ byte_of counter 4
    ∷ byte_of counter 3
    ∷ byte_of counter 2
    ∷ byte_of counter 1
    ∷ byte_of counter 0
    ∷ []

-- `struct.pack(">Q", counter)`, which fails outside 64 bits.
unfoldable pub pack_counter : ℕ → Option (List ℕ)
pack_counter counter = if ltb counter (2 ^ 64) then some (counter_bytes counter) else none

-- `digest[-1]`
abbrev pub last_byte : List ℕ → Option ℕ
last_byte [] = none
last_byte (b ∷ []) = some b
last_byte (b ∷ c ∷ bs) = last_byte (c ∷ bs)

-- `struct.unpack(">I", digest[o:o+4])[0]`, which fails on a shorter slice.
abbrev pub word_at : ℕ → List ℕ → Option ℕ
word_at zero (a ∷ b ∷ c ∷ d ∷ rest) = some (((a * 256 + b) * 256 + c) * 256 + d)
word_at zero bs = none
word_at (suc n) [] = none
word_at (suc n) (b ∷ bs) = word_at n bs

-- The dynamic truncation: `& 0x0f`, `& 0x7fffffff` and `% 1000000`.
unfoldable pub truncate : List ℕ → Option ℕ
truncate digest = elim (last_byte digest) [
  | none ↦ none
  | some b ↦ elim (word_at (b % 16) digest) [ none ↦ none | some w ↦ some (w % 2 ^ 31 % 1000000) ]
]

module _ (hmac_sha1 : List ℕ → List ℕ → List ℕ) (b32decode : Text → Option (List ℕ)) where
  -- The code of one counter.
  unfoldable pub code_at : List ℕ → ℕ → Option Text
  code_at key counter = elim (pack_counter counter) [
    | none ↦ none
    | some msg ↦ elim (truncate (hmac_sha1 key msg)) [
      | none ↦ none
      | some val ↦ some (six_digits val)
    ]
  ]

  -- The loop over the offsets, with `rounds` of them left: the counter is `step - window`. A
  -- negative counter cannot be packed.
  unfoldable pub check_window : List ℕ → Text → ℕ → ℕ → ℕ → Bool
  check_window key code window zero step = false
  check_window key code window (suc rounds) step =
      let later = check_window key code window rounds (suc step) in
      if ltb step window then false else elim (code_at key (step - window)) [
        | none ↦ false
        | some expected ↦ if expected == strip code then true else later
      ]

  unfoldable pub verify_totp : ℕ → Text → Text → ℕ → Bool
  verify_totp now secret code window = elim (b32decode (normalize_secret secret)) [
    | none ↦ false
    | some key ↦ check_window key code window (2 * window + 1) (now / 30)
  ]
