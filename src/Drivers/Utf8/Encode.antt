-- ===== src/Drivers/Utf8/Encode.antt =====
-- The UTF-8 encoding of a char, which kernel/src/drivers/uart/utf8.rs decodes byte by byte.
use glenda.Prelude.{
  ℕ, ◌+◌, ◌/◌, ◌%◌, ◌≤◌, ◌<◌, ◌≡◌, refl, Bool, true, false, not, ◌&&◌, List, [], ◌∷◌, ltb, leb,
  if◌then◌else◌, arith, ◌⊎◌, Outcome, ok, panic, stuck,
}
use glenda.Drivers.Utf8.{
  Utf8PushResult, pending, completed, invalid, Utf8Decoder, between, utf8_expected_len, is_char2,
  is_char3, is_char4, code2, code3, code4, slice,
}

unfoldable pub encode : ℕ → List ℕ
encode c =
    if ltb c 0x80
    then c ∷ []
    else if ltb c 0x800
    then (0xC0 + c / 64) ∷ (0x80 + c % 64) ∷ []
    else if ltb c 0x1_0000
    then (0xE0 + c / 4096) ∷ (0x80 + c / 64 % 64) ∷ (0x80 + c % 64) ∷ []
    else (0xF0 + c / 262144) ∷ (0x80 + c / 4096 % 64) ∷ (0x80 + c / 64 % 64) ∷ (0x80 + c % 64) ∷ []

-- The code point is a `char`.
abbrev pub is_scalar : ℕ → Bool
is_scalar c = leb c 0x10_FFFF && not (between 0xD800 0xDFFF c)

-- A first byte waits for more.
pub record Started (d : Utf8Decoder) : Type 0 where
  pub some_bytes : 0 < d.len
  pub more : d.len < d.need
  pub expected : utf8_expected_len (d.buf 0) ≡ d.need

abbrev pub IsPending : Utf8Decoder → Type 0
IsPending d = (d.len ≡ 0) ⊎ Started d

-- What a push may do, with the bytes of the char so far.
abbrev pub Pushes : List ℕ → Outcome (Utf8PushResult × Utf8Decoder) → Type 0
Pushes bytes (ok (pending, d)) = Started d × (slice d.buf 0 d.len ≡ bytes)
Pushes bytes (ok (completed c, d)) = (d.len ≡ 0) × (is_scalar c ≡ true) × (encode c ≡ bytes)
Pushes bytes (ok (invalid, d)) = d.len ≡ 0
Pushes bytes panic = ⊥
Pushes bytes stuck = ⊥

-- A first byte by the length that it tells.
pub first2 : (a : ℕ) → utf8_expected_len a ≡ 2 → (0xC2 ≤ a) × (a ≤ 0xDF)
unfolding utf8_expected_len
first2 a e = ground arith

pub first3 : (a : ℕ) → utf8_expected_len a ≡ 3 → (0xE0 ≤ a) × (a ≤ 0xEF)
unfolding utf8_expected_len
first3 a e = ground arith

pub first4 : (a : ℕ) → utf8_expected_len a ≡ 4 → (0xF0 ≤ a) × (a ≤ 0xF4)
unfolding utf8_expected_len
first4 a e = ground arith

-- The bytes of a char give it back.
pub encode2 :
    (a b : ℕ)
    → 0xC2 ≤ a
    → a ≤ 0xDF
    → b < 256
    → is_char2 a b ≡ true
    → (is_scalar (code2 a b) ≡ true) × (encode (code2 a b) ≡ a ∷ b ∷ [])
unfolding encode
encode2 a b lo hi byte y =
    let low : ltb (code2 a b) 0x80 ≡ false = ground arith in
    let high : ltb (code2 a b) 0x800 ≡ true = ground arith in
    let e1 : 0xC0 + code2 a b / 64 ≡ a = ground arith in
    let e2 : 0x80 + code2 a b % 64 ≡ b = ground arith in (ground arith, rw (low, high, e1, e2) refl)

pub encode3 :
    (a b c : ℕ)
    → 0xE0 ≤ a
    → a ≤ 0xEF
    → b < 256
    → c < 256
    → is_char3 a b c ≡ true
    → (is_scalar (code3 a b c) ≡ true) × (encode (code3 a b c) ≡ a ∷ b ∷ c ∷ [])
unfolding encode
encode3 a b c lo hi byte byte' y =
    let low1 : ltb (code3 a b c) 0x80 ≡ false = ground arith in
    let low : ltb (code3 a b c) 0x800 ≡ false = ground arith in
    let high : ltb (code3 a b c) 0x1_0000 ≡ true = ground arith in
    let e1 : 0xE0 + code3 a b c / 4096 ≡ a = ground arith in
    let e2 : 0x80 + code3 a b c / 64 % 64 ≡ b = ground arith in
    let e3 : 0x80 + code3 a b c % 64 ≡ c = ground arith in
    (ground arith, rw (low1, low, high, e1, e2, e3) refl)

pub encode4 :
    (a b c d : ℕ)
    → 0xF0 ≤ a
    → a ≤ 0xF4
    → b < 256
    → c < 256
    → d < 256
    → is_char4 a b c d ≡ true
    → (is_scalar (code4 a b c d) ≡ true) × (encode (code4 a b c d) ≡ a ∷ b ∷ c ∷ d ∷ [])
unfolding encode
encode4 a b c d lo hi byte byte' byte'' y =
    let low1 : ltb (code4 a b c d) 0x80 ≡ false = ground arith in
    let low2 : ltb (code4 a b c d) 0x800 ≡ false = ground arith in
    let low : ltb (code4 a b c d) 0x1_0000 ≡ false = ground arith in
    let e1 : 0xF0 + code4 a b c d / 262144 ≡ a = ground arith in
    let e2 : 0x80 + code4 a b c d / 4096 % 64 ≡ b = ground arith in
    let e3 : 0x80 + code4 a b c d / 64 % 64 ≡ c = ground arith in
    let e4 : 0x80 + code4 a b c d % 64 ≡ d = ground arith in
    (ground arith, rw (low1, low2, low, e1, e2, e3, e4) refl)
