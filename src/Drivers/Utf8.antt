-- ===== src/Drivers/Utf8.antt =====
-- kernel/src/drivers/uart/utf8.rs: the decoder of the bytes that are typed. A `char` is its code point.
pub mod Encode
pub mod Decodes
pub mod Roundtrip
mod Tests
use glenda.Prelude.{
  ℕ, zero, suc, ◌+◌, ◌-◌, ◌*◌, ◌/◌, ◌%◌, Bool, true, false, not, ◌&&◌, ◌||◌, Option, none, some,
  List, [], ◌∷◌, length, Outcome, ok, panic, ltb, leb, ◌==◌, if◌then◌else◌, update,
}

pub data Utf8PushResult : Type 0 where
  pending : Utf8PushResult
  completed : ℕ → Utf8PushResult
  invalid : Utf8PushResult

pub record Utf8Decoder : Type 0 where
  pub buf : ℕ → ℕ
  pub len : ℕ
  pub need : ℕ

-- `Utf8Decoder::new`.
abbrev pub new : Utf8Decoder
new = record { buf = λ i. 0; len = 0; need = 0 }

abbrev pub clear : Utf8Decoder → Utf8Decoder
clear d = record d { len = 0; need = 0 }

abbrev pub has_pending : Utf8Decoder → Bool
has_pending d = ltb 0 d.len

abbrev pub between : ℕ → ℕ → ℕ → Bool
between lo hi b = leb lo b && leb b hi

unfoldable pub utf8_expected_len : ℕ → ℕ
utf8_expected_len b =
    if between 0xC2 0xDF b
    then 2
    else if between 0xE0 0xEF b
    then 3
    else if between 0xF0 0xF4 b
    then 4
    else 0

-- `(b & 0b1100_0000) == 0b1000_0000`.
abbrev pub is_continuation : ℕ → Bool
is_continuation b = b / 64 % 4 == 2

-- The parts of `core::str::from_utf8`: the bytes of a char after its first, and those of one char. No
-- shorter encoding may do, and no surrogate and nothing above 0x10FFFF is a char.
abbrev pub code2 : ℕ → ℕ → ℕ
code2 a b = a % 32 * 64 + b % 64

abbrev pub code3 : ℕ → ℕ → ℕ → ℕ
code3 a b c = a % 16 * 4096 + b % 64 * 64 + c % 64

abbrev pub code4 : ℕ → ℕ → ℕ → ℕ → ℕ
code4 a b c d = a % 8 * 262144 + b % 64 * 4096 + c % 64 * 64 + d % 64

abbrev pub is_char2 : ℕ → ℕ → Bool
is_char2 a b = between 0xC0 0xDF a && is_continuation b && leb 0x80 (code2 a b)

abbrev pub is_char3 : ℕ → ℕ → ℕ → Bool
is_char3 a b c =
    between 0xE0 0xEF a
    && is_continuation b
    && is_continuation c
    && leb 0x800 (code3 a b c)
    && not (between 0xD800 0xDFFF (code3 a b c))

abbrev pub is_char4 : ℕ → ℕ → ℕ → ℕ → Bool
is_char4 a b c d =
    between 0xF0 0xF7 a
    && is_continuation b
    && is_continuation c
    && is_continuation d
    && between 0x1_0000 0x10_FFFF (code4 a b c d)

-- The chars of a byte string of at most `fuel` bytes, `from_utf8(…)` with `chars()`.
chars : ℕ → List ℕ → Option (List ℕ)
chars zero bytes = if length bytes == 0 then some [] else none
chars (suc fuel) [] = some []
chars (suc fuel) (a ∷ rest) =
    let after : List ℕ → ℕ → Option (List ℕ) =
      λ bytes c. elim (chars fuel bytes) [ none ↦ none | some cs ↦ some (c ∷ cs) ] in
    if ltb a 0x80 then after rest a else elim rest [
      | [] ↦ none
      | b ∷ rest2 ↦ if is_char2 a b then after rest2 (code2 a b) else elim rest2 [
        | [] ↦ none
        | c ∷ rest3 ↦ if is_char3 a b c then after rest3 (code3 a b c) else elim rest3 [
          | [] ↦ none
          | d ∷ rest4 ↦ if is_char4 a b c d then after rest4 (code4 a b c d) else none
        ]
      ]
    ]

unfoldable pub from_utf8 : List ℕ → Option (List ℕ)
unfolding chars
from_utf8 bytes = chars (length bytes) bytes

-- `&self.buf[..n]` from the index `i` on.
abbrev pub slice : (ℕ → ℕ) → ℕ → ℕ → List ℕ
slice buf i zero = []
slice buf i (suc n) = buf i ∷ slice buf (i + 1) n

-- The one char of a byte string; the replacement char where there is none.
unfoldable pub only_char : Option (List ℕ) → Utf8PushResult
only_char none = invalid
only_char (some []) = completed 0xFFFD
only_char (some (c ∷ [])) = completed c
only_char (some (c ∷ d ∷ rest)) = invalid

-- A continuation byte.
unfoldable pub push_next : Utf8Decoder → ℕ → Outcome (Utf8PushResult × Utf8Decoder)
unfolding from_utf8 only_char
push_next d b =
    let buf = if ltb d.len 4 then update d.buf d.len b else d.buf in
    let len = d.len + 1 in
    if leb 256 len
    then panic
    else if len == d.need
    then (if ltb 4 len
        then panic
        else ok (only_char (from_utf8 (slice buf 0 len)), clear (record d { buf = buf })))
    else ok (pending, record d { buf = buf; len = len })

unfoldable pub push : Utf8Decoder → ℕ → Outcome (Utf8PushResult × Utf8Decoder)
unfolding utf8_expected_len push_next
push d b =
    let need = utf8_expected_len b in
    if d.len == 0
    then (if need == 0
        then ok (invalid, d)
        else ok (pending, record { buf = update d.buf 0 b; len = 1; need = need }))
    else if not (is_continuation b)
    then ok (invalid, clear d)
    else push_next d b

-- The ranges of chars that are two columns wide.
abbrev pub ranges_2 : List (ℕ × ℕ)
ranges_2 =
    (0x1100, 0x115F)
    ∷ (0x2329, 0x232A)
    ∷ (0x2E80, 0xA4CF)
    ∷ (0xAC00, 0xD7A3)
    ∷ (0xF900, 0xFAFF)
    ∷ (0xFE10, 0xFE19)
    ∷ (0xFE30, 0xFE6F)
    ∷ (0xFF00, 0xFF60)
    ∷ (0xFFE0, 0xFFE6)
    ∷ (0x1_F300, 0x1_F64F)
    ∷ (0x1_F900, 0x1_F9FF)
    ∷ (0x2_0000, 0x2_FFFD)
    ∷ (0x3_0000, 0x3_FFFD)
    ∷ []

in_ranges : List (ℕ × ℕ) → ℕ → Bool
in_ranges [] u = false
in_ranges ((lo, hi) ∷ rest) u = between lo hi u || in_ranges rest u

unfoldable pub char_display_width : ℕ → ℕ
unfolding in_ranges
char_display_width c = if ltb c 0x80 then 1 else if in_ranges ranges_2 c then 2 else 1
