-- ===== src/Drivers/Utf8/Decodes.antt =====
-- What `push` of kernel/src/drivers/uart/utf8.rs gives for the bytes of a char.
use glenda.Prelude.{
  ℕ, ◌≤◌, ◌<◌, ◌≡◌, refl, ◌∙◌, false, [], ◌∷◌, ◌++◌, ltb, ◌==◌, arith, Bool-cases, inl, inr, update,
}
use glenda.Drivers.Utf8.{
  Utf8Decoder, is_continuation, utf8_expected_len, is_char2, is_char3, is_char4, chars, from_utf8,
  slice, only_char, push_next, push,
}
use glenda.Drivers.Utf8.Encode.{
  encode, Started, IsPending, Pushes, first2, first3, first4, encode2, encode3, encode4,
}

module _ (buf : ℕ → ℕ) (b : ℕ) (bytes : (i : ℕ) → buf i < 256) (byte : b < 256) where
  abbrev state : ℕ → ℕ → Utf8Decoder
  state len need = record { buf = buf; len = len; need = need }

  complete2-Pushes :
      utf8_expected_len (buf 0) ≡ 2 → Pushes (buf 0 ∷ b ∷ []) (push_next (state 1 2) b)
  unfolding push_next from_utf8 chars only_char encode
  complete2-Pushes e =
      let (lo, hi) = first2 (buf 0) e in
      let high : ltb (buf 0) 0x80 ≡ false = ground arith in
      elim (Bool-cases (is_char2 (buf 0) b)) [
        | inl y ↦
            rw (Pushes, only_char, high, y)
              (let (s, k) = encode2 (buf 0) b lo hi byte y in (refl, s, k))
        | inr n ↦ rw (Pushes, only_char, high, n) refl
      ]

  complete3-Pushes :
      utf8_expected_len (buf 0) ≡ 3 → Pushes (buf 0 ∷ buf 1 ∷ b ∷ []) (push_next (state 2 3) b)
  unfolding push_next from_utf8 chars only_char encode
  complete3-Pushes e =
      let (lo, hi) = first3 (buf 0) e in
      let high : ltb (buf 0) 0x80 ≡ false = ground arith in
      let no2 : is_char2 (buf 0) (buf 1) ≡ false = ground arith in
      elim (Bool-cases (is_char3 (buf 0) (buf 1) b)) [
        | inl y ↦
            rw (Pushes, only_char, high, no2, y)
              (let (s, k) = encode3 (buf 0) (buf 1) b lo hi (bytes 1) byte y in (refl, s, k))
        | inr n ↦ rw (Pushes, only_char, high, no2, n) refl
      ]

  complete4-Pushes :
      utf8_expected_len (buf 0) ≡ 4
      → Pushes (buf 0 ∷ buf 1 ∷ buf 2 ∷ b ∷ []) (push_next (state 3 4) b)
  unfolding push_next from_utf8 chars only_char encode
  complete4-Pushes e =
      let (lo, hi) = first4 (buf 0) e in
      let high : ltb (buf 0) 0x80 ≡ false = ground arith in
      let no2 : is_char2 (buf 0) (buf 1) ≡ false = ground arith in
      let no3 : is_char3 (buf 0) (buf 1) (buf 2) ≡ false = ground arith in
      elim (Bool-cases (is_char4 (buf 0) (buf 1) (buf 2) b)) [
        | inl y ↦
            rw (Pushes, only_char, high, no2, no3, y)
              (let (s, k) = encode4 (buf 0) (buf 1) (buf 2) b lo hi (bytes 1) (bytes 2) byte y in
                (refl, s, k))
        | inr n ↦ rw (Pushes, only_char, high, no2, no3, n) refl
      ]

  waits-Pushes :
      (need : ℕ)
      → utf8_expected_len (buf 0) ≡ need
      → 2 < need
      → Pushes (buf 0 ∷ b ∷ []) (push_next (state 1 need) b)
  unfolding push_next
  waits-Pushes need e more =
      let n : (2 == need) ≡ false = ground arith in
      rw (Pushes, n) (record { some_bytes = omega arith; more = more; expected = e }, refl)

  waits2-Pushes :
      (need : ℕ)
      → utf8_expected_len (buf 0) ≡ need
      → 3 < need
      → Pushes (buf 0 ∷ buf 1 ∷ b ∷ []) (push_next (state 2 need) b)
  unfolding push_next
  waits2-Pushes need e more =
      let n : (3 == need) ≡ false = ground arith in
      rw (Pushes, n) (record { some_bytes = omega arith; more = more; expected = e }, refl)

  need_bound : utf8_expected_len (buf 0) ≤ 4
  unfolding utf8_expected_len
  need_bound = ground arith

  next-Pushes :
      (len need : ℕ)
      → 0 < len
      → len < need
      → utf8_expected_len (buf 0) ≡ need
      → Pushes (slice buf 0 len ++ b ∷ []) (push_next (state len need) b)
  next-Pushes len need pos more e = elim (Bool-cases (len == 1)) [
    | inl y ↦
        let el : len ≡ 1 = ground arith in
        elim (Bool-cases (need == 2)) [
          | inl z ↦ let en : need ≡ 2 = ground arith in rw (el, en) (complete2-Pushes (e ∙ en))
          | inr z ↦ rw el (waits-Pushes need e (ground arith))
        ]
    | inr n ↦ elim (Bool-cases (len == 2)) [
      | inl y ↦
          let el : len ≡ 2 = ground arith in
          elim (Bool-cases (need == 3)) [
            | inl z ↦ let en : need ≡ 3 = ground arith in rw (el, en) (complete3-Pushes (e ∙ en))
            | inr z ↦ rw el (waits2-Pushes need e (ground arith))
          ]
      | inr n' ↦
          let el : len ≡ 3 = ground (arith, need_bound) in
          let en : need ≡ 4 = ground (arith, need_bound) in rw (el, en) (complete4-Pushes (e ∙ en))
    ]
  ]

first-Pushes :
    (d : Utf8Decoder) (b : ℕ)
    → (utf8_expected_len b == 0) ≡ false
    → Started (record { buf = update d.buf 0 b; len = 1; need = utf8_expected_len b })
unfolding utf8_expected_len
first-Pushes d b n = record { some_bytes = omega arith; more = ground (arith, n); expected = refl }

-- With a buffer of bytes that holds nothing or the start of a char, and for any byte, `push` does not
-- panic. It answers `Pending` with the byte added to the start, or `Completed(c)` with nothing left,
-- where `c` is a char and its encoding is the bytes so far with this one, or `Invalid` with nothing
-- left.
pub push-Pushes :
    (d : Utf8Decoder) (b : ℕ)
    → ((i : ℕ) → d.buf i < 256)
    → b < 256
    → IsPending d
    → Pushes (slice d.buf 0 d.len ++ b ∷ []) (push d b)
unfolding push
push-Pushes d b bytes byte (inl e) = elim (Bool-cases (utf8_expected_len b == 0)) [
  | inl y ↦ rw (Pushes, e, y) refl
  | inr n ↦ rw (Pushes, e, n) (first-Pushes d b n, rw e refl)
]
push-Pushes d b bytes byte (inr s) =
    let some_bytes : (d.len == 0) ≡ false = ground (arith, s.some_bytes) in
    elim (Bool-cases (is_continuation b)) [
      | inr n ↦ rw (Pushes, some_bytes, n) refl
      | inl y ↦
          rw (Pushes, some_bytes, y)
            (next-Pushes d.buf b bytes byte d.len d.need s.some_bytes s.more s.expected)
    ]
