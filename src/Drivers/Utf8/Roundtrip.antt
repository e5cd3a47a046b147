-- ===== src/Drivers/Utf8/Roundtrip.antt =====
-- The bytes of an encoded char through the decoder of kernel/src/drivers/uart/utf8.rs.
use glenda.Prelude.{
  ℕ, ◌+◌, ◌/◌, ◌%◌, ◌≤◌, ◌≡◌, refl, true, false, List, [], ◌∷◌, ltb, leb, arith, Bool-cases, inl,
  inr, Outcome, ok, panic, stuck, ◌>>=◌,
}
use glenda.Drivers.Utf8.{
  Utf8PushResult, pending, completed, Utf8Decoder, between, is_continuation, utf8_expected_len,
  code2, code3, code4, chars, from_utf8, only_char, push_next, push,
}
use glenda.Drivers.Utf8.Encode.{encode, is_scalar}

-- The answers to some bytes, one after the other.
unfoldable pub push_all : Utf8Decoder → List ℕ → Outcome (List Utf8PushResult × Utf8Decoder)
push_all d [] = ok ([], d)
push_all d (b ∷ rest) = push d b >>= λ r. push_all r.1 rest >>= λ s. ok (r.0 ∷ s.0, s.1)

-- `Pending` for all bytes but the last, which completes the char.
abbrev pub answers : ℕ → List ℕ → List Utf8PushResult
answers c [] = []
answers c (b ∷ []) = completed c ∷ []
answers c (b ∷ b' ∷ rest) = pending ∷ answers c (b' ∷ rest)

abbrev pub Decodes : ℕ → List ℕ → Outcome (List Utf8PushResult × Utf8Decoder) → Type 0
Decodes c bytes (ok (rs, d)) = (rs ≡ answers c bytes) × (d.len ≡ 0)
Decodes c bytes panic = ⊥
Decodes c bytes stuck = ⊥

module _ (d : Utf8Decoder) (empty : d.len ≡ 0) where
  decodes2 :
      (a b c : ℕ)
      → 0xC2 ≤ a
      → a ≤ 0xDF
      → is_continuation b ≡ true
      → leb 0x80 (code2 a b) ≡ true
      → code2 a b ≡ c
      → Decodes c (a ∷ b ∷ []) (push_all d (a ∷ b ∷ []))
  unfolding push_all push push_next from_utf8 chars only_char utf8_expected_len
  decodes2 a b c lo hi cb least code =
      let first : utf8_expected_len a ≡ 2 = ground arith in
      let high : ltb a 0x80 ≡ false = ground arith in
      let lead : between 0xC0 0xDF a ≡ true = ground arith in
      rw (Decodes, push_all, push, empty, first, cb, high, lead, least, code) (refl, refl)

  decodes3 :
      (a b c x : ℕ)
      → 0xE0 ≤ a
      → a ≤ 0xEF
      → is_continuation b ≡ true
      → is_continuation c ≡ true
      → leb 0x800 (code3 a b c) ≡ true
      → between 0xD800 0xDFFF (code3 a b c) ≡ false
      → code3 a b c ≡ x
      → Decodes x (a ∷ b ∷ c ∷ []) (push_all d (a ∷ b ∷ c ∷ []))
  unfolding push_all push push_next from_utf8 chars only_char utf8_expected_len
  decodes3 a b c x lo hi cb cont_c least surrogate code =
      let first : utf8_expected_len a ≡ 3 = ground arith in
      let high : ltb a 0x80 ≡ false = ground arith in
      let no2 : between 0xC0 0xDF a ≡ false = ground arith in
      let lead : between 0xE0 0xEF a ≡ true = ground arith in
      rw
        (Decodes, push_all, push, empty, first, cb, cont_c, high, no2, lead, least, surrogate, code)
        (rw cb (refl, refl))

  decodes4 :
      (a b c e x : ℕ)
      → 0xF0 ≤ a
      → a ≤ 0xF4
      → is_continuation b ≡ true
      → is_continuation c ≡ true
      → is_continuation e ≡ true
      → between 0x1_0000 0x10_FFFF (code4 a b c e) ≡ true
      → code4 a b c e ≡ x
      → Decodes x (a ∷ b ∷ c ∷ e ∷ []) (push_all d (a ∷ b ∷ c ∷ e ∷ []))
  unfolding push_all push push_next from_utf8 chars only_char utf8_expected_len
  decodes4 a b c e x lo hi cb cont_c ce range code =
      let first : utf8_expected_len a ≡ 4 = ground arith in
      let high : ltb a 0x80 ≡ false = ground arith in
      let no2 : between 0xC0 0xDF a ≡ false = ground arith in
      let no3 : between 0xE0 0xEF a ≡ false = ground arith in
      let lead : between 0xF0 0xF7 a ≡ true = ground arith in
      rw (Decodes, push_all, push, empty, first, cb, cont_c, ce, high, no2, no3, lead, range, code)
        (rw (cb, cont_c) (refl, refl))

  -- For an empty decoder and every char that is not ASCII, the bytes of the char's encoding, pushed
  -- one after the other, are all answered by `Pending`, but the last, which is answered by
  -- `Completed` with this char, and the decoder is empty again. None of the pushes panics.
  pub push_all-encode :
      (c : ℕ) → is_scalar c ≡ true → 0x80 ≤ c → Decodes c (encode c) (push_all d (encode c))
  unfolding encode
  push_all-encode c scalar high =
      let not1 : ltb c 0x80 ≡ false = ground arith in
      elim (Bool-cases (ltb c 0x800)) [
        | inl y ↦
            rw (not1, y)
              (decodes2 (0xC0 + c / 64) (0x80 + c % 64) c (ground arith) (ground arith)
                (ground arith) (ground arith) (ground arith))
        | inr n ↦ elim (Bool-cases (ltb c 0x1_0000)) [
          | inl y ↦
              rw (not1, n, y)
                (decodes3 (0xE0 + c / 4096) (0x80 + c / 64 % 64) (0x80 + c % 64) c (ground arith)
                  (ground arith) (ground arith) (ground arith) (ground arith) (ground arith)
                  (ground arith))
          | inr n' ↦
              rw (not1, n, n')
                (decodes4 (0xF0 + c / 262144) (0x80 + c / 4096 % 64) (0x80 + c / 64 % 64)
                  (0x80 + c % 64) c (ground arith) (ground arith) (ground arith) (ground arith)
                  (ground arith) (ground arith) (ground arith))
        ]
      ]
