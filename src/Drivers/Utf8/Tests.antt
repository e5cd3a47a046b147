-- ===== src/Drivers/Utf8/Tests.antt =====
-- The decoder of kernel/src/drivers/uart/utf8.rs at concrete inputs.
use glenda.Prelude.{ℕ, ◌<◌, ◌≡◌, refl, inr, [], ◌∷◌, arith, update}
use glenda.Drivers.Utf8.{Utf8Decoder, new, push, utf8_expected_len, char_display_width}
use glenda.Drivers.Utf8.Encode.{Started, Pushes, encode}
use glenda.Drivers.Utf8.Decodes.{push-Pushes}
use glenda.Drivers.Utf8.Roundtrip.{push_all, Decodes, push_all-encode}

-- The first two bytes of the euro sign.
abbrev two_bytes : Utf8Decoder
two_bytes = record { buf = update (update (λ i. 0) 0 0xE2) 1 0x82; len = 2; need = 3 }

two_bytes-byte : (i : ℕ) → two_bytes.buf i < 256
two_bytes-byte i = ground arith

two_bytes-Started : Started two_bytes
unfolding utf8_expected_len
two_bytes-Started = record { some_bytes = omega arith; more = omega arith; expected = refl }

euro-width : char_display_width 0x20AC ≡ 1
unfolding char_display_width
euro-width = refl

push-Pushes_example : Pushes (0xE2 ∷ 0x82 ∷ 0xAC ∷ []) (push two_bytes 0xAC)
push-Pushes_example =
    push-Pushes two_bytes 0xAC two_bytes-byte (omega arith) (inr two_bytes-Started)

push_all-encode_example : Decodes 0x20AC (encode 0x20AC) (push_all new (encode 0x20AC))
push_all-encode_example = push_all-encode new refl 0x20AC refl (omega arith)
