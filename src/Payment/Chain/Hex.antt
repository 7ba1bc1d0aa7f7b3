-- ===== src/Payment/Chain/Hex.antt =====
-- Hashes are written in hexadecimal: a digest is read back, and is never the empty text.
use Prim.Native.Char.{code}
use text.Mathlib.TextLemmas.{cons-ne-nil}
use pingu_coin.Base.{
  ℕ, zero, suc, ◌+◌, ◌/◌, ◌%◌, ◌<◌, List, [], ◌∷◌, some, ◌≡◌, refl, arith, ltb, if◌then◌else◌, All,
  length, false, ap, Bool-cases, inl, inr,
}
use pingu_coin.Base.Text.{bytes, utf8, ◌is◌, is→eq}
use pingu_coin.Payment.Chain.{nibble, join_byte, hex_decode, hex_digit, hex_encode}

-- The byte of a digit.
abbrev digit_byte : ℕ → ℕ
digit_byte n = if ltb n 10 then 48 + n else 87 + n

utf8-digit : (n : ℕ) → n < 16 → utf8 (code (hex_digit n)) ≡ digit_byte n ∷ []
unfolding utf8 hex_digit
utf8-digit zero h = refl
utf8-digit (suc zero) h = refl
utf8-digit (suc (suc zero)) h = refl
utf8-digit (suc (suc (suc zero))) h = refl
utf8-digit (suc (suc (suc (suc zero)))) h = refl
utf8-digit (suc (suc (suc (suc (suc zero))))) h = refl
utf8-digit (suc (suc (suc (suc (suc (suc zero)))))) h = refl
utf8-digit (suc (suc (suc (suc (suc (suc (suc zero))))))) h = refl
utf8-digit (suc (suc (suc (suc (suc (suc (suc (suc zero)))))))) h = refl
utf8-digit (suc (suc (suc (suc (suc (suc (suc (suc (suc zero))))))))) h = refl
utf8-digit (suc (suc (suc (suc (suc (suc (suc (suc (suc (suc zero)))))))))) h = refl
utf8-digit (suc (suc (suc (suc (suc (suc (suc (suc (suc (suc (suc zero))))))))))) h = refl
utf8-digit (suc (suc (suc (suc (suc (suc (suc (suc (suc (suc (suc (suc zero)))))))))))) h = refl
utf8-digit (suc (suc (suc (suc (suc (suc (suc (suc (suc (suc (suc (suc (suc zero))))))))))))) h =
    refl
utf8-digit (suc (suc (suc (suc (suc (suc (suc (suc (suc (suc (suc (suc (suc (suc zero))))))))))))))
      h =
    refl
utf8-digit
      (suc (suc (suc (suc (suc (suc (suc (suc (suc (suc (suc (suc (suc (suc (suc zero)))))))))))))))
      h =
    refl
utf8-digit
      (suc
        (suc (suc (suc (suc (suc (suc (suc (suc (suc (suc (suc (suc (suc (suc (suc n))))))))))))))))
      h =
    absurd (omega arith)

nibble-digit : (n : ℕ) → n < 16 → nibble (digit_byte n) ≡ some n
unfolding nibble
nibble-digit n h = ground arith

-- What `hex.EncodeToString` writes of bytes, `hex.DecodeString` reads back.
pub hex_decode-encode :
    (bs : List ℕ) → All (λ b. b < 256) bs → hex_decode (bytes (hex_encode bs)) ≡ some bs
unfolding hex_decode bytes hex_encode join_byte
hex_decode-encode [] h = refl
hex_decode-encode (b ∷ bs) h =
    rw (utf8-digit (b / 16) (omega arith), utf8-digit (b % 16) (omega arith))
      (rw
        (
          nibble-digit (b / 16) (omega arith),
          nibble-digit (b % 16) (omega arith),
          hex_decode-encode bs h.1,
        )
        (ap (λ x. some (x ∷ bs)) (omega arith)))

-- A digest that is written out is no empty text.
pub hex_encode-nonempty : (bs : List ℕ) → length bs ≡ 32 → (hex_encode bs is "") ≡ false
unfolding hex_encode
hex_encode-nonempty [] h = absurd (omega arith)
hex_encode-nonempty (b ∷ bs) h = elim (Bool-cases (hex_encode (b ∷ bs) is "")) [
  | inl empty ↦ absurd (cons-ne-nil _ _ (is→eq _ _ empty))
  | inr e ↦ e
]
