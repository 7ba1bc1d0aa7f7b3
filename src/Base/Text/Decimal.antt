-- ===== src/Base/Text/Decimal.antt =====
-- Numbers in decimal are read back, and end where a slash begins.
use Prim.Native.Nat.{ℕ, zero, suc, ◌+◌, ◌*◌, ◌/◌, ◌%◌, ◌^◌, ◌<◌}
use Prim.Native.Char.{Char, code}
use Prim.Native.String.{String}
use mathlib.Core.Path.{◌≡◌, refl, sym, ap, ◌∙◌}
use mathlib.Core.Logic.{inl, inr}
use mathlib.Core.Bool.{true, false}
use mathlib.Core.Option.{Option, none, some, some-injective}
use native.Mathlib.Omega.{arith}
use text.Mathlib.TextEquality.{Char-path}
use text.Mathlib.TextLemmas.{
  nil-append, cons-append, append_cancel_left, head-eq_of_cons-eq, tail-eq_of_cons-eq,
}
use pingu_coin.Base.Tests.{ltb, ◌==◌, Bool-cases}
use pingu_coin.Base.Text.{
  ◌<>◌, decimal, digit, print_digits, digit_value, read_uint, cut_prefix, has_prefix, is_cut,
}

lt→ltb : (a b : ℕ) → a < b → ltb a b ≡ true
lt→ltb a b h = ground arith

ltb→lt : (a b : ℕ) → ltb a b ≡ true → a < b
ltb→lt a b h = ground arith

front : (c : Char) (rest : String) → (String.◌∷◌ c "" <> rest) ≡ String.◌∷◌ c rest
front c rest = cons-append c "" rest ∙ ap (String.◌∷◌ c) (nil-append rest)

read_char :
    (limit acc : ℕ) (c : Char) (d : ℕ) (rest : String)
    → digit_value (code c) ≡ some d
    → acc * 10 + d < limit
    → read_uint limit acc (String.◌∷◌ c rest) ≡ read_uint limit (acc * 10 + d) rest
unfolding read_uint
read_char limit acc c d rest h fits = rw (h, read_uint) (rw (lt→ltb _ _ fits) refl)

read_digit :
    (limit acc d : ℕ) (rest : String)
    → d < 10
    → acc * 10 + d < limit
    → read_uint limit acc (digit d <> rest) ≡ read_uint limit (acc * 10 + d) rest
unfolding digit digit_value
read_digit limit acc zero rest small fits =
    rw (front "0" rest) (read_char limit acc "0" 0 rest refl fits)
read_digit limit acc (suc zero) rest small fits =
    rw (front "1" rest) (read_char limit acc "1" 1 rest refl fits)
read_digit limit acc (suc (suc zero)) rest small fits =
    rw (front "2" rest) (read_char limit acc "2" 2 rest refl fits)
read_digit limit acc (suc (suc (suc zero))) rest small fits =
    rw (front "3" rest) (read_char limit acc "3" 3 rest refl fits)
read_digit limit acc (suc (suc (suc (suc zero)))) rest small fits =
    rw (front "4" rest) (read_char limit acc "4" 4 rest refl fits)
read_digit limit acc (suc (suc (suc (suc (suc zero))))) rest small fits =
    rw (front "5" rest) (read_char limit acc "5" 5 rest refl fits)
read_digit limit acc (suc (suc (suc (suc (suc (suc zero)))))) rest small fits =
    rw (front "6" rest) (read_char limit acc "6" 6 rest refl fits)
read_digit limit acc (suc (suc (suc (suc (suc (suc (suc zero))))))) rest small fits =
    rw (front "7" rest) (read_char limit acc "7" 7 rest refl fits)
read_digit limit acc (suc (suc (suc (suc (suc (suc (suc (suc zero)))))))) rest small fits =
    rw (front "8" rest) (read_char limit acc "8" 8 rest refl fits)
read_digit limit acc (suc (suc (suc (suc (suc (suc (suc (suc (suc zero))))))))) rest small fits =
    rw (front "9" rest) (read_char limit acc "9" 9 rest refl fits)
read_digit limit acc (suc (suc (suc (suc (suc (suc (suc (suc (suc (suc d)))))))))) rest small fits =
    absurd (omega arith)

-- The numbers below 10 ^ k.
abbrev ten_to : ℕ → ℕ
ten_to zero = 1
ten_to (suc k) = 10 * ten_to k

read-print :
    (limit fuel n : ℕ) (rest : String)
    → n < ten_to fuel
    → n < limit
    → read_uint limit 0 (print_digits fuel n rest) ≡ read_uint limit n rest
unfolding print_digits
read-print limit zero n rest small fits = let none_left : n ≡ 0 = omega arith in rw none_left refl
read-print limit (suc fuel) n rest small fits = elim (Bool-cases (ltb n 10)) [
  | inl last ↦ rw last (
      read_digit limit 0 n rest (ltb→lt n 10 last) (omega arith)
      ∙ ap (λ m. read_uint limit m rest) (start n))
  | inr more ↦ rw more (
      read-print limit fuel (n / 10) (digit (n % 10) <> rest) (omega arith) (omega arith)
      ∙ read_digit limit (n / 10) (n % 10) rest (omega arith) (omega arith)
      ∙ ap (λ m. read_uint limit m rest) (back n))
]
  where
    start : (n : ℕ) → 0 * 10 + n ≡ n
    start n = omega arith

    back : (n : ℕ) → n / 10 * 10 + n % 10 ≡ n
    back n = omega arith

-- No character is a slash.
abbrev pub NoSlash : String → Type 0
NoSlash String.[] = Unit
NoSlash (String.◌∷◌ c s) = ((code c == 47) ≡ false) × NoSlash s

digit-NoSlash : (d : ℕ) (rest : String) → NoSlash rest → NoSlash (digit d <> rest)
unfolding digit
digit-NoSlash zero rest h = rw (front "0" rest) (refl, h)
digit-NoSlash (suc zero) rest h = rw (front "1" rest) (refl, h)
digit-NoSlash (suc (suc zero)) rest h = rw (front "2" rest) (refl, h)
digit-NoSlash (suc (suc (suc zero))) rest h = rw (front "3" rest) (refl, h)
digit-NoSlash (suc (suc (suc (suc zero)))) rest h = rw (front "4" rest) (refl, h)
digit-NoSlash (suc (suc (suc (suc (suc zero))))) rest h = rw (front "5" rest) (refl, h)
digit-NoSlash (suc (suc (suc (suc (suc (suc zero)))))) rest h = rw (front "6" rest) (refl, h)
digit-NoSlash (suc (suc (suc (suc (suc (suc (suc zero))))))) rest h = rw (front "7" rest) (refl, h)
digit-NoSlash (suc (suc (suc (suc (suc (suc (suc (suc zero)))))))) rest h =
    rw (front "8" rest) (refl, h)
digit-NoSlash (suc (suc (suc (suc (suc (suc (suc (suc (suc zero))))))))) rest h =
    rw (front "9" rest) (refl, h)
digit-NoSlash (suc (suc (suc (suc (suc (suc (suc (suc (suc (suc d)))))))))) rest h =
    rw (front "9" rest) (refl, h)

print-NoSlash : (fuel n : ℕ) (rest : String) → NoSlash rest → NoSlash (print_digits fuel n rest)
unfolding print_digits
print-NoSlash zero n rest h = h
print-NoSlash (suc fuel) n rest h = elim (Bool-cases (ltb n 10)) [
  | inl last ↦ rw last (digit-NoSlash n rest h)
  | inr more ↦
      rw more (print-NoSlash fuel (n / 10) (digit (n % 10) <> rest) (digit-NoSlash (n % 10) rest h))
]

pub decimal-NoSlash : (n : ℕ) → NoSlash (decimal n)
unfolding decimal
decimal-NoSlash n = print-NoSlash 20 n "" tt

read-decimal : (limit n : ℕ) → n < ten_to 20 → n < limit → read_uint limit 0 (decimal n) ≡ some n
unfolding decimal read_uint
read-decimal limit n small fits = read-print limit 20 n "" small fits

-- Numbers of 20 digits at most are the same where their texts are.
pub decimal_inj : (m n : ℕ) → m < 10 ^ 20 → n < 10 ^ 20 → decimal m ≡ decimal n → m ≡ n
decimal_inj m n small small' e = some-injective m n (
    sym (read-decimal (10 ^ 20) m small small)
    ∙ ap (read_uint (10 ^ 20) 0) e
    ∙ read-decimal (10 ^ 20) n small' small')

cut_prefix-some : (s p r : String) → cut_prefix s p ≡ some r → s ≡ p <> r
unfolding cut_prefix
cut_prefix-some String.[] String.[] r e = some-injective "" r e ∙ sym (nil-append r)
cut_prefix-some (String.◌∷◌ d s) String.[] r e =
    some-injective (String.◌∷◌ d s) r e ∙ sym (nil-append r)
cut_prefix-some String.[] (String.◌∷◌ c p) r e = absurd (none_some r e)
  where
    none_some : (r : String) → ◌≡◌ {A = Option String} none (some r) → ⊥
    none_some r e = cc
cut_prefix-some (String.◌∷◌ d s) (String.◌∷◌ c p) r e = elim (Bool-cases (code d == code c)) [
  | inl same ↦
      rw (cons-append c p r, ← Char-path d c (ground (arith, same)))
        (ap (String.◌∷◌ d) (cut_prefix-some s p r (rw same at e)))
  | inr other ↦ absurd (none_some r (rw other at e))
]
  where
    none_some : (r : String) → ◌≡◌ {A = Option String} none (some r) → ⊥
    none_some r e = cc

-- What begins with a prefix is the prefix and a rest.
pub has_prefix-split : (s p : String) → has_prefix s p ≡ true → (r : String) × (s ≡ p <> r)
unfolding has_prefix
has_prefix-split s p h = split (cut_prefix s p) refl h
  where
    split : (o : Option String) → cut_prefix s p ≡ o → is_cut o ≡ true → (r : String) × (s ≡ p <> r)
    split none e q = absurd (cc)
    split (some r) e q = (r, cut_prefix-some s p r e)

-- Two texts without slashes are the same where they stand in front of a slash in one text.
pub NoSlash-split :
    (a b x y : String)
    → NoSlash a
    → NoSlash b
    → (a <> ("/" <> x)) ≡ (b <> ("/" <> y))
    → (a ≡ b) × (x ≡ y)
NoSlash-split String.[] String.[] x y h k e =
    (refl, append_cancel_left "/" x y (sym (nil-append ("/" <> x)) ∙ e ∙ nil-append ("/" <> y)))
NoSlash-split String.[] (String.◌∷◌ c b) x y h k e = absurd (slash c (k.0) (first e))
  where
    first : ("" <> ("/" <> x)) ≡ (String.◌∷◌ c b <> ("/" <> y)) → ◌≡◌ {A = Char} "/" c
    first e =
        head-eq_of_cons-eq
          (sym (nil-append ("/" <> x) ∙ front "/" x) ∙ e ∙ cons-append c b ("/" <> y))

    slash : (c : Char) → (code c == 47) ≡ false → ◌≡◌ {A = Char} "/" c → ⊥
    slash c h e = cc (ap (λ d. code d == 47) e, h)
NoSlash-split (String.◌∷◌ c a) String.[] x y h k e = absurd (slash c (h.0) (first (sym e)))
  where
    first : ("" <> ("/" <> y)) ≡ (String.◌∷◌ c a <> ("/" <> x)) → ◌≡◌ {A = Char} "/" c
    first e =
        head-eq_of_cons-eq
          (sym (nil-append ("/" <> y) ∙ front "/" y) ∙ e ∙ cons-append c a ("/" <> x))

    slash : (c : Char) → (code c == 47) ≡ false → ◌≡◌ {A = Char} "/" c → ⊥
    slash c h e = cc (ap (λ d. code d == 47) e, h)
NoSlash-split (String.◌∷◌ c a) (String.◌∷◌ d b) x y h k e =
    let e' = sym (cons-append c a ("/" <> x)) ∙ e ∙ cons-append d b ("/" <> y) in
    let (same, rest) = NoSlash-split a b x y h.1 k.1 (tail-eq_of_cons-eq e') in
    (cc (head-eq_of_cons-eq e', same), rest)
