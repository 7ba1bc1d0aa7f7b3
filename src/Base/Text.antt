-- ===== src/Base/Text.antt =====
-- Go strings: comparison, the parts of `strings` and `fmt` that the services use, and bytes.
pub mod Decimal
use Prim.Native.Nat.{ℕ, zero, suc, ◌+◌, ◌-◌, ◌*◌, ◌/◌, ◌%◌, ◌^◌}
use Prim.Native.Char.{code}
use Prim.Native.String.{String, ◌++◌}
use mathlib.Core.Path.{◌≡◌, refl}
use mathlib.Core.Bool.{Bool, true, false, ◌&&◌, ◌||◌}
use mathlib.Core.List.{List, [], ◌∷◌}
use mathlib.Core.Option.{Option, none, some}
use mathlib.Core.List
use text.Mathlib.Text.{◌==◌ as str_eq}
use text.Mathlib.TextEquality.{eq_iff}
use text.Mathlib.TextLemmas.{nil-append, cons-append}
use native.Mathlib.Omega.{arith}
use pingu_coin.Base.Tests.{leb, ltb, ◌==◌, if◌then◌else◌, Bool-cases}
use mathlib.Core.Logic.{inl, inr}

-- `s == t` on strings.
infix 50 ◌is◌
abbrev pub ◌is◌ : String → String → Bool
s is t = str_eq s t

pub is→eq : (s t : String) → (s is t) ≡ true → s ≡ t
is→eq s t h = (eq_iff s t).0 h

pub eq→is : (s t : String) → s ≡ t → (s is t) ≡ true
eq→is s t h = (eq_iff s t).1 h

pub is_refl : (s : String) → (s is s) ≡ true
is_refl s = (eq_iff s s).1 refl

pub is_sym : (s t : String) → (s is t) ≡ (t is s)
is_sym s t = ground (arith, eq_iff s t, eq_iff t s)

infixl 65 ◌<>◌
abbrev pub ◌<>◌ : String → String → String
s <> t = s ++ t

-- `unicode.IsSpace`
is_space : ℕ → Bool
is_space c =
    (leb 9 c && leb c 13)
    || c == 32
    || c == 0x85
    || c == 0xA0
    || c == 0x1680
    || (leb 0x2000 c && leb c 0x200a)
    || c == 0x2028
    || c == 0x2029
    || c == 0x202f
    || c == 0x205f
    || c == 0x3000

trim_left : String → String
unfolding is_space
trim_left String.[] = ""
trim_left (String.◌∷◌ c s) =
    let rest = trim_left s in if is_space (code c) then rest else String.◌∷◌ c s

trim_right : String → String
unfolding is_space
trim_right String.[] = ""
trim_right (String.◌∷◌ c s) =
    let rest = trim_right s in if is_space (code c) && (rest is "") then "" else String.◌∷◌ c rest

-- `strings.TrimSpace`
unfoldable pub trim_space : String → String
unfolding trim_left trim_right
trim_space s = trim_right (trim_left s)

-- `strings.TrimSuffix`
unfoldable pub trim_suffix : String → String → String
trim_suffix String.[] suffix = ""
trim_suffix (String.◌∷◌ c s) suffix =
    let rest = trim_suffix s suffix in if String.◌∷◌ c s is suffix then "" else String.◌∷◌ c rest

digit : ℕ → String
digit zero = "0"
digit (suc zero) = "1"
digit (suc (suc zero)) = "2"
digit (suc (suc (suc zero))) = "3"
digit (suc (suc (suc (suc zero)))) = "4"
digit (suc (suc (suc (suc (suc zero))))) = "5"
digit (suc (suc (suc (suc (suc (suc zero)))))) = "6"
digit (suc (suc (suc (suc (suc (suc (suc zero))))))) = "7"
digit (suc (suc (suc (suc (suc (suc (suc (suc zero)))))))) = "8"
digit _ = "9"

-- The decimal digits of a number below 10 ^ fuel, in front of `rest`.
print_digits : ℕ → ℕ → String → String
unfolding digit
print_digits zero n rest = rest
print_digits (suc fuel) n rest =
    let more = print_digits fuel (n / 10) (digit (n % 10) <> rest) in
    if ltb n 10 then digit n <> rest else more

-- `%d` of a `uint`: 64 bits have at most 20 digits.
unfoldable pub decimal : ℕ → String
unfolding print_digits
decimal n = print_digits 20 n ""

-- The bytes of one code point.
unfoldable pub utf8 : ℕ → List ℕ
utf8 c =
    if ltb c 0x80
    then c ∷ []
    else if ltb c 0x800
    then (0xC0 + c / 64) ∷ (0x80 + c % 64) ∷ []
    else if ltb c 0x10000
    then (0xE0 + c / 4096) ∷ (0x80 + c / 64 % 64) ∷ (0x80 + c % 64) ∷ []
    else (0xF0 + c / 262144) ∷ (0x80 + c / 4096 % 64) ∷ (0x80 + c / 64 % 64) ∷ (0x80 + c % 64) ∷ []

-- `[]byte(s)`
unfoldable pub bytes : String → List ℕ
unfolding utf8
bytes String.[] = []
bytes (String.◌∷◌ c s) = List.◌++◌ (utf8 (code c)) (bytes s)

digit_value : ℕ → Option ℕ
digit_value c = if leb b'0' c && leb c b'9' then some (c - 48) else none

-- The digits of a number of so many bits, behind the value of those read; a number that does not
-- fit is refused at its first digit too many.
read_uint : ℕ → ℕ → String → Option ℕ
unfolding digit_value
read_uint limit n String.[] = some n
read_uint limit n (String.◌∷◌ c s) = elim (digit_value (code c)) [
  | none ↦ none
  | some d ↦
      (let rest = read_uint limit (n * 10 + d) s in if ltb (n * 10 + d) limit then rest else none)
]

-- `strconv.ParseUint(s, 10, bits)`
unfoldable pub parse_uint : ℕ → String → Option ℕ
unfolding read_uint
parse_uint bits s = if s is "" then none else read_uint (2 ^ bits) 0 s

trim_right_idem : (s : String) → trim_right (trim_right s) ≡ trim_right s
unfolding trim_right
trim_right_idem String.[] = refl
trim_right_idem (String.◌∷◌ c s) = elim (Bool-cases (is_space (code c) && (trim_right s is ""))) [
  | inl blank ↦ rw blank refl
  | inr kept ↦ rw (kept, trim_right_idem s, kept) refl
]

trim_left-trim_right :
    (s : String) → trim_left (trim_right (trim_left s)) ≡ trim_right (trim_left s)
unfolding trim_left trim_right
trim_left-trim_right String.[] = refl
trim_left-trim_right (String.◌∷◌ c s) = elim (Bool-cases (is_space (code c))) [
  | inl blank ↦ rw blank (trim_left-trim_right s)
  | inr kept ↦ rw (kept, kept, kept) refl
]

-- What is trimmed has no more to trim.
pub trim_space_idem : (s : String) → trim_space (trim_space s) ≡ trim_space s
unfolding trim_space
trim_space_idem s = rw (trim_left-trim_right s) (trim_right_idem (trim_left s))

-- `strings.CutPrefix`
unfoldable pub cut_prefix : String → String → Option String
cut_prefix s String.[] = some s
cut_prefix String.[] (String.◌∷◌ c p) = none
cut_prefix (String.◌∷◌ d s) (String.◌∷◌ c p) =
    let rest = cut_prefix s p in if code d == code c then rest else none

abbrev is_cut : Option String → Bool
is_cut none = false
is_cut (some _) = true

-- `strings.HasPrefix`
unfoldable pub has_prefix : String → String → Bool
unfolding cut_prefix
has_prefix s p = is_cut (cut_prefix s p)

abbrev cut_or : String → Option String → String
cut_or s none = s
cut_or s (some rest) = rest

-- `strings.TrimPrefix`
unfoldable pub trim_prefix : String → String → String
unfolding cut_prefix
trim_prefix s p = cut_or s (cut_prefix s p)

-- `strings.HasSuffix`
unfoldable pub has_suffix : String → String → Bool
has_suffix String.[] t = "" is t
has_suffix (String.◌∷◌ c s) t = (String.◌∷◌ c s is t) || has_suffix s t

abbrev cut_more : Option String → String → Option String
cut_more none b = none
cut_more (some rest) b = cut_prefix rest b

cut_prefix-append : (s a b : String) → cut_prefix s (a <> b) ≡ cut_more (cut_prefix s a) b
unfolding cut_prefix
cut_prefix-append String.[] String.[] b = rw (nil-append b) refl
cut_prefix-append (String.◌∷◌ d s) String.[] b = rw (nil-append b) refl
cut_prefix-append String.[] (String.◌∷◌ c a) b = rw (cons-append c a b) refl
cut_prefix-append (String.◌∷◌ d s) (String.◌∷◌ c a) b =
    rw (cons-append c a b) (elim (Bool-cases (code d == code c)) [
      | inl same ↦ rw same (cut_prefix-append s a b)
      | inr other ↦ rw other refl
    ])

-- What follows the first part of a prefix begins with the second.
pub has_prefix-trim_prefix :
    (s a b : String) → has_prefix s (a <> b) ≡ true → has_prefix (trim_prefix s a) b ≡ true
unfolding has_prefix trim_prefix
has_prefix-trim_prefix s a b h = rest (cut_prefix s a) (rw (cut_prefix-append s a b) at h)
  where
    rest :
        (o : Option String)
        → is_cut (cut_more o b) ≡ true
        → is_cut (cut_prefix (cut_or s o) b) ≡ true
    rest none e = cc
    rest (some r) e = e
