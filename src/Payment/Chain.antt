-- ===== src/Payment/Chain.antt =====
-- services/payment-api/internal/pointchain/pointchain.go: the hash chain of the point ledgers.
-- `sha256` is crypto/sha256, a parameter.
pub mod Laws
pub mod Hex
use pingu_coin.Base.{
  ℕ, zero, suc, ◌+◌, ◌-◌, ◌*◌, ◌/◌, ◌%◌, ◌^◌, String, List, [], ◌∷◌, ◌++◌, Bool, true, false, not,
  ◌&&◌, ◌||◌, Option, none, some, ◌==◌, leb, if◌then◌else◌, length,
}
use Prim.Native.Char.{Char}
use pingu_coin.Base.Int.{ℤ, pos, to_bits, add64, eqb_ℤ}
use pingu_coin.Base.Text.{◌is◌, bytes}
use pingu_coin.Payment.Model.{PointTransaction}

abbrev pub genesis_hash : String
genesis_hash = "0000000000000000000000000000000000000000000000000000000000000000"

-- The low `k` bytes of a number, the highest first.
unfoldable pub big_endian : ℕ → ℕ → List ℕ
big_endian zero n = []
big_endian (suc k) n = (n / 256 ^ k % 256) ∷ big_endian k n

unfoldable pub write_uint64 : ℕ → List ℕ
unfolding big_endian
write_uint64 n = big_endian 8 n

unfoldable pub write_int64 : ℤ → List ℕ
unfolding big_endian to_bits
write_int64 z = big_endian 8 (to_bits z)

unfoldable pub write_string : String → List ℕ
unfolding big_endian bytes
write_string s = big_endian 4 (length (bytes s)) ++ bytes s

unfoldable pub write_payment : Option ℕ → List ℕ
unfolding write_uint64
write_payment none = 0 ∷ []
write_payment (some id) = 1 ∷ write_uint64 id

-- The bytes that are hashed, up to the previous hash.
unfoldable pub canonical : PointTransaction → List ℕ
unfolding write_uint64 write_int64 write_string write_payment
canonical t =
    bytes "PinguCoin.PointTransaction.v1"
    ++ (write_uint64 t.chain_sequence
        ++ (write_uint64 t.user_id
            ++ (write_int64 t.amount
                ++ (write_string t.kind
                    ++ (write_payment t.payment_id
                        ++ (write_string t.reason ++ write_int64 t.balance_after))))))

-- encoding/hex
nibble : ℕ → Option ℕ
nibble c =
    if leb b'0' c && leb c b'9'
    then some (c - b'0')
    else if leb b'a' c && leb c b'f'
    then some (c - b'a' + 10)
    else if leb b'A' c && leb c b'F'
    then some (c - b'A' + 10)
    else none

join_byte : Option ℕ → Option ℕ → Option (List ℕ) → Option (List ℕ)
join_byte (some h) (some l) (some rest) = some ((16 * h + l) ∷ rest)
join_byte _ _ _ = none

-- `hex.DecodeString`: `none` for an odd length or another character.
unfoldable pub hex_decode : List ℕ → Option (List ℕ)
unfolding nibble join_byte
hex_decode [] = some []
hex_decode (_ ∷ []) = none
hex_decode (h ∷ l ∷ rest) = join_byte (nibble h) (nibble l) (hex_decode rest)

hex_digit : ℕ → Char
hex_digit n =
    if n == 0
    then "0"
    else if n == 1
    then "1"
    else if n == 2
    then "2"
    else if n == 3
    then "3"
    else if n == 4
    then "4"
    else if n == 5
    then "5"
    else if n == 6
    then "6"
    else if n == 7
    then "7"
    else if n == 8
    then "8"
    else if n == 9
    then "9"
    else if n == 10
    then "a"
    else if n == 11
    then "b"
    else if n == 12
    then "c"
    else if n == 13
    then "d"
    else if n == 14
    then "e"
    else "f"

-- `hex.EncodeToString`
unfoldable pub hex_encode : List ℕ → String
unfolding hex_digit
hex_encode [] = ""
hex_encode (b ∷ rest) =
    String.◌∷◌ (hex_digit (b / 16)) (String.◌∷◌ (hex_digit (b % 16)) (hex_encode rest))

-- What `Verify` finds wrong.
pub data ChainFault : Type 0 where
  bad_sequence bad_link bad_balance bad_hash : ChainFault

-- The variables of the loop of `Verify`: `none` is `hasCurrentUser == false`.
pub record Cursor : Type 0 where
  pub user : Option ℕ
  pub expected_sequence : ℕ
  pub previous_hash : String
  pub previous_balance : ℤ

abbrev pub start : Cursor
start = record { user = none; expected_sequence = 0; previous_hash = ""; previous_balance = pos 0 }

abbrev pub at_genesis : ℕ → Cursor
at_genesis u = record {
  user = some u;
  expected_sequence = 1;
  previous_hash = genesis_hash;
  previous_balance = pos 0;
}

abbrev pub is_current : ℕ → Option ℕ → Bool
is_current u none = false
is_current u (some v) = u == v

-- A row of another user begins a chain.
unfoldable pub enter : PointTransaction → Cursor → Cursor
enter t c = if is_current t.user_id c.user then c else at_genesis t.user_id

unfoldable pub advance : PointTransaction → Cursor → Cursor
advance t c = record c {
  expected_sequence = (c.expected_sequence + 1) % 2 ^ 64;
  previous_hash = t.transaction_hash;
  previous_balance = t.balance_after;
}

-- The loop returns at the first fault.
abbrev pub first_fault : Option ChainFault → Option ChainFault → Option ChainFault
first_fault none rest = rest
first_fault (some f) _ = some f

module _ (sha256 : List ℕ → List ℕ) where
  unfoldable pub digest : PointTransaction → Option (List ℕ) → String
  digest t none = ""
  digest t (some previous) =
      if length previous == 32 then hex_encode (sha256 (canonical t ++ previous)) else ""

  -- `Hash`
  unfoldable pub hash : PointTransaction → String
  unfolding digest
  hash t = digest t (hex_decode (bytes t.previous_hash))

  -- The tests of one round of `Verify`.
  unfoldable pub check : PointTransaction → Cursor → Option ChainFault
  check t c =
      if not (t.chain_sequence == c.expected_sequence)
      then some bad_sequence
      else if not (t.previous_hash is c.previous_hash)
      then some bad_link
      else if not (eqb_ℤ t.balance_after (add64 c.previous_balance t.amount))
      then some bad_balance
      else if (hash t is "") || not (t.transaction_hash is hash t)
      then some bad_hash
      else none

  unfoldable pub verify_from : Cursor → List PointTransaction → Option ChainFault
  unfolding check enter advance
  verify_from c [] = none
  verify_from c (t ∷ ts) =
      first_fault (check t (enter t c)) (verify_from (advance t (enter t c)) ts)

  -- `Verify`
  unfoldable pub verify : List PointTransaction → Option ChainFault
  unfolding verify_from
  verify = verify_from start

-- Where the loop of `Verify` stands behind the rows that it has passed.
unfoldable pub cursor_after : Cursor → List PointTransaction → Cursor
unfolding enter advance
cursor_after c [] = c
cursor_after c (t ∷ ts) = cursor_after (advance t (enter t c)) ts
