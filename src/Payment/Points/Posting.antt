-- ===== src/Payment/Points/Posting.antt =====
-- A row that `Adjust` posts fits the end of its user's ledger.
use mathlib.Core.Bool.{true≢false}
use pingu_coin.Base.{
  ℕ, ◌+◌, ◌^◌, ◌<◌, String, List, [], ◌∷◌, ◌++◌, false, Option, none, some, ◌≡◌, ◌∙◌, sym, refl,
  ◌==◌, ==_refl, arith, All, Bool-cases, inl, inr, length,
}
use pingu_coin.Base.Int.{ℤ, add64}
use pingu_coin.Base.Text.{◌is◌, bytes, is_refl}
use pingu_coin.Payment.Model.{PointTransaction}
use pingu_coin.Payment.Chain.{
  verify_from, hash, digest, canonical, advance, Cursor, at_genesis, enter, check, cursor_after,
  genesis_hash, hex_decode,
}
use pingu_coin.Payment.Chain.Hex.{hex_decode-encode, hex_encode-nonempty}
use pingu_coin.Payment.Chain.Laws.{OfUser, Fits, check→Fits, both_none, enter-same, end_or}
use pingu_coin.Payment.Points.{latest_from, draft, place, seal}

-- What `crypto/sha256` documents of a digest: 32 bytes.
pub record IsDigest (sha256 : List ℕ → List ℕ) : Type 0 where
  pub sized : (bs : List ℕ) → length (sha256 bs) ≡ 32
  pub bytewise : (bs : List ℕ) → All (λ b. b < 256) (sha256 bs)

module _ (sha256 : List ℕ → List ℕ) (d : IsDigest sha256) where
  -- A hash that can be linked to: it decodes to 32 bytes.
  abbrev pub Linkable : String → Type 0
  Linkable h = (p : List ℕ) × (hex_decode (bytes h) ≡ some p) × (length p ≡ 32)

  digest-Linkable :
      (t : PointTransaction) (o : Option (List ℕ))
      → (digest sha256 t o is "") ≡ false
      → Linkable (digest sha256 t o)
  unfolding digest
  digest-Linkable t none h = absurd (true≢false (sym (is_refl "") ∙ h))
  digest-Linkable t (some p) h = elim (Bool-cases (length p == 32)) [
    | inl e ↦
        let bs = sha256 (canonical t ++ p) in
        rw e (bs, hex_decode-encode bs (d.bytewise _), d.sized _)
    | inr e ↦ absurd (true≢false (sym (is_refl "") ∙ rw e at h))
  ]

  hash-Linkable : (t : PointTransaction) → (hash sha256 t is "") ≡ false → Linkable (hash sha256 t)
  unfolding hash
  hash-Linkable t h = digest-Linkable t (hex_decode (bytes t.previous_hash)) h

  -- What can be linked to gives a hash that is not empty.
  Linkable-hash : (t : PointTransaction) → Linkable t.previous_hash → (hash sha256 t is "") ≡ false
  unfolding hash digest
  Linkable-hash t (p, decoded, sized) =
      rw (decoded, sized) (hex_encode-nonempty (sha256 (canonical t ++ p)) (d.sized _))

  pub end-Linkable :
      (u : ℕ) (c : Cursor) (ts : List PointTransaction)
      → c.user ≡ some u
      → All (OfUser u) ts
      → verify_from sha256 c ts ≡ none
      → Linkable c.previous_hash
      → Linkable (cursor_after c ts).previous_hash
  unfolding verify_from cursor_after advance
  end-Linkable u c [] e own h start = start
  end-Linkable u c (t ∷ ts) e own h start =
      let stays = enter-same u t c e own.0 in
      let (passed, rest) = both_none (check sha256 t (enter t c)) _ h in
      let fits = check→Fits sha256 t c (rw stays at passed) in
      rw (stays, cursor_after)
        (end-Linkable u (advance t c) ts e own.1 (rw stays at rest)
          (rw fits.hashed (hash-Linkable t fits.hashable)))

  pub genesis-Linkable : Linkable genesis_hash
  unfolding hex_decode bytes
  genesis-Linkable = (_, refl, refl)

-- The account balance that `VerifyChain` compares is the one where the loop of `Verify` ends.
pub latest-end :
    (u : ℕ) (c : Cursor) (ts : List PointTransaction)
    → c.user ≡ some u
    → All (OfUser u) ts
    → latest_from u c.previous_balance ts ≡ (cursor_after c ts).previous_balance
unfolding latest_from cursor_after advance
latest-end u c [] e own = refl
latest-end u c (t ∷ ts) e own =
    rw (enter-same u t c e own.0, own.0, ==_refl u, cursor_after, advance)
      (latest-end u (advance t c) ts e own.1)

-- The sequence number that the loop expects counts the rows.
pub counted :
    (u : ℕ) (c : Cursor) (ts : List PointTransaction)
    → c.user ≡ some u
    → All (OfUser u) ts
    → c.expected_sequence + length ts < 2 ^ 64
    → (cursor_after c ts).expected_sequence ≡ c.expected_sequence + length ts
unfolding cursor_after advance
counted u c [] e own room = omega arith
counted u c (t ∷ ts) e own room =
    rw (enter-same u t c e own.0, cursor_after)
      (counted u (advance t c) ts e own.1 (omega arith) ∙ omega arith)

module _ (sha256 : List ℕ → List ℕ) (d : IsDigest sha256) where
  -- The row as it is stored.
  abbrev pub posted :
      ℕ → ℕ → ℤ → String → String → Option ℕ → ℤ → Option PointTransaction → PointTransaction
  posted id user amount kind reason payment balance previous =
      record (seal sha256 (place (draft user amount kind reason payment balance) previous)) {
        id = id;
      }

  -- The row that is posted behind `previous` passes the tests of `Verify` there.
  pub posted-Fits :
      (id user : ℕ) (amount : ℤ) (kind reason : String) (payment : Option ℕ) (balance : ℤ)
      (previous : Option PointTransaction)
      → let c = end_or user (at_genesis user) previous in
        balance ≡ add64 c.previous_balance amount
        → Linkable sha256 d c.previous_hash
        → Fits sha256 (posted id user amount kind reason payment balance previous) c
  unfolding place seal hash digest canonical
  posted-Fits id user amount kind reason payment balance none e l = record {
    sequence = refl;
    link = refl;
    balance = e;
    hashed = refl;
    hashable = Linkable-hash sha256 d (posted id user amount kind reason payment balance none) l;
  }
  posted-Fits id user amount kind reason payment balance (some p) e l = record {
    sequence = refl;
    link = refl;
    balance = e;
    hashed = refl;
    hashable =
        Linkable-hash sha256 d (posted id user amount kind reason payment balance (some p)) l;
  }
