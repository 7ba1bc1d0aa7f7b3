-- ===== src/Payment/Chain/Laws.antt =====
-- What `Verify` accepts: a ledger grows by rows that fit its end, and its last balance is the sum.
use pingu_coin.Base.{
  ℕ, ◌+◌, ◌%◌, ◌^◌, ◌≤◌, ◌<◌, List, [], ◌∷◌, ◌++◌, false, Option, none, some, ◌≡◌, refl, ◌∙◌,
  ==_refl, arith, All, last?, length,
}
use pingu_coin.Base.Int.{ℤ, add64, eq→eqb_ℤ, eqb_ℤ→eq}
use pingu_coin.Base.Text.{◌is◌, is→eq, eq→is}
use pingu_coin.Payment.Model.{PointTransaction}
use pingu_coin.Payment.Chain.{
  ChainFault, first_fault, Cursor, at_genesis, enter, advance, hash, check, verify_from, verify,
  cursor_after,
}

abbrev pub OfUser : ℕ → PointTransaction → Type 0
OfUser u t = t.user_id ≡ u

-- The amounts of a ledger, added up in 64 bits.
unfoldable pub sum_from : ℤ → List PointTransaction → ℤ
sum_from z [] = z
sum_from z (t ∷ ts) = sum_from (add64 z t.amount) ts

first_fault-none : (o : Option ChainFault) → first_fault o none ≡ o
first_fault-none none = refl
first_fault-none (some f) = refl

pub both_none : (o p : Option ChainFault) → first_fault o p ≡ none → (o ≡ none) × (p ≡ none)
both_none o p h = ground arith

pub enter-same :
    (u : ℕ) (t : PointTransaction) (c : Cursor) → c.user ≡ some u → t.user_id ≡ u → enter t c ≡ c
unfolding enter
enter-same u t c e own = rw (e, own, ==_refl u) refl

module _ (sha256 : List ℕ → List ℕ) where
  -- Behind rows that pass the loop of `Verify`, one more row gives the fault of that row where the
  -- loop then stands, or none.
  pub verify_from-append :
      (c : Cursor) (ts : List PointTransaction) (t : PointTransaction)
      → verify_from sha256 c ts ≡ none
      → verify_from sha256 c (ts ++ t ∷ []) ≡ check sha256 t (enter t (cursor_after c ts))
  unfolding verify_from cursor_after
  verify_from-append c [] t h = first_fault-none (check sha256 t (enter t c))
  verify_from-append c (x ∷ ts) t h =
      let (fits, rest) = both_none (check sha256 x (enter x c)) _ h in
      rw fits (verify_from-append (advance x (enter x c)) ts t rest)

  -- What a row that passed the tests satisfies.
  pub record Fits (t : PointTransaction) (c : Cursor) : Type 0 where
    pub sequence : t.chain_sequence ≡ c.expected_sequence
    pub link : t.previous_hash ≡ c.previous_hash
    pub balance : t.balance_after ≡ add64 c.previous_balance t.amount
    pub hashed : t.transaction_hash ≡ hash sha256 t
    pub hashable : (hash sha256 t is "") ≡ false

  pub check→Fits : (t : PointTransaction) (c : Cursor) → check sha256 t c ≡ none → Fits t c
  unfolding check
  check→Fits t c h = ground (
    arith,
    eqb_ℤ→eq t.balance_after (add64 c.previous_balance t.amount),
    is→eq t.previous_hash c.previous_hash,
    is→eq t.transaction_hash (hash sha256 t),
  )

  pub Fits→check : (t : PointTransaction) (c : Cursor) → Fits t c → check sha256 t c ≡ none
  unfolding check
  Fits→check t c h = ground (
    arith,
    eq→eqb_ℤ t.balance_after (add64 c.previous_balance t.amount),
    eq→is t.previous_hash c.previous_hash,
    eq→is t.transaction_hash (hash sha256 t),
  )

  -- Behind rows of one user that pass, the balance that the loop holds is the one it started from
  -- with the amounts added in 64 bits.
  pub verify-sum :
      (u : ℕ) (c : Cursor) (ts : List PointTransaction)
      → c.user ≡ some u
      → All (OfUser u) ts
      → verify_from sha256 c ts ≡ none
      → (cursor_after c ts).previous_balance ≡ sum_from c.previous_balance ts
  unfolding verify_from cursor_after sum_from
  verify-sum u c [] e own h = refl
  verify-sum u c (t ∷ ts) e own h =
      let stays = enter-same u t c e own.0 in
      let (passed, rest) = both_none (check sha256 t (enter t c)) _ h in
      let fits = check→Fits t c (rw stays at passed) in
      rw (stays, cursor_after)
        (rw (← fits.balance) (verify-sum u (advance t c) ts e own.1 (rw stays at rest)))

-- Where `Verify` stands behind the last row of one user's ledger, or at `c` if it has none.
abbrev pub end_or : ℕ → Cursor → Option PointTransaction → Cursor
end_or u c none = c
end_or u c (some t) = record {
  user = some u;
  expected_sequence = (t.chain_sequence + 1) % 2 ^ 64;
  previous_hash = t.transaction_hash;
  previous_balance = t.balance_after;
}

end_or_any :
    (u : ℕ) (c d : Cursor) (t : PointTransaction) (ts : List PointTransaction)
    → end_or u c (last? (t ∷ ts)) ≡ end_or u d (last? (t ∷ ts))
end_or_any u c d t [] = refl
end_or_any u c d t (x ∷ ts) = end_or_any u c d x ts

module _ (sha256 : List ℕ → List ℕ) (u : ℕ) where
  -- One user's ledger may as well be entered at the genesis of its chain.
  pub verify-genesis :
      (ts : List PointTransaction)
      → All (OfUser u) ts
      → verify sha256 ts ≡ verify_from sha256 (at_genesis u) ts
  unfolding verify verify_from enter
  verify-genesis [] own = refl
  verify-genesis (t ∷ ts) own = rw (own.0, ==_refl u) refl

  -- The sequence numbers of an accepted ledger count its rows, as long as 64 bits can.
  pub verify-sequences :
      (c : Cursor) (ts : List PointTransaction) (n : ℕ)
      → c.user ≡ some u
      → All (OfUser u) ts
      → verify_from sha256 c ts ≡ none
      → c.expected_sequence + length ts ≤ n
      → n < 2 ^ 64
      → All (λ t. t.chain_sequence < n) ts
  unfolding verify_from advance
  verify-sequences c [] n e own h room fits64 = tt
  verify-sequences c (t ∷ ts) n e own h room fits64 =
      let stays = enter-same u t c e own.0 in
      let (passed, rest) = both_none (check sha256 t (enter t c)) _ h in
      let fits = check→Fits sha256 t c (rw stays at passed) in
      (
        omega (arith, fits.sequence),
        verify-sequences (advance t c) ts n e own.1 (rw stays at rest) (omega arith) fits64,
      )

  -- The loop stands behind its last row.
  pub verify-end :
      (c : Cursor) (ts : List PointTransaction)
      → c.user ≡ some u
      → All (OfUser u) ts
      → verify_from sha256 c ts ≡ none
      → cursor_after c ts ≡ end_or u c (last? ts)
  unfolding verify_from cursor_after advance
  verify-end c [] e own h = refl
  verify-end c (t ∷ ts) e own h =
      let stays = enter-same u t c e own.0 in
      let (passed, rest) = both_none (check sha256 t (enter t c)) _ h in
      let fits = check→Fits sha256 t c (rw stays at passed) in
      rw (stays, cursor_after)
        (verify-end (advance t c) ts e own.1 (rw stays at rest) ∙ last_row t ts fits)
    where
      last_row :
          (t : PointTransaction) (ts : List PointTransaction)
          → Fits sha256 t c
          → end_or u (advance t c) (last? ts) ≡ end_or u c (last? (t ∷ ts))
      last_row t [] fits = ground arith
      last_row t (x ∷ ts) fits = end_or_any u (advance t c) c x ts
