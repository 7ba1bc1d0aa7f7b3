-- ===== src/Media/Catalog/Users/Deleted.antt =====
-- A user who was deleted does not come back.
use pingu_coin.Base.{
  ℕ, String, [], ◌∷◌, true, false, not, ◌&&◌, none, ◌≡◌, refl, ◌∙◌, ◌==◌, List, All, find_first,
  exists, update_where, Bool-cases, inl, inr,
}
use pingu_coin.Base.Rows.{exists-update_where}
use pingu_coin.Base.Text.{◌is◌, trim_space}
use pingu_coin.Base.Store.{ok, calm, ◌>>=◌, statement}
use pingu_coin.Base.Rpc.{refuse, internal}
use pingu_coin.Media.Catalog.Model.{User, CatalogStore}
use pingu_coin.Media.Catalog.Users.{
  is_user, is_clerk_user, has_clerk_id, insert_user, delete_user_row, delete_user, add_user,
  ensure_answer, ensure_clerk_user, ensure_user, find_clerk_user,
}

-- The users of one Clerk id are all the row with the number `id`.
abbrev pub OnlyRow : String → ℕ → List User → Type 0
OnlyRow clerk id = All (λ u. (has_clerk_id clerk u && not (u.id == id)) ≡ false)

gone :
    (clerk : String) (id : ℕ) (us : List User)
    → OnlyRow clerk id us
    → find_first
        (is_clerk_user clerk)
        (update_where (is_user id) (λ u. record u { deleted = true }) us)
      ≡ none
gone clerk id [] h = refl
gone clerk id (u ∷ us) h = elim (Bool-cases (u.clerk_user_id is clerk)) [
  | inl his ↦ elim (Bool-cases (u.id == id)) [
    | inl row ↦ elim (Bool-cases u.deleted) [
      | inl deleted ↦ rw (row, deleted, his) (gone clerk id us h.1)
      | inr kept ↦ rw (row, kept, his) (gone clerk id us h.1)
    ]
    | inr other ↦ absurd (clash (rw (his, other) at h.0))
  ]
  | inr hers ↦ elim (Bool-cases (u.id == id && not u.deleted)) [
    | inl row ↦ rw (row, hers) (gone clerk id us h.1)
    | inr other ↦ rw (other, hers) (gone clerk id us h.1)
  ]
]
  where
    clash : true ≡ false → ⊥
    clash e = cc

-- Where a Clerk id has one row, and its user is deleted, `EnsureUser` finds no user, cannot add one,
-- and answers with an internal error, now and at each further call, where no statement fails.
pub ensure_user-deleted :
    (clerk email name : String) (id : ℕ) (s : CatalogStore)
    → (trim_space clerk is "") ≡ false
    → exists (has_clerk_id (trim_space clerk)) s.users ≡ true
    → OnlyRow (trim_space clerk) id s.users
    → (delete_user id >>= λ _. ensure_user clerk email name) (calm s)
        ≡ (ok (refuse internal "internal server error"), calm (delete_user_row id s))
      × (ensure_user clerk email name (calm (delete_user_row id s))
          ≡ (ok (refuse internal "internal server error"), calm (delete_user_row id s)))
unfolding delete_user ensure_user ensure_clerk_user find_clerk_user ensure_answer add_user
    insert_user delete_user_row ◌>>=◌ statement
ensure_user-deleted clerk email name id s named there only =
    let away = gone (trim_space clerk) id s.users only in
    let taken =
      exists-update_where (has_clerk_id (trim_space clerk)) (is_user id)
        (λ u. record u { deleted = true }) (λ _. refl) s.users
      ∙ there in
    (rw (named, away, taken) refl, rw (named, away, taken) refl)
