-- ===== src/Media/Catalog/Uploads/Addresses.antt =====
-- Which blobs the addresses of one product's files name.
use pingu_coin.Base.{
  ℕ, String, true, not, ◌||◌, Option, none, some, ◌≡◌, sym, ◌∙◌, ap, inl, inr, Bool-cases,
}
use pingu_coin.Base.Text.{◌is◌, ◌<>◌, has_prefix, has_prefix-trim_prefix, trim_prefix, has_suffix}
use pingu_coin.Media.Catalog.Storage.{
  BlobStorage, named, outside, product_path_prefix, name_in_path, name_at, name_of_parsed, Url,
  blob_name_from_url, blob_endpoint,
}

module _ (storage : BlobStorage) (user product : ℕ) where
  abbrev prefix : String
  prefix = product_path_prefix storage user product

  -- The name that an address has is under the path of the product.
  in_path-under :
      (front path n : String)
      → name_in_path storage user product front path ≡ named n
      → has_prefix n prefix ≡ true
  unfolding name_in_path
  in_path-under front path n e = elim (Bool-cases (has_prefix path (front <> prefix))) [
    | inl under ↦
        let rest = has_prefix-trim_prefix path front prefix under in
        elim (Bool-cases
          ((trim_prefix path front is "") || has_suffix (trim_prefix path front) "/")) [
            | inl folder ↦ absurd (neither n (rw (under, folder) at e))
            | inr file ↦
                ap (λ x. has_prefix x prefix) (sym (names _ n (rw (under, file) at e))) ∙ rest
          ]
    | inr away ↦ absurd (neither n (rw away at e))
  ]
    where
      neither : (n : String) → outside ≡ named n → ⊥
      neither n e = cc

      names : (a b : String) → named a ≡ named b → a ≡ b
      names a b e = cc

  at-under :
      (container : String) (at target : Url) (n : String)
      → name_at storage user product container at target ≡ named n
      → has_prefix n prefix ≡ true
  at-under container at target n e =
      elim (Bool-cases (not (target.scheme is at.scheme) || not (target.host is at.host))) [
        | inl elsewhere ↦ absurd (neither n (rw elsewhere at e))
        | inr here ↦ in_path-under _ target.path n (rw here at e)
      ]
    where
      neither : (n : String) → outside ≡ named n → ⊥
      neither n e = cc

  pub url-under :
      (url container n : String)
      → blob_name_from_url storage user product url container ≡ named n
      → has_prefix n prefix ≡ true
  unfolding blob_name_from_url
  url-under url container n e =
      parsed (storage.parse_url url) (storage.parse_url (blob_endpoint storage)) n e
    where
      parsed :
          (target at : Option Url) (n : String)
          → name_of_parsed storage user product container target at ≡ named n
          → has_prefix n prefix ≡ true
      parsed none at n e = cc
      parsed (some target) none n e = cc
      parsed (some target) (some at) n e = at-under container at target n e
