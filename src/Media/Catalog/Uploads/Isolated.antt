-- ===== src/Media/Catalog/Uploads/Isolated.antt =====
-- No blob belongs to two products.
use Prim.Native.String.{String}
use text.Mathlib.TextLemmas.{append_assoc, append_cancel_left}
use pingu_coin.Base.{ℕ, ◌^◌, ◌<◌, true, ◌≡◌, sym, ◌∙◌, arith}
use pingu_coin.Base.Text.{◌<>◌, decimal, has_prefix}
use pingu_coin.Base.Text.Decimal.{NoSlash-split, decimal-NoSlash, decimal_inj, has_prefix-split}
use pingu_coin.Media.Catalog.Storage.{BlobStorage, named, product_path_prefix, blob_name_from_url}
use pingu_coin.Media.Catalog.Uploads.Addresses.{url-under}

module _ (storage : BlobStorage) where
  -- What follows the environment in a name under the path of a product.
  below :
      (user product : ℕ) (rest : String)
      → (product_path_prefix storage user product <> rest) ≡ (
          storage.env
          <> ("/products/" <> (decimal user <> ("/" <> (decimal product <> ("/" <> rest))))))
  unfolding product_path_prefix
  below user product rest = simp append_assoc

  under-isolated :
      (u p v q : ℕ) (n : String)
      → (u < 2 ^ 32) × (p < 2 ^ 32) × (v < 2 ^ 32) × (q < 2 ^ 32)
      → has_prefix n (product_path_prefix storage u p) ≡ true
      → has_prefix n (product_path_prefix storage v q) ≡ true
      → (u ≡ v) × (p ≡ q)
  under-isolated u p v q n small h k =
      let (r, e) = has_prefix-split n (product_path_prefix storage u p) h in
      let (r', e') = has_prefix-split n (product_path_prefix storage v q) k in
      let same = sym (below u p r) ∙ sym e ∙ e' ∙ below v q r' in
      let tail = append_cancel_left "/products/" _ _ (append_cancel_left storage.env _ _ same) in
      let (users, more) =
        NoSlash-split (decimal u) (decimal v) _ _ (decimal-NoSlash u) (decimal-NoSlash v) tail in
      let (products, _) =
        NoSlash-split (decimal p) (decimal q) r r' (decimal-NoSlash p) (decimal-NoSlash q) more in
      (
        decimal_inj u v (omega arith) (omega arith) users,
        decimal_inj p q (omega arith) (omega arith) products,
      )

  -- Where two addresses are accepted as addresses of one blob, for ids of 32 bits, they are accepted for
  -- the same user and the same product, whatever the containers are.
  pub blob_name_from_url-isolated :
      (u p v q : ℕ) (url url' container container' n : String)
      → (u < 2 ^ 32) × (p < 2 ^ 32) × (v < 2 ^ 32) × (q < 2 ^ 32)
      → blob_name_from_url storage u p url container ≡ named n
      → blob_name_from_url storage v q url' container' ≡ named n
      → (u ≡ v) × (p ≡ q)
  blob_name_from_url-isolated u p v q url url' container container' n small h k =
      under-isolated u p v q n small (url-under storage u p url container n h)
        (url-under storage v q url' container' n k)
