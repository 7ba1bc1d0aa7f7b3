-- ===== src/Media/Catalog/Uploads/Guarded.antt =====
-- What the handlers of uploads change.
use pingu_coin.Base.{String, some, true, ◌≡◌, refl, ◌==◌, inl}
use pingu_coin.Base.Text.{◌is◌, trim_space}
use pingu_coin.Base.Store.{M, pure}
use pingu_coin.Base.Store.Laws.{Leads, leads_pure, leads_if}
use pingu_coin.Base.Store.Keeps.{
  Keeps, Keeps-pure, Keeps-if, Keeps-statement, Keeps-modify, Keeps-bind, Keeps-attempt,
}
use pingu_coin.Base.Rpc.{Reply, reply}
use pingu_coin.Media.Catalog.Model.{Product, CatalogStore}
use pingu_coin.Media.Catalog.Storage.{
  BlobStorage, ImageKind, main_kind, sub_kind, unknown_kind, BlobName, named, outside, unreadable,
  image_blob_name, file_blob_name, classify, delete_image_blob, delete_file_blob, strip_query,
}
use pingu_coin.Media.Catalog.Products.{with_result, write_product}
use pingu_coin.Media.Catalog.Uploads.{
  UploadRequest, confirmed, new_detail, add_detail, show_main, confirm_kind, confirm_named,
  confirm_image_at, confirm_image_upload, clear_main, clear_sub, clear_kind, delete_image_named,
  delete_image_at, delete_image_upload, confirm_file_named, confirm_file_at, confirm_file_upload,
  clear_file, delete_file_named, delete_file_at, delete_file_upload,
}
use pingu_coin.Media.Catalog.Uploads.Within.{
  Within, Guarded, write-Keeps, detail-Within, details-Within, blob-Keeps, result-Keeps,
  owned-Guarded,
}
use pingu_coin.Media.Catalog.Uploads.Addresses.{url-under}

module _ (storage : BlobStorage) (r : UploadRequest) where
  abbrev Kept : CatalogStore → CatalogStore → Type 0
  Kept s = Within storage r.user_id r.product_id s

  module _ (s : CatalogStore) (p : Product) (own : (p.id == r.product_id) ≡ true) where
    writes : (q : Product) → (q.id == r.product_id) ≡ true → Keeps (Kept s) (write_product q)
    writes = write-Keeps storage r.user_id r.product_id s

    main-Keeps : (url : String) → Keeps (Kept s) (show_main p url)
    unfolding show_main
    main-Keeps url =
        Keeps-bind _ (λ x. pure (confirmed x)) (writes (record p { image_url = url }) own)
          (λ x. Keeps-pure _)

    sub-Keeps : (url : String) → Keeps (Kept s) (add_detail r p url)
    unfolding add_detail
    sub-Keeps url =
        Keeps-attempt _ (λ x. with_result x (λ d. pure (reply (p, some d))))
          (Keeps-statement _
            (detail-Within storage r.user_id r.product_id s (new_detail r p url) own))
          (result-Keeps storage r.user_id r.product_id s _ (λ d. Keeps-pure _))

    confirm-Keeps : (url : String) (kind : ImageKind) → Keeps (Kept s) (confirm_kind r p url kind)
    unfolding confirm_kind
    confirm-Keeps url main_kind = main-Keeps url
    confirm-Keeps url sub_kind = sub-Keeps url
    confirm-Keeps url unknown_kind = Keeps-pure _

    confirm_named-Keeps :
        (file_url : String) (name : BlobName)
        → Keeps (Kept s) (confirm_named storage r file_url p name)
    unfolding confirm_named
    confirm_named-Keeps file_url (named name) = confirm-Keeps _ _
    confirm_named-Keeps file_url outside = Keeps-pure _
    confirm_named-Keeps file_url unreadable = Keeps-pure _

    clear_main-Keeps : (url : String) → Keeps (Kept s) (clear_main p url)
    unfolding clear_main
    clear_main-Keeps url =
        Keeps-if (p.image_url is url) _ _ (writes (record p { image_url = "" }) own) (Keeps-pure _)

    clear_sub-Keeps : (url : String) → Keeps (Kept s) (clear_sub p url)
    unfolding clear_sub
    clear_sub-Keeps url =
        Keeps-attempt _ (λ x. with_result x (λ _. pure (reply p)))
          (Keeps-modify _ (details-Within storage r.user_id r.product_id s p.id url own))
          (result-Keeps storage r.user_id r.product_id s _ (λ _. Keeps-pure _))

    clear-Keeps : (url : String) (kind : ImageKind) → Keeps (Kept s) (clear_kind p url kind)
    unfolding clear_kind
    clear-Keeps url main_kind = clear_main-Keeps url
    clear-Keeps url sub_kind = clear_sub-Keeps url
    clear-Keeps url unknown_kind = Keeps-pure _

    delete_image-Keeps :
        (file_url : String) (name : BlobName)
        → image_blob_name storage r.user_id r.product_id file_url ≡ name
        → Keeps (Kept s) (delete_image_named storage r file_url p name)
    unfolding delete_image_named delete_image_blob image_blob_name
    delete_image-Keeps file_url (named name) e =
        Keeps-attempt _
          (λ x. with_result x (λ _.
            clear_kind p (strip_query storage file_url)
              (classify storage r.user_id r.product_id name)))
          (blob-Keeps storage r.user_id r.product_id s storage.public_container name
            (url-under storage r.user_id r.product_id file_url storage.public_container name e))
          (result-Keeps storage r.user_id r.product_id s _ (λ _. clear-Keeps _ _))
    delete_image-Keeps file_url outside e = Keeps-pure _
    delete_image-Keeps file_url unreadable e = Keeps-pure _

    confirm_file-Keeps :
        (file_url : String) (name : BlobName)
        → Keeps (Kept s) (confirm_file_named storage file_url p name)
    unfolding confirm_file_named
    confirm_file-Keeps file_url (named name) =
        writes (record p { file_url = strip_query storage file_url }) own
    confirm_file-Keeps file_url outside = Keeps-pure _
    confirm_file-Keeps file_url unreadable = Keeps-pure _

    clear_file-Keeps : (url : String) → Keeps (Kept s) (clear_file p url)
    unfolding clear_file
    clear_file-Keeps url =
        Keeps-if (p.file_url is url) _ _ (writes (record p { file_url = "" }) own) (Keeps-pure _)

    delete_file-Keeps :
        (file_url : String) (name : BlobName)
        → file_blob_name storage r.user_id r.product_id file_url ≡ name
        → Keeps (Kept s) (delete_file_named storage file_url p name)
    unfolding delete_file_named delete_file_blob file_blob_name
    delete_file-Keeps file_url (named name) e =
        Keeps-attempt _ (λ x. with_result x (λ _. clear_file p (strip_query storage file_url)))
          (blob-Keeps storage r.user_id r.product_id s storage.private_container name
            (url-under storage r.user_id r.product_id file_url storage.private_container name e))
          (result-Keeps storage r.user_id r.product_id s _ (λ _. clear_file-Keeps _))
    delete_file-Keeps file_url outside e = Keeps-pure _
    delete_file-Keeps file_url unreadable e = Keeps-pure _

  abbrev pub IsGuarded : {A : Type 0} → M CatalogStore (Reply A) → Type 0
  IsGuarded m = (s : CatalogStore) → Leads m s (λ _ t. Guarded storage r.user_id r.product_id s t)

  -- Whatever statements and requests to the storage fail, the four handlers that confirm and delete an
  -- image or a file of a product change nothing, or the user of the request owns that product, and then
  -- no other product, no detail of another product, no blob outside the path of that user and product,
  -- no asset and no user has changed.
  pub uploads-Guarded :
      IsGuarded (confirm_image_upload storage r)
      × IsGuarded (delete_image_upload storage r)
      × IsGuarded (confirm_file_upload storage r)
      × IsGuarded (delete_file_upload storage r)
  unfolding confirm_image_upload confirm_image_at delete_image_upload delete_image_at
      confirm_file_upload confirm_file_at delete_file_upload delete_file_at
  uploads-Guarded = (
    λ s.
        leads_if (trim_space r.file_url is "") (λ _. leads_pure (inl refl))
          (λ _.
            owned-Guarded storage r.user_id r.product_id s _
              (λ p own. confirm_named-Keeps s p own (trim_space r.file_url) _)),
    λ s.
        leads_if (trim_space r.file_url is "") (λ _. leads_pure (inl refl))
          (λ _.
            owned-Guarded storage r.user_id r.product_id s _
              (λ p own. delete_image-Keeps s p own (trim_space r.file_url) _ refl)),
    λ s.
        leads_if (trim_space r.file_url is "") (λ _. leads_pure (inl refl))
          (λ _.
            owned-Guarded storage r.user_id r.product_id s _
              (λ p own. confirm_file-Keeps s p own (trim_space r.file_url) _)),
    λ s.
        leads_if (trim_space r.file_url is "") (λ _. leads_pure (inl refl))
          (λ _.
            owned-Guarded storage r.user_id r.product_id s _
              (λ p own. delete_file-Keeps s p own (trim_space r.file_url) _ refl)),
  )
