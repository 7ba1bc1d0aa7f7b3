-- ===== src/Media/Catalog/Uploads/Within.antt =====
-- What one product's images and files are: what may change when its owner changes them.
use pingu_coin.Base.{
  ℕ, String, List, [], ◌∷◌, Bool, true, false, not, Option, none, some, ◌≡◌, refl, sym, ◌∙◌, ap,
  ◌⊎◌, inl, inr, ◌==◌, if◌then◌else◌, select, select-append, find_first, find_first-holds, exists,
  Bool-cases, arith,
}
use mathlib.Core.List.{append-nil}
use pingu_coin.Base.Rows.{
  find_first-update_elsewhere, exists-replaced, find_first-exists, exists-weaken,
}
use pingu_coin.Base.Text.{◌is◌, is→eq, has_prefix}
use pingu_coin.Base.Store.{Result, ok, err, Error, pure, found, unavailable}
use pingu_coin.Base.Store.Laws.{Leads, leads_pure, leads_if, leads_weaken}
use pingu_coin.Base.Store.Rules.{leads_attempt_found}
use pingu_coin.Base.Store.Keeps.{Keeps, Keeps-pure, Keeps-modify, Keeps-attempt}
use pingu_coin.Base.Rpc.{reply}
use pingu_coin.Media.Catalog.Model.{Product, ProductDetail, Blob, CatalogStore}
use pingu_coin.Media.Catalog.Storage.{BlobStorage, is_blob, delete_blob, product_path_prefix}
use pingu_coin.Media.Catalog.Repository.{
  is_product, has_product_id, find_product, insert_detail, next_version, save_product, shows_image,
  delete_by_image_url,
}
use pingu_coin.Media.Catalog.Products.{
  Handler, with_result, with_found, when_owned, with_owned, write_product,
}
use pingu_coin.Media.Catalog.Uploads.{not_owner}

module _ (storage : BlobStorage) (user product : ℕ) where
  abbrev pub prefix : String
  prefix = product_path_prefix storage user product

  -- A detail of another product.
  abbrev pub is_elsewhere : ProductDetail → Bool
  is_elsewhere d = not (d.product_id == product)

  -- From `s` to `t`, of the products only the one with this number has changed, of the details only
  -- its own, and of the blobs only those under its path.
  pub record Within (s t : CatalogStore) : Type 0 where
    pub listed : exists (has_product_id product) t.products ≡ true
    pub products :
        (id : ℕ)
        → (id == product) ≡ false
        → find_first (has_product_id id) t.products ≡ find_first (has_product_id id) s.products
    pub details : select is_elsewhere t.details ≡ select is_elsewhere s.details
    pub blobs :
        (container name : String)
        → has_prefix name prefix ≡ false
        → exists (is_blob container name) t.blobs ≡ exists (is_blob container name) s.blobs
    pub assets : t.assets ≡ s.assets
    pub users : t.users ≡ s.users

  -- The user owns the product.
  abbrev pub Owns : CatalogStore → Type 0
  Owns s =
      (p : Product) × (find_first (is_product product) s.products ≡ some p)
      × ((p.user_id == user) ≡ true)

  -- Nothing has changed, or the user owns the product and nothing else has.
  abbrev pub Guarded : CatalogStore → CatalogStore → Type 0
  Guarded s t = (t ≡ s) ⊎ (Owns s × Within s t)

  module _ (s : CatalogStore) where
    save-Within :
        (p : Product)
        → (p.id == product) ≡ true
        → (t : CatalogStore) → Within s t
        → Within s (save_product p t)
    unfolding save_product
    save-Within p own t w =
        let here : exists (has_product_id p.id) t.products ≡ true = rw (same_id p own) w.listed in
        rw here (record {
          listed =
              exists-replaced (has_product_id product) (has_product_id p.id) (next_version p) own
                t.products w.listed;
          products = λ id other.
              find_first-update_elsewhere (has_product_id id) (has_product_id p.id)
                (λ _. next_version p) (λ x e. apart p own id other x e)
                (λ _. apart_new p own id other) t.products
              ∙ w.products id other;
          details = w.details;
          blobs = w.blobs;
          assets = w.assets;
          users = w.users;
        })
      where
        same_id : (p : Product) → (p.id == product) ≡ true → p.id ≡ product
        same_id p own = ground (arith, own)

        apart :
            (p : Product)
            → (p.id == product) ≡ true
            → (id : ℕ) → (id == product) ≡ false
            → (x : Product) → (x.id == p.id) ≡ true
            → (x.id == id) ≡ false
        apart p own id other x e = ground (arith, own, other, e)

        apart_new :
            (p : Product)
            → (p.id == product) ≡ true
            → (id : ℕ) → (id == product) ≡ false
            → (p.id == id) ≡ false
        apart_new p own id other = ground (arith, own, other)

    pub write-Keeps : (p : Product) → (p.id == product) ≡ true → Keeps (Within s) (write_product p)
    unfolding write_product with_result
    write-Keeps p own =
        Keeps-attempt _ (λ r. with_result r (λ _. pure (reply (next_version p))))
          (Keeps-modify _ (save-Within p own)) (λ r. answer r)
      where
        answer :
            (r : Result (Unit {0}))
            → Keeps (Within s) (with_result r (λ _. pure (reply (next_version p))))
        answer (ok _) = Keeps-pure _
        answer (err _) = Keeps-pure _

    pub detail-Within :
        (d : ProductDetail)
        → (d.product_id == product) ≡ true
        → (t : CatalogStore) → Within s t
        → Within s (insert_detail d t).1
    unfolding insert_detail
    detail-Within d own t w = record {
      listed = w.listed;
      products = w.products;
      details =
          select-append is_elsewhere t.details (record d { id = t.next_detail } ∷ [])
          ∙ rw own (append-nil (select is_elsewhere t.details))
          ∙ w.details;
      blobs = w.blobs;
      assets = w.assets;
      users = w.users;
    }

    select_deleted :
        (n : ℕ) (url : String)
        → (n == product) ≡ true
        → (ds : List ProductDetail)
        → select is_elsewhere (select (λ d. not (shows_image n url d)) ds) ≡ select is_elsewhere ds
    select_deleted n url own [] = refl
    select_deleted n url own (d ∷ ds) = elim (Bool-cases (shows_image n url d)) [
      | inl shown ↦ rw (shown, its_own d shown) (select_deleted n url own ds)
      | inr kept ↦
          rw kept (ap (λ l. if is_elsewhere d then d ∷ l else l) (select_deleted n url own ds))
    ]
      where
        its_own :
            (d : ProductDetail) → shows_image n url d ≡ true → (d.product_id == product) ≡ true
        its_own d shown = ground (arith, own, shown)

    pub details-Within :
        (n : ℕ) (url : String)
        → (n == product) ≡ true
        → (t : CatalogStore) → Within s t
        → Within s (delete_by_image_url n url t)
    unfolding delete_by_image_url
    details-Within n url own t w = record {
      listed = w.listed;
      products = w.products;
      details = select_deleted n url own t.details ∙ w.details;
      blobs = w.blobs;
      assets = w.assets;
      users = w.users;
    }

    -- A blob under the path is not one outside.
    other_blob :
        (c n container name : String)
        → has_prefix n prefix ≡ true
        → has_prefix name prefix ≡ false
        → (bs : List Blob)
        → exists (is_blob container name) (select (λ b. not (is_blob c n b)) bs)
          ≡ exists (is_blob container name) bs
    other_blob c n container name under away [] = refl
    other_blob c n container name under away (b ∷ bs) = elim (Bool-cases (is_blob c n b)) [
      | inl gone ↦ rw (gone, missed b gone) (other_blob c n container name under away bs)
      | inr kept ↦ rw kept (
          ap (λ r. if is_blob container name b then true else r)
            (other_blob c n container name under away bs))
    ]
      where
        different : (x : String) → (x is n) ≡ true → (x is name) ≡ false
        different x e = elim (Bool-cases (x is name)) [
          | inl same ↦
              absurd (
                clash (sym (ap (λ y. has_prefix y prefix) (sym (is→eq x n e) ∙ is→eq x name same))))
          | inr other ↦ other
        ]
          where
            clash : has_prefix name prefix ≡ has_prefix n prefix → ⊥
            clash q = cc (q, under, away)

        missed : (b : Blob) → is_blob c n b ≡ true → is_blob container name b ≡ false
        missed b gone = ground (arith, gone, different b.name)

    pub blob-Keeps :
        (c n : String) → has_prefix n prefix ≡ true → Keeps (Within s) (delete_blob c n)
    unfolding delete_blob
    blob-Keeps c n under = Keeps-modify _ (λ t w. record {
      listed = w.listed;
      products = w.products;
      details = w.details;
      blobs = λ container name away.
          other_blob c n container name under away t.blobs ∙ w.blobs container name away;
      assets = w.assets;
      users = w.users;
    })

    pub result-Keeps :
        {A B : Type 0} (next : A → Handler B)
        → ((a : A) → Keeps (Within s) (next a))
        → (r : Result A) → Keeps (Within s) (with_result r next)
    unfolding with_result
    result-Keeps next h (ok a) = h a
    result-Keeps next h (err _) = Keeps-pure _

    start-Within : (p : Product) → find_first (is_product product) s.products ≡ some p → Within s s
    start-Within p e = record {
      listed =
          exists-weaken (is_product product) (has_product_id product) (λ x y. numbered x y)
            s.products (find_first-exists (is_product product) s.products p e);
      products = λ _ _. refl;
      details = refl;
      blobs = λ _ _ _. refl;
      assets = refl;
      users = refl;
    }
      where
        numbered : (x : Product) → is_product product x ≡ true → has_product_id product x ≡ true
        numbered x y = ground (arith, y)

    module _ {A : Type 0} (next : Product → Handler A)
        (h : (p : Product) → (p.id == product) ≡ true → Keeps (Within s) (next p)) where
      found-Guarded :
          (o : Option Product)
          → find_first (is_product product) s.products ≡ o
          → Leads
              (with_found "product" (found o) (when_owned not_owner user next))
              s
              (λ _ t. Guarded s t)
      unfolding with_found when_owned
      found-Guarded none e = leads_pure (inl refl)
      found-Guarded (some p) e =
          leads_if (p.user_id == user)
            (λ own.
              leads_weaken (h p (its_number p e) s (start-Within p e))
                (λ _ t w. inr ((p, e, own), w)))
            (λ _. leads_pure (inl refl))
        where
          its_number :
              (p : Product)
              → find_first (is_product product) s.products ≡ some p
              → (p.id == product) ≡ true
          its_number p e = ground (arith, find_first-holds (is_product product) s.products p e)

      lost-Guarded :
          (e : Error)
          → Leads
              (with_found "product" (err e) (when_owned not_owner user next))
              s
              (λ _ t. Guarded s t)
      unfolding with_found
      lost-Guarded e = leads_pure (inl refl)

      -- What runs on the product that was found changes no other, so the whole handler does not.
      pub owned-Guarded : Leads (with_owned not_owner user product next) s (λ _ t. Guarded s t)
      unfolding with_owned find_product
      owned-Guarded =
          leads_attempt_found (λ x. find_first (is_product product) x.products)
            (λ r. with_found "product" r (when_owned not_owner user next))
            (found-Guarded (find_first (is_product product) s.products) refl)
            (lost-Guarded unavailable)
