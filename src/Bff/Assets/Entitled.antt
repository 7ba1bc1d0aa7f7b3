-- ===== src/Bff/Assets/Entitled.antt =====
-- Who gets the address of a private file.
use pingu_coin.Base.{
  ℕ, zero, suc, String, List, [], ◌∷◌, ◌++◌, Bool, true, false, Option, none, some, ◌≡◌, refl, ap,
  ◌∙◌, ◌==◌, select, select-append, exists, ◌⊎◌, inl, inr,
}
use mathlib.Core.List.{append-nil}
use pingu_coin.Base.Text.{parse_uint}
use pingu_coin.Base.Store.{Result, ok, err, M, pure, ◌>>=◌}
use pingu_coin.Base.Store.Laws.{
  Leads, leads_pure, leads_if, leads_aside, leads_attempt, leads_statement, leads_bind,
}
use pingu_coin.Media.Catalog.Model.{Product, ProductAsset}
use pingu_coin.Bff.Errors.{AppError}
use pingu_coin.Bff.Backend.{
  Claims, HttpRequest, Response, json, error, RemoteCall, asset_download_url, Answer, answer, fault,
  BffStore, with_call, call,
}
use pingu_coin.Bff.Repository.{is_paid_for, has_paid_order}
use pingu_coin.Bff.Handlers.{Handler, numbered, with_path_id, with_user, with_answer}
use pingu_coin.Bff.Catalog.{
  MediaClient, Orders, order_api, legacy_orders, no_orders, user32, with_product,
}
use pingu_coin.Bff.Assets.{
  Verdict, verdict_of, verdict_or_internal, has_paid, download, download_if, download_bought,
  download_product, download_asset, download_known, get_asset_download,
}

abbrev pub is_download : RemoteCall → Bool
is_download (asset_download_url _) = true
is_download _ = false

-- The addresses that were asked for.
abbrev pub downloads : BffStore → List RemoteCall
downloads s = select is_download s.calls

module _ {A B : Type 0} {Q : Result B → BffStore → Type 0} where
  pub call-Leads :
      (f : List RemoteCall → Answer A) (c : RemoteCall) (g : Answer A → M BffStore B) (u : BffStore)
      → Leads (g (f u.calls)) (with_call c u) Q
      → Leads (call f c >>= g) u Q
  unfolding call
  call-Leads f c g u l = leads_aside (λ s. (f s.calls, with_call c s)) g l

-- A call of another kind asks for no address.
other-downloads :
    (c : RemoteCall) (s : BffStore)
    → is_download c ≡ false
    → downloads (with_call c s) ≡ downloads s
other-downloads c s h =
    select-append is_download s.calls (c ∷ []) ∙ rw h (append-nil (select is_download s.calls))

module _ {A : Type 0} {Q : Result (Response A) → BffStore → Type 0} (s : BffStore)
    (refused : (e : AppError) → Q (ok (error e)) s) where
  numbered-Leads :
      (n : Option ℕ) (next : ℕ → Handler A)
      → ((id : ℕ) → Leads (next id) s Q)
      → Leads (numbered n next) s Q
  unfolding numbered
  numbered-Leads none next h = leads_pure (refused _)
  numbered-Leads (some zero) next h = leads_pure (refused _)
  numbered-Leads (some (suc n)) next h = h (suc n)

  with_user-Leads :
      (user : Option Claims) (next : Claims → Handler A)
      → ((u : Claims) → user ≡ some u → Leads (next u) s Q)
      → Leads (with_user user next) s Q
  unfolding with_user
  with_user-Leads none next h = leads_pure (refused _)
  with_user-Leads (some u) next h = h u refl

  with_answer-Leads :
      {B : Type 0} (a : Answer B) (next : B → Handler A)
      → ((b : B) → a ≡ answer b → Leads (next b) s Q)
      → Leads (with_answer a next) s Q
  unfolding with_answer
  with_answer-Leads (answer b) next h = h b refl
  with_answer-Leads (fault e) next h = leads_pure (refused _)

module _ (media : MediaClient) (orders : Orders) (request : HttpRequest (Unit {0}))
    (s : BffStore) where
  -- Whoever knows of paid orders says that the user has paid for the product.
  abbrev PaidBy : Orders → BffStore → ℕ → ℕ → Type 0
  PaidBy (order_api paid) t user product = paid t.calls user product ≡ answer true
  PaidBy legacy_orders t user product = exists (is_paid_for user product) s.orders ≡ true
  PaidBy no_orders t user product = ⊥

  -- The calls that found the asset and its product.
  abbrev pub asset_read : ℕ → BffStore
  asset_read id = with_call (RemoteCall.get_asset id) s

  abbrev pub product_read : ℕ → ProductAsset → BffStore
  product_read id a = with_call (RemoteCall.get_product a.product_id) (asset_read id)

  -- The user owns the product of a private asset, or has paid for it.
  pub record MayRead (u : Claims) (id : ℕ) (a : ProductAsset) (p : Product) : Type 0 where
    pub user : request.user ≡ some u
    pub asset : media.asset s.calls id ≡ answer a
    pub private_asset : a.purpose.is_public ≡ false
    pub product : media.product (asset_read id).calls a.product_id ≡ answer p
    pub reason :
        ((p.user_id == user32 u) ≡ true) ⊎ PaidBy orders (product_read id a) u.user_id a.product_id

  -- No address was asked for, and an error is answered; or one was, by a user who may read the file.
  pub data Entitled (r : Result (Response String)) (t : BffStore) : Type 0 where
    withheld : (e : AppError) → r ≡ ok (error e) → downloads t ≡ downloads s → Entitled r t
    entitled :
        (u : Claims) (id : ℕ) (a : ProductAsset) (p : Product)
        → MayRead u id a p
        → downloads t ≡ downloads s ++ asset_download_url id ∷ []
        → Entitled r t

  refuse-Entitled :
      (e : AppError) (t : BffStore) → downloads t ≡ downloads s → Entitled (ok (error e)) t
  refuse-Entitled e t same = withheld e refl same

  module _ (u : Claims) (id : ℕ) (a : ProductAsset) (p : Product) where
    download-Entitled :
        MayRead u id a p
        → (t : BffStore) → downloads t ≡ downloads s
        → Leads (download media orders id) t Entitled
    unfolding download
    download-Entitled may t same =
        call-Leads (λ calls. media.download_url calls id) _
          (λ x. with_answer x (λ url. pure (json 200 url))) t
          (with_answer-Leads asked (λ e. entitled u id a p may counted)
            (media.download_url t.calls id) (λ url. pure (json 200 url))
            (λ url _. leads_pure (entitled u id a p may counted)))
      where
        asked : BffStore
        asked = with_call (asset_download_url id) t

        counted : downloads asked ≡ downloads s ++ asset_download_url id ∷ []
        counted = select-append is_download t.calls (asset_download_url id ∷ []) ∙ rw same refl

    -- What a verdict says.
    abbrev Says : Result Verdict → BffStore → Type 0
    Says (ok (inl e)) t = downloads t ≡ downloads s
    Says (ok (inr true)) t =
        PaidBy orders (product_read id a) u.user_id a.product_id × (downloads t ≡ downloads s)
    Says (ok (inr false)) t = downloads t ≡ downloads s
    Says (err e) t = ⊥

    verdict-Says :
        (v : Bool)
        → (v ≡ true → PaidBy orders (product_read id a) u.user_id a.product_id)
        → (t : BffStore) → downloads t ≡ downloads s
        → Says (ok (inr v)) t
    verdict-Says true h t same = (h refl, same)
    verdict-Says false h t same = same

    api-Says :
        (v : Answer Bool)
        → (v ≡ answer true → PaidBy orders (product_read id a) u.user_id a.product_id)
        → (t : BffStore) → downloads t ≡ downloads s
        → Says (ok (verdict_of v)) t
    api-Says (answer v) h t same = verdict-Says v (λ e. h (ap answer e)) t same
    api-Says (fault e) h t same = same

    read_same : downloads (product_read id a) ≡ downloads s
    read_same =
        other-downloads (RemoteCall.get_product a.product_id) (asset_read id) refl
        ∙ other-downloads (RemoteCall.get_asset id) s refl

    has_paid-Says :
        (o : Orders)
        → orders ≡ o
        → Leads (has_paid o u.user_id a.product_id) (product_read id a) Says
    unfolding has_paid has_paid_order
    has_paid-Says (order_api paid) e =
        call-Leads (λ calls. paid calls u.user_id a.product_id) _ (λ v. pure (verdict_of v))
          (product_read id a)
          (leads_pure (
            api-Says (paid (product_read id a).calls u.user_id a.product_id) (λ q. rw e q)
              (with_call (RemoteCall.has_paid_order u.user_id a.product_id) (product_read id a))
              (other-downloads _ (product_read id a) refl ∙ read_same)))
    has_paid-Says legacy_orders e = leads_attempt {f = λ r. pure (verdict_or_internal r)} (
        leads_statement _ (leads_pure read_same) (
          leads_pure (
            verdict-Says (exists (is_paid_for u.user_id a.product_id) s.orders) (λ q. rw e q)
              (product_read id a) read_same)))
    has_paid-Says no_orders e = leads_pure read_same

    module _ (user : request.user ≡ some u) (asset : media.asset s.calls id ≡ answer a)
        (private_asset : a.purpose.is_public ≡ false)
        (product : media.product (asset_read id).calls a.product_id ≡ answer p) where
      may_read :
          ((p.user_id == user32 u) ≡ true)
            ⊎ PaidBy orders (product_read id a) u.user_id a.product_id
          → MayRead u id a p
      may_read why = record {
        user = user;
        asset = asset;
        private_asset = private_asset;
        product = product;
        reason = why;
      }

      verdict-Entitled :
          (v : Verdict) (t : BffStore)
          → Says (ok v) t
          → Leads (download_if media orders id v) t Entitled
      unfolding download_if
      verdict-Entitled (inl e) t same = leads_pure (refuse-Entitled _ t same)
      verdict-Entitled (inr true) t h = download-Entitled (may_read (inr h.0)) t h.1
      verdict-Entitled (inr false) t same = leads_pure (refuse-Entitled _ t same)

      product-Entitled :
          Leads (download_product media orders id u a.product_id p) (product_read id a) Entitled
      unfolding download_product download_bought
      product-Entitled =
          leads_if (p.user_id == user32 u)
            (λ own. download-Entitled (may_read (inl own)) (product_read id a) read_same)
            (λ _.
              leads_bind (has_paid-Says orders refl) (λ v t h. verdict-Entitled v t h)
                (λ _ _ never. absurd never))

  asset-Entitled :
      (u : Claims) (id : ℕ) (a : ProductAsset)
      → request.user ≡ some u
      → media.asset s.calls id ≡ answer a
      → Leads (download_asset media orders id u a) (asset_read id) Entitled
  unfolding download_asset with_product
  asset-Entitled u id a user asset =
      leads_if a.purpose.is_public (λ _. leads_pure (refuse-Entitled _ (asset_read id) read))
        (λ private_asset.
          call-Leads (λ calls. media.product calls a.product_id) _
            (λ x. with_answer x (download_product media orders id u a.product_id)) (asset_read id)
            (with_answer-Leads (product_read id a)
              (λ e. refuse-Entitled e (product_read id a) (again_same))
              (media.product (asset_read id).calls a.product_id)
              (download_product media orders id u a.product_id)
              (λ p product. product-Entitled u id a p user asset private_asset product)))
    where
      read : downloads (asset_read id) ≡ downloads s
      read = other-downloads (RemoteCall.get_asset id) s refl

      again_same : downloads (product_read id a) ≡ downloads s
      again_same = other-downloads (RemoteCall.get_product a.product_id) (asset_read id) refl ∙ read

  -- Whatever statements fail and whatever the services answer, `GetAssetDownload` asks the media
  -- service for no address of a file and answers with an error, or it asks for one address, and then
  -- the user is logged in, the asset is private, and the user owns its product or has paid for it, by
  -- the answers of the services or by the gateway's own table.
  pub get_asset_download-Entitled : Leads (get_asset_download media orders request) s Entitled
  unfolding get_asset_download with_path_id download_known
  get_asset_download-Entitled =
      numbered-Leads s start (parse_uint 32 request.path_id)
        (λ id. with_user request.user (download_known media orders id))
        (λ id. with_user-Leads s start request.user (download_known media orders id) (λ u user.
          call-Leads (λ calls. media.asset calls id) _
            (λ x. with_answer x (download_asset media orders id u)) s
            (with_answer-Leads (asset_read id)
              (λ e. refuse-Entitled e (asset_read id) (other-downloads _ s refl))
              (media.asset s.calls id) (download_asset media orders id u)
              (λ a asset. asset-Entitled u id a user asset))))
    where
      start : (e : AppError) → Entitled (ok (error e)) s
      start e = refuse-Entitled e s refl
