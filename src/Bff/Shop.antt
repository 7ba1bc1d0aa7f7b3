-- ===== src/Bff/Shop.antt =====
-- services/bff in front of services/media-api: AdjustProductInventory of the gateway is answered by
-- the handler of media-api, on the tables that the calls before it have left.
pub mod Taken
pub mod Retried
pub mod Tests
use pingu_coin.Base.{ℕ, List, [], ◌∷◌, ◌++◌, none, ◌≡◌, refl}
use pingu_coin.Base.Store.{Result, ok, err, World, calm}
use pingu_coin.Base.Rpc.{Reply, reply, refuse}
use pingu_coin.Media.Model.{ProductInventory, MediaStore}
use pingu_coin.Media.Server.{adjust_inventory}
use pingu_coin.Media.Catalog.Model.{Product}
use pingu_coin.Bff.Errors.{no_status, status}
use pingu_coin.Bff.Backend.{
  RemoteCall, adjust_stock, StockRequest, PaymentRequest, PaymentMessage, Answer, answer, fault,
  Backend,
}

-- The handler of media-api on a call of the gateway, where no statement fails.
abbrev pub adjust : StockRequest → MediaStore → Result (Reply ProductInventory) × World MediaStore
adjust r m = adjust_inventory r.product_id r.amount r.reason r.idempotency_key (calm m)

-- The stock behind one call, and behind all of them.
unfoldable pub media_call : RemoteCall → MediaStore → MediaStore
media_call (adjust_stock r) m = (adjust r m).1.store
media_call _ m = m

unfoldable pub media_after : List RemoteCall → MediaStore → MediaStore
unfolding media_call
media_after [] m = m
media_after (c ∷ cs) m = media_after cs (media_call c m)

pub media_after-append :
    (cs : List RemoteCall) (c : RemoteCall) (m : MediaStore)
    → media_after (cs ++ c ∷ []) m ≡ media_call c (media_after cs m)
unfolding media_after
media_after-append [] c m = refl
media_after-append (x ∷ cs) c m = media_after-append cs c (media_call x m)

-- What the gateway's client of gRPC makes of the answer.
unfoldable pub stock_answer : Result (Reply ProductInventory) → Answer (Unit {0})
stock_answer (ok (reply _)) = answer tt
stock_answer (ok (refuse code text)) = fault (status code text none)
stock_answer (err _) = fault no_status

-- The services behind the gateway, with the stock `m` before its first call.
abbrev pub with_media :
    MediaStore
    → (List RemoteCall → ℕ → Answer Product)
    → (List RemoteCall → PaymentRequest → Answer PaymentMessage)
    → Backend
with_media m products payments = record {
  product = products;
  stock = λ calls r. stock_answer (adjust r (media_after calls m)).0;
  payment = payments;
}
