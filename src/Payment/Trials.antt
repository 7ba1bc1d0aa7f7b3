-- ===== src/Payment/Trials.antt =====
-- Runs of payments and webhooks on small tables.
use pingu_coin.Base.{suc, ◌<◌, ◌^◌, [], ◌∷◌, none, some, ◌≡◌, refl, arith, length}
use pingu_coin.Base.Int.{pos}
use pingu_coin.Base.Store.{ok, calm}
use pingu_coin.Base.Store.Laws.{Leads}
use pingu_coin.Flow.{Codec, OrderCreated}
use pingu_coin.Payment.Model.{
  Payment, PaymentStatus, PaymentSource, SourceStatus, PaymentStore, method_card, method_point,
  purpose_purchase,
}
use pingu_coin.Payment.Points.{place, seal}
use pingu_coin.Payment.Points.Audit.{entries}
use pingu_coin.Payment.Command.{CreatePaymentCommand}
use pingu_coin.Payment.Events.{ProviderEvent, handle_provider_event, order_of}
use pingu_coin.Payment.PointPayment.{pay_points}
use pingu_coin.Payment.Paid.{Pays, pay_points-Pays}
use pingu_coin.Payment.Once.{Settled, handle_provider_event-Settled}
use pingu_coin.Payment.Once.Delivery.{Fresh, Delivered, success-Delivered}
use pingu_coin.Payment.Tests.{toy, toy-IsDigest, seven, nobody, first_row}

abbrev order : OrderCreated
order = record {
  order_id = 5;
  user_id = 7;
  product_id = 3;
  quantity = pos 1;
  unit_price = pos 400;
  total_amount = pos 400;
  payment_method = method_card;
  currency = "JPY";
  idempotency_key = "k1";
}

-- A codec whose texts are not looked at.
abbrev pub codec : Codec
codec = record {
  encode_order = λ o. "order";
  decode_order = λ t. some order;
  encode_inventory = λ r. "inventory";
  decode_inventory = λ t. none;
  encode_payment = λ r. "payment";
  decode_payment = λ t. none;
}

abbrev pub purchase : CreatePaymentCommand
purchase = record {
  user_id = 7;
  product_id = 3;
  amount = pos 400;
  currency = "POINT";
  payment_method = method_point;
  idempotency_key = "k1";
  order = some order;
  purpose = purpose_purchase;
}

-- User 7 has 500 points.
abbrev saver : PaymentStore
saver = record nobody {
  accounts = record { user_id = 7; balance = pos 500 } ∷ [];
  transactions = first_row ∷ [];
  next_transaction = 2;
}

saver-room : suc (length (entries 7 saver)) < 2 ^ 64
unfolding place seal
saver-room = omega arith

pay_points-Pays_example :
    Leads
      (pay_points toy codec purchase)
      saver
      (Pays toy toy-IsDigest codec purchase saver seven saver-room)
pay_points-Pays_example = pay_points-Pays toy toy-IsDigest codec purchase saver seven saver-room

abbrev pub card_payment : Payment
card_payment = record {
  id = 1;
  user_id = 7;
  product_id = 3;
  amount = pos 400;
  currency = "JPY";
  payment_method = method_card;
  purpose = purpose_purchase;
  status = PaymentStatus.processing;
  idempotency_key = "k1";
}

abbrev pub card_source : PaymentSource
card_source = record {
  id = 1;
  payment_id = 1;
  provider = "stripe";
  provider_reference = "pi_1";
  status = SourceStatus.authorized;
  failure_reason = "";
  action_url = "https://pay";
  order_payload = "order";
  created_at = 0;
}

abbrev pub shop : PaymentStore
shop = record nobody {
  payments = card_payment ∷ [];
  next_payment = 2;
  sources = card_source ∷ [];
  next_source = 2;
}

abbrev pub success : ProviderEvent
success = record { id = "evt_1"; type = "payment_intent.succeeded"; charge_id = "pi_1" }

abbrev cancellation : ProviderEvent
cancellation = record { id = "evt_2"; type = "payment_intent.canceled"; charge_id = "pi_1" }

success-Fresh : Fresh toy codec success shop card_source card_payment order
unfolding order_of
success-Fresh = record {
  named = refl;
  source_found = refl;
  payment_found = refl;
  unseen = refl;
  processed = refl;
  ordered = refl;
}

cancellation-Fresh : Fresh toy codec cancellation shop card_source card_payment order
unfolding order_of
cancellation-Fresh = record {
  named = refl;
  source_found = refl;
  payment_found = refl;
  unseen = refl;
  processed = refl;
  ordered = refl;
}

handle_provider_event-Settled_example :
    Leads (handle_provider_event toy codec success) shop (Settled toy codec success shop)
handle_provider_event-Settled_example = handle_provider_event-Settled toy codec success shop

success-Delivered_example :
    (t : PaymentStore) × (handle_provider_event toy codec success (calm shop) ≡ (ok tt, calm t))
    × Delivered toy codec success shop card_source card_payment order t
success-Delivered_example =
    success-Delivered toy codec success shop card_source card_payment order success-Fresh refl refl
