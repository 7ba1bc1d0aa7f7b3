-- ===== src/Payment/Samples.antt =====
-- Runs of the use case and the servers on a small shop.
use pingu_coin.Base.{◌++◌, find_first, inl, ◌==◌, false, [], ◌∷◌, some, ◌≡◌, refl, arith}
use pingu_coin.Base.Int.{pos, sub64}
use pingu_coin.Base.Text.{trim_space}
use pingu_coin.Base.Store.{ok, calm}
use pingu_coin.Base.Store.Laws.{Leads}
use pingu_coin.Payment.Calls.{ChargeResult, create_intent, refund}
use pingu_coin.Payment.Model.{
  Payment, Refund, PaymentStatus, PaymentSource, SourceStatus, PaymentStore, OutboxEvent,
  method_card,
}
use pingu_coin.Payment.Provider.{Provider, answered, decoded, http_result}
use pingu_coin.Payment.Rows.{refunded}
use pingu_coin.Payment.Command.{CreatePaymentCommand, validate}
use pingu_coin.Payment.Events.{order_of}
use pingu_coin.Payment.External.{create_stripe}
use pingu_coin.Payment.Create.{create_payment}
use pingu_coin.Payment.Create.Replay.{Replayed, create_payment-Replayed}
use pingu_coin.Payment.Create.Backed.{Backed, create_stripe-Backed}
use pingu_coin.Payment.Reconcile.{reconcile}
use pingu_coin.Payment.Reconcile.Settled.{Holds, reconcile-Holds}
use pingu_coin.Payment.Reconcile.Unpaid.{reconcile-unpaid}
use pingu_coin.Payment.Refunds.{RefundPaymentRequest, refund_payment}
use pingu_coin.Payment.Refunds.Completion.{asked, refund_payment-succeeds}
use pingu_coin.Payment.Refunds.Within.{Refunded}
use pingu_coin.Payment.Refunds.Bounded.{refund_payment-Refunded}
use pingu_coin.Base.Rpc.{reply}
use pingu_coin.Payment.Publisher.{publish_batch}
use pingu_coin.Payment.Publisher.Progress.{Sent, first_events, publish_batch-Sent}
use pingu_coin.Payment.Webhook.{serve_webhook}
use pingu_coin.Payment.Webhook.Authentic.{Guarded, serve_webhook-Guarded}
use pingu_coin.Payment.Tests.{toy}
use pingu_coin.Payment.Trials.{codec, purchase, card_payment, card_source, shop, success}

-- A provider that waits for the customer, whatever it is asked.
abbrev waiting : ChargeResult
waiting = record { id = "pi_1"; status = "requires_action"; action_url = "https://pay" }

abbrev slow : Provider
slow = record { answer = λ _ _ _. answered 200 (decoded waiting); quoted = λ t. t }

abbrev by_card : CreatePaymentCommand
by_card = record purchase { currency = "JPY"; payment_method = method_card }

create_payment-Replayed_example :
    Leads
      (create_payment toy codec slow "https://shop/purchases" 0 by_card)
      shop
      (Replayed card_payment shop)
unfolding validate trim_space
create_payment-Replayed_example =
    create_payment-Replayed toy codec slow "https://shop/purchases" 0 by_card shop card_payment refl
      refl

create_stripe-Backed_example :
    Leads
      (create_stripe toy codec slow "https://shop/purchases" by_card 0)
      shop
      (Backed toy codec slow "https://shop/purchases" by_card shop)
create_stripe-Backed_example =
    create_stripe-Backed toy codec slow "https://shop/purchases" by_card 0 shop

abbrev paid_payment : Payment
paid_payment = record card_payment { status = PaymentStatus.succeeded }

abbrev paid_shop : PaymentStore
paid_shop = record shop { payments = paid_payment ∷ [] }

reconcile-Holds_example :
    Leads (reconcile toy codec slow 9) paid_shop (λ _ t. Holds 1 paid_payment t)
reconcile-Holds_example = reconcile-Holds toy codec slow 1 paid_payment refl 9 paid_shop refl

abbrev pending_source : PaymentSource
pending_source = record card_source { status = SourceStatus.pending; order_payload = "{}" }

abbrev crashed_shop : PaymentStore
crashed_shop = record shop { sources = pending_source ∷ [] }

reconcile-unpaid_example :
    (t : PaymentStore) × (reconcile toy codec slow 9 (calm crashed_shop) ≡ (ok tt, calm t))
    × (find_first (λ (y : Payment). y.id == 1) t.payments
        ≡ some (record card_payment { status = PaymentStatus.succeeded }))
    × (t.sources
        ≡ record pending_source { status = SourceStatus.captured; provider_reference = "pi_1" }
          ∷ [])
    × (t.calls
        ≡ crashed_shop.calls
          ++ create_intent (record {
            amount = card_payment.amount;
            currency = card_payment.currency;
            idempotency_key = card_payment.idempotency_key;
            return_url = "";
            payment_method = "";
          })
            ∷ [])
unfolding order_of http_result
reconcile-unpaid_example =
    reconcile-unpaid toy codec slow crashed_shop pending_source card_payment waiting 9 refl refl
      (omega arith) refl refl refl refl refl refl

abbrev half : RefundPaymentRequest
half = record { payment_id = 1; amount = pos 200; reason = "damaged" }

refund_payment-Refunded_example :
    Leads (refund_payment toy slow half) paid_shop (Refunded half paid_shop paid_payment)
unfolding refunded
refund_payment-Refunded_example =
    refund_payment-Refunded toy slow half paid_shop paid_payment refl (omega arith, omega arith)
      (omega arith) (omega arith)

refund_payment-succeeds_example :
    (given : Refund) × (q : Payment) × (t : PaymentStore) × (refund_payment toy slow half
        (calm paid_shop)
      ≡ (ok (reply (given, q)), calm t))
    × Refunded half paid_shop paid_payment (ok (reply (given, q))) t
    × (t.calls
        ≡ paid_shop.calls ++ refund (asked toy slow half paid_shop paid_payment card_source) ∷ [])
unfolding http_result refunded sub64
refund_payment-succeeds_example =
    refund_payment-succeeds toy slow half paid_shop paid_payment card_source waiting refl refl refl
      (inl refl) refl refl refl refl (omega arith, omega arith) (omega arith) (omega arith)

abbrev waiting_event : OutboxEvent
waiting_event = record {
  id = 1;
  aggregate_id = 1;
  topic = "payment.succeeded";
  key = "k1";
  payload = "payment";
  attempts = 0;
  published = false;
}

abbrev announcing : PaymentStore
announcing = record shop { outbox = waiting_event ∷ []; next_event = 2 }

publish_batch-Sent_example :
    Leads publish_batch announcing (Sent (first_events announcing) announcing)
publish_batch-Sent_example = publish_batch-Sent announcing

serve_webhook-Guarded_example :
    Leads
      (serve_webhook toy codec toy (λ _. some success) (some (1 ∷ [])) "00ff")
      shop
      (Guarded toy codec toy (λ _. some success) (1 ∷ []) "00ff" shop)
serve_webhook-Guarded_example =
    serve_webhook-Guarded toy codec toy (λ _. some success) (1 ∷ []) "00ff" shop
