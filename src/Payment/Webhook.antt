-- ===== src/Payment/Webhook.antt =====
-- services/payment-api/internal/webhook/handler.go: the webhook of the provider.
pub mod Authentic
use pingu_coin.Base.{
  ℕ, String, List, [], ◌∷◌, Bool, true, false, Option, none, some, ◌==◌, ◌&&◌, if◌then◌else◌,
}
use pingu_coin.Base.Text.{bytes}
use pingu_coin.Base.Store.{Result, ok, err, M, pure, ◌>>=◌, ◌>>◌, attempt}
use pingu_coin.Flow.{Codec}
use pingu_coin.Payment.Model.{PaymentStore}
use pingu_coin.Payment.Chain.{hex_decode}
use pingu_coin.Payment.Events.{ProviderEvent, handle_provider_event}

-- The statuses that the handler answers with.
pub data WebhookAnswer : Type 0 where
  no_content invalid_body bad_signature invalid_json server_error : WebhookAnswer

abbrev pub same_bytes : List ℕ → List ℕ → Bool
same_bytes [] [] = true
same_bytes [] (_ ∷ _) = false
same_bytes (_ ∷ _) [] = false
same_bytes (x ∷ xs) (y ∷ ys) = (x == y) && same_bytes xs ys

abbrev pub settled : Result (Unit {0}) → WebhookAnswer
settled (ok _) = no_content
settled (err _) = server_error

-- `hmac` is the authentication code of a body under the handler's secret, and `decode_event` is
-- `json.Unmarshal`.
module _ (sha256 : List ℕ → List ℕ) (codec : Codec) (hmac : List ℕ → List ℕ)
    (decode_event : List ℕ → Option ProviderEvent) where
  unfoldable pub receive_event : Option ProviderEvent → M PaymentStore WebhookAnswer
  unfolding handle_provider_event ◌>>=◌
  receive_event none = pure invalid_json
  receive_event (some event) = do
    r ← attempt (handle_provider_event sha256 codec event)
    pure (settled r)

  unfoldable pub check_signature : List ℕ → Option (List ℕ) → M PaymentStore WebhookAnswer
  unfolding receive_event
  check_signature body none = pure bad_signature
  check_signature body (some want) =
      if same_bytes want (hmac body) then receive_event (decode_event body) else pure bad_signature

  -- `ServeHTTP`: the body, at most 1 MiB of it, or `none` where reading it fails; and the header.
  unfoldable pub serve_webhook : Option (List ℕ) → String → M PaymentStore WebhookAnswer
  unfolding check_signature hex_decode bytes
  serve_webhook none signature = pure invalid_body
  serve_webhook (some body) signature = check_signature body (hex_decode (bytes signature))
