-- ===== src/Payment/Provider.antt =====
-- services/payment-api/internal/paymentmethod/stripe.go: the client of the provider.
use pingu_coin.Base.{
  ℕ, String, List, [], ◌∷◌, ◌++◌, Bool, false, not, ◌&&◌, ◌||◌, ◌==◌, ◌/◌, leb, ltb, if◌then◌else◌,
}
use pingu_coin.Base.Text.{◌is◌, ◌<>◌, decimal}
use pingu_coin.Base.Store.{ok, M, pure, ◌>>=◌, ◌>>◌}
use pingu_coin.Payment.Calls.{
  ChargeRequest, ChargeResult, RefundRequest, ProviderCall, create_intent, capture, cancel, refund,
}
use pingu_coin.Payment.Model.{PaymentStore}

-- The body of an answer, decoded over a value that is there.
pub data Body : Type 0 where
  decoded : ChargeResult → Body
  undecodable : String → Body

-- What net/http gives: no answer, with the error's text, or a status and a body.
pub data HttpAnswer : Type 0 where
  unreachable : String → HttpAnswer
  answered : ℕ → Body → HttpAnswer

-- The provider: its answer to a call, given the calls before it and the value that the body is
-- decoded over; and `fmt`'s `%q`.
pub record Provider : Type 0 where
  pub answer : List ProviderCall → ProviderCall → ChargeResult → HttpAnswer
  pub quoted : String → String

-- The result of a call, or its error: whether it is a `PermanentError`, and its text.
pub data Posted : Type 0 where
  posted : ChargeResult → Posted
  failed : Bool → String → Posted

abbrev pub is_permanent_status : ℕ → Bool
is_permanent_status status = leb 400 status && ltb status 500 && not (status == 429)

abbrev pub body_result : Body → Posted
body_result (decoded r) = posted r
body_result (undecodable text) = failed false ("decode mock stripe response: " <> text)

unfoldable pub http_result : HttpAnswer → Posted
http_result (unreachable text) = failed false ("mock stripe request: " <> text)
http_result (answered status body) =
    if not (status / 100 == 2)
    then failed (is_permanent_status status) ("mock stripe returned HTTP " <> decimal status)
    else body_result body

abbrev pub no_result : ChargeResult
no_result = record { id = ""; status = ""; action_url = "" }

module _ (provider : Provider) where
  open provider use {answer, quoted}

  -- `post`: no statement of the database, so no fault of the driver meets it.
  unfoldable pub post : ProviderCall → ChargeResult → M PaymentStore Posted
  unfolding http_result
  post call value w = (
    ok (http_result (answer w.store.calls call value)),
    record w { store = record w.store { calls = w.store.calls ++ call ∷ [] } },
  )

  -- `Cancel`
  unfoldable pub cancel_intent : String → M PaymentStore Posted
  unfolding post
  cancel_intent id = post (cancel id) no_result

  -- `Refund`
  unfoldable pub refund_intent : RefundRequest → M PaymentStore Posted
  unfolding post
  refund_intent request = post (refund request) no_result

  -- `Charge` once the capture has been answered.
  unfoldable pub after_capture : String → Posted → M PaymentStore Posted
  unfolding cancel_intent ◌>>=◌
  after_capture id (failed permanent text) = do cancel_intent id; pure (failed permanent text)
  after_capture id (posted intent) =
      if intent.status is "succeeded"
      then pure (posted intent)
      else pure (failed false ("unexpected Stripe status " <> quoted intent.status))

  unfoldable pub capture_intent : ChargeResult → M PaymentStore Posted
  unfolding post after_capture ◌>>=◌
  capture_intent intent = do r ← post (capture intent.id) intent; after_capture intent.id r

  unfoldable pub after_intent : Posted → M PaymentStore Posted
  unfolding capture_intent
  after_intent (failed permanent text) = pure (failed permanent text)
  after_intent (posted intent) =
      if (intent.status is "requires_action") || (intent.status is "succeeded")
      then pure (posted intent)
      else capture_intent intent

  -- `Charge`
  unfoldable pub charge : ChargeRequest → M PaymentStore Posted
  unfolding post after_intent ◌>>=◌
  charge request = do r ← post (create_intent request) no_result; after_intent r
