-- ===== src/Payment/Webhook/Authentic.antt =====
-- Only a body whose signature is the authentication code under the secret has an effect.
use pingu_coin.Base.{
  ℕ, String, List, [], ◌∷◌, true, Option, none, some, ◌≡◌, ◌∙◌, refl, ap, ◌==◌, ==→eq, arith,
  Bool-cases, inl, inr, ◌⊎◌,
}
use pingu_coin.Base.Text.{bytes}
use pingu_coin.Base.Store.{Result, ok}
use pingu_coin.Base.Store.Laws.{Leads, leads_pure}
use pingu_coin.Flow.{Codec}
use pingu_coin.Payment.Model.{PaymentStore}
use pingu_coin.Payment.Chain.{hex_decode}
use pingu_coin.Payment.Events.{ProviderEvent}
use pingu_coin.Payment.Webhook.{
  WebhookAnswer, bad_signature, same_bytes, check_signature, serve_webhook,
}

same_bytes→eq : (xs ys : List ℕ) → same_bytes xs ys ≡ true → xs ≡ ys
same_bytes→eq [] [] h = refl
same_bytes→eq [] (y ∷ ys) h = ground arith
same_bytes→eq (x ∷ xs) [] h = ground arith
same_bytes→eq (x ∷ xs) (y ∷ ys) h = elim (Bool-cases (x == y)) [
  | inl same ↦ rw (==→eq x y same, same_bytes→eq xs ys (rw same at h)) refl
  | inr other ↦ ground arith
]

module _ (sha256 : List ℕ → List ℕ) (codec : Codec) (hmac : List ℕ → List ℕ)
    (decode_event : List ℕ → Option ProviderEvent) (body : List ℕ) (signature : String) where
  -- The rows are as they were and the request was not accepted, or the header is the code.
  abbrev pub Guarded : PaymentStore → Result WebhookAnswer → PaymentStore → Type 0
  Guarded s r t =
      ((r ≡ ok bad_signature) × (t ≡ s)) ⊎ (hex_decode (bytes signature) ≡ some (hmac body))

  checked-Guarded :
      (want : Option (List ℕ)) (s : PaymentStore)
      → hex_decode (bytes signature) ≡ want
      → Leads (check_signature sha256 codec hmac decode_event body want) s (Guarded s)
  unfolding check_signature
  checked-Guarded none s e = leads_pure (inl (refl, refl))
  checked-Guarded (some want) s e = elim (Bool-cases (same_bytes want (hmac body))) [
    | inl same ↦
        let code = same_bytes→eq want (hmac body) same in
        rw same (record { outcome = λ faults. inr (e ∙ ap some code) })
    | inr other ↦ rw other (leads_pure (inl (refl, refl)))
  ]

  -- Whatever statements fail, the webhook either answers that the signature is bad and changes
  -- nothing, or the header is the hexadecimal authentication code of the body under the secret.
  pub serve_webhook-Guarded :
      (s : PaymentStore)
      → Leads (serve_webhook sha256 codec hmac decode_event (some body) signature) s (Guarded s)
  unfolding serve_webhook
  serve_webhook-Guarded s = checked-Guarded (hex_decode (bytes signature)) s refl
