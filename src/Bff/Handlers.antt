-- ===== src/Bff/Handlers.antt =====
-- What the handlers of services/bff/internal/httpapi share: catalog_handler.go, `pathID`, `queryID`,
-- `decodeBody` and `authenticated`; each hands what it reads to the rest of the handler.
use pingu_coin.Base.{ℕ, String, zero, suc, Option, none, some, if◌then◌else◌}
use pingu_coin.Base.Text.{◌is◌, ◌<>◌, parse_uint}
use pingu_coin.Base.Store.{M, pure}
use pingu_coin.Bff.Errors.{AppError, invalid_error, login_error, from_grpc}
use pingu_coin.Bff.Backend.{Claims, Response, error, Answer, answer, fault, BffStore}

-- A handler that answers with an `A`.
abbrev pub Handler : Type 0 → Type 0
Handler A = M BffStore (Response A)

module _ {A : Type 0} where
  abbrev pub refuse_with : AppError → Handler A
  refuse_with e = pure (error e)

  unfoldable pub numbered : Option ℕ → (ℕ → Handler A) → Handler A
  numbered none next = refuse_with (invalid_error "invalid id")
  numbered (some zero) next = refuse_with (invalid_error "invalid id")
  numbered (some (suc n)) next = next (suc n)

  -- `pathID`
  unfoldable pub with_path_id : String → (ℕ → Handler A) → Handler A
  unfolding numbered parse_uint
  with_path_id text next = numbered (parse_uint 32 text) next

  queried : String → Option ℕ → (Option ℕ → Handler A) → Handler A
  queried name none next = refuse_with (invalid_error ("invalid " <> name))
  queried name (some n) next = next (some n)

  -- `queryID`, of the text that the query has under the name.
  unfoldable pub with_query_id : String → String → (Option ℕ → Handler A) → Handler A
  unfolding queried parse_uint
  with_query_id name raw next =
      if raw is "" then next none else queried name (parse_uint 32 raw) next

  -- `authenticated`
  unfoldable pub with_user : Option Claims → (Claims → Handler A) → Handler A
  with_user none next = refuse_with (login_error "login is required")
  with_user (some u) next = next u

  -- `decodeBody`
  unfoldable pub with_body : {B : Type 0} → Option B → (B → Handler A) → Handler A
  with_body none next = refuse_with (invalid_error "invalid JSON body")
  with_body (some b) next = next b

  -- `if err != nil { writeError(w, r, apperr.FromGRPC(err)); return }`
  unfoldable pub with_answer : {B : Type 0} → Answer B → (B → Handler A) → Handler A
  unfolding from_grpc
  with_answer (answer b) next = next b
  with_answer (fault e) next = refuse_with (from_grpc e)
