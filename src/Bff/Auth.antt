-- ===== src/Bff/Auth.antt =====
-- services/bff/internal/httpapi/middleware.go: the user of a request.
use pingu_coin.Base.{String, List, Bool, true, false, Option, none, some, if◌then◌else◌}
use pingu_coin.Base.Text.{◌is◌, trim_space, cut_prefix}
use pingu_coin.Base.Rpc.{Code}
use pingu_coin.Base.Store.{M, pure, ◌>>=◌}
use pingu_coin.Media.Catalog.Model.{User}
use pingu_coin.Bff.Errors.{RpcError, status}
use pingu_coin.Bff.Backend.{Claims, RemoteCall, Answer, answer, fault, BffStore, call}

-- Clerk, which checks a token for the id of its user, and knows an email and a name of a user; and the
-- users of the media service, given the calls before. `none` is an error.
pub record AuthClient : Type 0 where
  pub verify : String → Option String
  pub profile : String → Option (String × String)
  pub by_clerk_id : List RemoteCall → String → Answer User
  pub ensure : List RemoteCall → String → String → String → Answer User

-- `claimsFromPB`
unfoldable pub claims_from : User → Claims
claims_from u = record {
  user_id = u.id;
  clerk_user_id = u.clerk_user_id;
  email = u.email;
  name = u.name;
}

-- `status.Code(err) == codes.NotFound`
abbrev pub is_not_found : RpcError → Bool
is_not_found (status Code.not_found _ _) = true
is_not_found _ = false

abbrev pub claims_of : Answer User → Option Claims
claims_of (answer u) = some (claims_from u)
claims_of (fault _) = none

module _ (client : AuthClient) where
  unfoldable pub ensure_profile : String → Option (String × String) → M BffStore (Option Claims)
  unfolding call claims_from ◌>>=◌
  ensure_profile clerk none = pure none
  ensure_profile clerk (some (email, name)) = do
    a ←
        call (λ calls. client.ensure calls clerk email name)
          (RemoteCall.ensure_user clerk email name)
    pure (claims_of a)

  unfoldable pub resolve_answer : String → Answer User → M BffStore (Option Claims)
  unfolding claims_from ensure_profile
  resolve_answer clerk (answer u) = pure (some (claims_from u))
  resolve_answer clerk (fault e) =
      if is_not_found e then ensure_profile clerk (client.profile clerk) else pure none

  -- `resolveUser`: `none` is an error.
  unfoldable pub resolve_user : String → M BffStore (Option Claims)
  unfolding call resolve_answer ◌>>=◌
  resolve_user clerk = do
    a ← call (λ calls. client.by_clerk_id calls clerk) (RemoteCall.get_user_by_clerk_id clerk)
    resolve_answer clerk a

  abbrev bearer : Option String → String
  bearer none = ""
  bearer (some rest) = trim_space rest

  -- `extractBearerToken`, of the header `Authorization`.
  unfoldable pub extract_bearer_token : String → String
  unfolding cut_prefix trim_space
  extract_bearer_token header = bearer (cut_prefix header "Bearer ")

  unfoldable pub resolve_verified : Option String → M BffStore (Option Claims)
  unfolding resolve_user
  resolve_verified none = pure none
  resolve_verified (some clerk) = resolve_user clerk

  -- `WithOptionalAuth`: the user that the next handler sees.
  unfoldable pub optional_auth : String → M BffStore (Option Claims)
  unfolding extract_bearer_token resolve_verified
  optional_auth header =
      let token = extract_bearer_token header in
      if token is "" then pure none else resolve_verified (client.verify token)
