-- ===== src/Media/Catalog/Users.antt =====
-- services/media-api: internal/repository/user_repository.go and internal/grpcserver/user_server.go.
-- A deleted row is not found, and keeps its place in the unique index on `clerk_user_id`.
pub mod Deleted
use pingu_coin.Base.{
  ℕ, suc, String, List, [], ◌∷◌, ◌++◌, Bool, true, false, not, ◌&&◌, ◌==◌, if◌then◌else◌, select,
  find_first, exists, update_where,
}
use pingu_coin.Base.Text.{◌is◌, trim_space}
use pingu_coin.Base.Store.{
  Result, ok, err, is_missing, duplicated_key, M, pure, ◌>>=◌, statement, query, modify, found,
  attempt,
}
use pingu_coin.Base.Rpc.{reply}
use pingu_coin.Media.Server.{or_refused}
use pingu_coin.Media.Catalog.Model.{User, CatalogStore}
use pingu_coin.Media.Catalog.Products.{Handler, invalid, broken, with_result, with_found}

abbrev pub is_user : ℕ → User → Bool
is_user id u = u.id == id && not u.deleted

abbrev pub is_clerk_user : String → User → Bool
is_clerk_user clerk u = (u.clerk_user_id is clerk) && not u.deleted

abbrev pub has_clerk_id : String → User → Bool
has_clerk_id clerk u = u.clerk_user_id is clerk

abbrev pub is_kept : User → Bool
is_kept u = not u.deleted

-- `Create`
unfoldable pub insert_user : User → CatalogStore → Result User × CatalogStore
insert_user u s =
    let row = record u { id = s.next_user } in
    if exists (has_clerk_id u.clerk_user_id) s.users
    then (err duplicated_key, s)
    else (ok row, record s { users = s.users ++ row ∷ []; next_user = suc s.next_user })

-- `FindAll`
unfoldable pub find_users : M CatalogStore (List User)
find_users = query (λ s. ok (select is_kept s.users))

-- `FindByID`
unfoldable pub find_user : ℕ → M CatalogStore User
find_user id = query (λ s. found (find_first (is_user id) s.users))

-- `FindByClerkUserID`
unfoldable pub find_clerk_user : String → M CatalogStore User
find_clerk_user clerk = query (λ s. found (find_first (is_clerk_user clerk) s.users))

-- `Update`, of a row that was read.
unfoldable pub save_user : User → CatalogStore → CatalogStore
save_user u s = record s { users = update_where (λ x. x.id == u.id) (λ _. u) s.users }

-- `Delete`
unfoldable pub delete_user_row : ℕ → CatalogStore → CatalogStore
delete_user_row id s = record s {
  users = update_where (is_user id) (λ u. record u { deleted = true }) s.users;
}

-- `ListUsers`
unfoldable pub list_users : Handler (List User)
unfolding find_users ◌>>=◌
list_users = do r ← attempt find_users; pure (or_refused r)

-- `GetUser`
unfoldable pub get_user : ℕ → Handler User
unfolding find_user with_found ◌>>=◌
get_user id = do r ← attempt (find_user id); with_found "user" r (λ u. pure (reply u))

unfoldable pub clerk_user_found : String → Handler User
unfolding find_clerk_user with_found ◌>>=◌
clerk_user_found clerk = do
  r ← attempt (find_clerk_user clerk)
  with_found "user" r (λ u. pure (reply u))

-- `GetUserByClerkID`
unfoldable pub get_user_by_clerk_id : String → Handler User
unfolding trim_space clerk_user_found
get_user_by_clerk_id clerk =
    if trim_space clerk is ""
    then invalid "clerk_user_id is required"
    else clerk_user_found (trim_space clerk)

abbrev pub new_user : String → String → String → User
new_user clerk email name = record {
  id = 0;
  clerk_user_id = clerk;
  email = trim_space email;
  name = trim_space name;
  deleted = false;
}

unfoldable pub add_user : User → Handler User
unfolding insert_user ◌>>=◌
add_user u = do r ← attempt (statement (insert_user u)); pure (or_refused r)

unfoldable pub ensure_answer : String → String → String → Result User → Handler User
unfolding trim_space add_user
ensure_answer clerk email name (ok u) = pure (reply u)
ensure_answer clerk email name (err e) =
    if is_missing e then add_user (new_user clerk email name) else broken

unfoldable pub ensure_clerk_user : String → String → String → Handler User
unfolding find_clerk_user ensure_answer ◌>>=◌
ensure_clerk_user clerk email name = do
  r ← attempt (find_clerk_user clerk)
  ensure_answer clerk email name r

-- `EnsureUser`
unfoldable pub ensure_user : String → String → String → Handler User
unfolding trim_space ensure_clerk_user
ensure_user clerk email name =
    if trim_space clerk is ""
    then invalid "clerk_user_id is required"
    else ensure_clerk_user (trim_space clerk) email name

unfoldable pub write_user : User → Handler User
unfolding save_user with_result ◌>>=◌
write_user u = do r ← attempt (modify (save_user u)); with_result r (λ _. pure (reply u))

unfoldable pub rename_user : ℕ → String → Handler User
unfolding find_user with_found write_user ◌>>=◌
rename_user id name = do
  r ← attempt (find_user id)
  with_found "user" r (λ u. write_user (record u { name = name }))

-- `UpdateUser`
unfoldable pub update_user : ℕ → String → Handler User
unfolding trim_space rename_user
update_user id name =
    if trim_space name is "" then invalid "name is required" else rename_user id (trim_space name)

-- `DeleteUser`
unfoldable pub delete_user : ℕ → Handler (Unit {0})
unfolding delete_user_row ◌>>=◌
delete_user id = do r ← attempt (modify (delete_user_row id)); pure (or_refused r)
