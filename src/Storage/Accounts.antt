-- ===== src/Storage/Accounts.antt =====
-- The users and sessions of internal/storage/memory.go. Two names are the same for strings.EqualFold
-- exactly if folding their case gives one text, so the folding is a parameter here.
use triovexa.Prelude.{
  String, [], ◌∷◌, Option, none, some, str_eq, ltb, if◌then◌else◌, Map, get, put, delete,
}
use triovexa.Domain.{Time, User, Session}
use triovexa.Storage.Store.{MemoryStore}

-- The first user in the map's order who has the name.
unfoldable pub find_name : (String → String) → String → Map User → Option User
find_name fold name [] = none
find_name fold name ((id, user) ∷ m) =
    if str_eq (fold user.username) (fold name) then some user else find_name fold name m

-- `none` is the error that the name exists.
unfoldable pub create_user : (String → String) → User → MemoryStore → Option MemoryStore
create_user fold user s = elim (find_name fold user.username s.users) [
  | some existing ↦ none
  | none ↦ some (record s { users = put user.id user s.users })
]

unfoldable pub get_user_by_username : (String → String) → String → MemoryStore → Option User
get_user_by_username fold name s = find_name fold name s.users

unfoldable pub get_user : String → MemoryStore → Option User
get_user id s = get id s.users

unfoldable pub create_session : Session → MemoryStore → MemoryStore
create_session session s = record s { sessions = put session.token_hash session s.sessions }

-- The session's end must lie after the reading of the clock.
unfoldable pub live_session : Time → Option Session → Option Session
live_session now none = none
live_session now (some session) = if ltb now session.expires_at then some session else none

unfoldable pub get_session : Time → String → MemoryStore → Option Session
unfolding live_session
get_session now token_hash s = live_session now (get token_hash s.sessions)

unfoldable pub delete_session : String → MemoryStore → MemoryStore
delete_session token_hash s = record s { sessions = delete token_hash s.sessions }
