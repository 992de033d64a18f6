-- ===== src/Accounts.antt =====
-- internal/auth/service.go: accounts, logins and sessions.
pub mod Passwords
pub mod Encoding
pub mod Sessions
use Prim.Native.String.{len}
use triovexa.Prelude.{
  ℕ, String, Bool, true, false, not, ◌&&◌, ◌||◌, List, [], ◌∷◌, Option, none, some, str_eq, ltb,
  trim_space, to_lower, if◌then◌else◌, ◌+◌,
}
use triovexa.Domain.{Time, User, Session}
use triovexa.Failure.{
  invalid_credentials, weak_account, unknown_role, username_exists, random_failed,
}
use triovexa.Storage.Accounts.{
  create_user, get_user_by_username, get_user, create_session, get_session, delete_session,
}
use triovexa.World.{
  Env, M, ◌>>=◌, ◌>>◌, pure, fetch, or_fail, guard, modify, store_or_fail, now, new_id, draw,
}
use triovexa.Accounts.Passwords.{Crypto, key_of, encode_hash, verify_password}

-- SessionGrant.
pub record SessionGrant : Type 0 where
  pub token : String
  pub csrf_token : String
  pub expires_at : Time
  pub user : User

unfoldable pub valid_role : String → Bool
valid_role role = str_eq role "viewer" || str_eq role "operator" || str_eq role "admin"

-- `none` is the error that names the invalid role.
unfoldable pub parse_role : String → Option String
unfolding valid_role
parse_role value =
    if valid_role (to_lower (trim_space value)) then some (to_lower (trim_space value)) else none

-- The user as it is given out.
abbrev pub without_hash : User → User
without_hash user = record user { password_hash = "" }

module _ (env : Env) (a : Crypto) where
  unfoldable pub token_hash : String → String
  token_hash token = a.encode_url (a.sha256 token)

  unfoldable pub random_bytes : ℕ → M (List ℕ)
  random_bytes size = do bytes ← draw (λ n. a.random n size); or_fail bytes random_failed

  unfoldable pub random_token : ℕ → M String
  random_token size = do bytes ← random_bytes size; pure (a.encode_url bytes)

  unfoldable pub hash_password : String → M String
  hash_password password = do
    salt ← random_bytes 16
    pure (encode_hash a salt (key_of a password salt))

  abbrev pub new_user : String → String → String → String → Time → User
  new_user id username hash role at = record {
    id = id;
    username = username;
    password_hash = hash;
    role = role;
    created_at = at;
  }

  -- CreateUser of the service; the lengths are in bytes.
  unfoldable pub register_user : String → String → String → M User
  register_user username password role = do
    guard (not (ltb (len (trim_space username)) 3 || ltb (len password) 12)) weak_account
    guard (valid_role role) unknown_role
    hash ← hash_password password
    id ← new_id env
    at ← now env
    store_or_fail (create_user a.fold_case (new_user id (trim_space username) hash role at))
        username_exists
    pure (without_hash (new_user id (trim_space username) hash role at))

  abbrev pub session_of : Time → User → String → String → Time → Session
  session_of ttl user token csrf at = record {
    token_hash = token_hash token;
    user_id = user.id;
    csrf_hash = token_hash csrf;
    expires_at = at + ttl;
    created_at = at;
  }

  unfoldable pub login : Time → String → String → M SessionGrant
  login ttl username password = do
    user ← fetch (get_user_by_username a.fold_case (trim_space username)) invalid_credentials
    guard (verify_password a password user.password_hash) invalid_credentials
    token ← random_token 32
    csrf ← random_token 24
    at ← now env
    modify (create_session (session_of ttl user token csrf at))
    pure (record {
      token = token;
      csrf_token = csrf;
      expires_at = at + ttl;
      user = without_hash user;
    })

  -- The store reads the clock for itself, and then the service does.
  unfoldable pub authenticate : String → M (User × Session)
  authenticate token = do
    guard (not (str_eq (trim_space token) "")) invalid_credentials
    stored_at ← now env
    session ← fetch (get_session stored_at (token_hash token)) invalid_credentials
    at ← now env
    guard (ltb at session.expires_at) invalid_credentials
    user ← fetch (get_user session.user_id) invalid_credentials
    pure (without_hash user, session)

  unfoldable pub validate_csrf : Session → String → Bool
  validate_csrf session token = str_eq session.csrf_hash (token_hash token)

  unfoldable pub logout : String → M (Unit {0})
  logout token = if str_eq token "" then pure tt else modify (delete_session (token_hash token))
