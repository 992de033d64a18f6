-- ===== src/Tests/Accounts.antt =====
-- Accounts, sessions and credentials.
use Prim.Native.String.{◌++◌}
use triovexa.Prelude.{
  String, ℕ, true, refl, List, [], ◌∷◌, ◌++◌ as append, subst, some, ◌≡◌, get, put, arith, eq_iff,
  trim_space, show_int,
}
use triovexa.Domain.{User}
use triovexa.Storage.{MemoryStore, new_memory_store}
use triovexa.Storage.Accounts.{
  create_user, find_name, get_user, get_user_by_username, create_session,
}
use triovexa.World.{World, ok, final, ◌>>=◌, pure, fetch, or_fail, guard, modify, now, draw}
use triovexa.World.Ensures.{Ensures}
use triovexa.Accounts.{
  SessionGrant, login, logout, authenticate, token_hash, random_token, random_bytes, without_hash,
}
use triovexa.Accounts.Passwords.{
  encode_hash, key_of, verify_password, check_parts, check_parameters, check_key, scan_parameters,
  scan_digits, scan_more, same_bytes, split_dollar,
}
use triovexa.Accounts.Encoding.{verify_password-encode_hash}
use triovexa.Accounts.Sessions.{
  HasUniqueNames, create_user-HasUniqueNames, logout-authenticate, SignedIn, login-authenticate,
}
use triovexa.Secrets.{done, encrypt, decrypt}
use triovexa.Secrets.Seal.{decrypt-encrypt}
use triovexa.Tests.Scenario.{process, world_of}
use triovexa.Tests.Toys.{crypto, crypto-IsCrypto, aead, aead-IsAead, encode, decode_from}

abbrev ada : User
ada = record {
  id = "u";
  username = "ada";
  password_hash = encode_hash crypto (7 ∷ []) (key_of crypto "correct horse battery" (7 ∷ []));
  role = "operator";
  created_at = 5;
}

abbrev registered : MemoryStore
registered = record new_memory_store { users = ("u", ada) ∷ [] }

abbrev open_to_login : World
open_to_login = world_of registered

abbrev signed_in : World
signed_in = final (login process crypto 100 "ada" "correct horse battery" open_to_login)

abbrev grant : SessionGrant
grant = record { token = "token"; csrf_token = "token"; expires_at = 1100; user = without_hash ada }

verify_password-encode_hash_example :
    verify_password crypto "correct horse battery"
      (encode_hash crypto (7 ∷ 9 ∷ []) (key_of crypto "correct horse battery" (7 ∷ 9 ∷ [])))
    ≡ true
verify_password-encode_hash_example =
    verify_password-encode_hash crypto crypto-IsCrypto "correct horse battery" (7 ∷ 9 ∷ [])

nobody : HasUniqueNames (λ s. s) new_memory_store
unfolding new_memory_store get_user get
nobody = record { at = λ i j u v p q same. absurd (cc p) }

create_user-HasUniqueNames_example : HasUniqueNames (λ s. s) registered
unfolding create_user find_name new_memory_store put
create_user-HasUniqueNames_example =
    create_user-HasUniqueNames (λ s. s) ada new_memory_store registered refl nobody

logout-authenticate_example :
    Ensures
      (authenticate process crypto "token")
      (record (final (logout process crypto "token" signed_in)) { reads = 3 })
      (λ _ _. ⊥)
logout-authenticate_example =
    logout-authenticate process crypto "token" signed_in 3 (λ e. ground (arith, eq_iff "token" ""))

stored_by_name :
    (u : User)
    → get_user_by_username crypto.fold_case (trim_space "ada") open_to_login.store ≡ some u
    → get_user u.id open_to_login.store ≡ some u
unfolding get_user_by_username get_user find_name get trim_space
stored_by_name u h =
    let same : ada ≡ u = ground (arith, h) in
    subst (λ (x : User). get_user x.id open_to_login.store ≡ some x) same refl

verified : verify_password crypto "correct horse battery" ada.password_hash ≡ true
verified = verify_password-encode_hash crypto crypto-IsCrypto "correct horse battery" (7 ∷ [])

logged_in :
    login process crypto 100 "ada" "correct horse battery" open_to_login ≡ ok grant signed_in
unfolding login ◌>>=◌ fetch get_user_by_username find_name trim_space guard random_token
    random_bytes draw or_fail now modify create_session pure token_hash new_memory_store
    verify_password check_parts check_parameters check_key scan_parameters scan_digits scan_more
    encode_hash show_int same_bytes split_dollar decode_from put
logged_in = refl

login-authenticate_example : SignedIn process crypto grant (record signed_in { reads = 4 })
unfolding trim_space
login-authenticate_example =
    login-authenticate process crypto 100 "ada" "correct horse battery" open_to_login signed_in
      grant 4 logged_in stored_by_name (λ e. ground (arith, eq_iff "token" "")) (omega arith)
      (omega arith)

abbrev nonce : List ℕ
nonce = 1 ∷ 2 ∷ 3 ∷ 4 ∷ 5 ∷ 6 ∷ 7 ∷ 8 ∷ 9 ∷ 10 ∷ 11 ∷ 12 ∷ []

-- The encrypted credential.
abbrev locked : String
locked = "v1." ++ encode (append nonce (aead.seal (1 ∷ []) nonce (aead.bytes_of "secret")))

decrypt-encrypt_example : decrypt aead (some (1 ∷ [])) locked ≡ done (trim_space " secret ")
unfolding encrypt trim_space
decrypt-encrypt_example =
    decrypt-encrypt aead aead-IsAead (1 ∷ []) nonce refl " secret " locked refl
