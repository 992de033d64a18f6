-- ===== src/Secrets.antt =====
-- Cipher of internal/secretstore/cipher.go: credentials under AES-GCM.
pub mod Seal
use Prim.Native.String.{◌++◌}
use triovexa.Prelude.{
  ℕ, zero, suc, String, Bool, true, false, List, [], ◌∷◌, ◌++◌ as append, Option, none, some,
  str_eq, ◌==◌, leb, length, trim_space, has_prefix, if◌then◌else◌,
}

-- The libraries: AES-GCM under a key (seal and open with a nonce of twelve bytes), base64, the bytes of a
-- text, and the text of bytes.
pub record Aead : Type 0 where
  pub seal : List ℕ → List ℕ → List ℕ → List ℕ
  pub unseal : List ℕ → List ℕ → List ℕ → Option (List ℕ)
  pub encode_raw : List ℕ → String
  pub decode_raw : String → Option (List ℕ)
  pub decode_std : String → Option (List ℕ)
  pub bytes_of : String → List ℕ
  pub text_of : List ℕ → String

pub data SecretError : Type 0 where
  key_undecodable key_size key_file_unreadable : SecretError
  unavailable empty_credential : SecretError
  unsupported_version undecodable truncated refused decrypted_empty : SecretError

pub data Result (A : Type 0) : Type 0 where
  done : A → Result A
  failed_with : SecretError → Result A

abbrev pub nonce_size : ℕ
nonce_size = 12

abbrev pub key_length : ℕ
key_length = 32

abbrev pub cipher_prefix : String
cipher_prefix = "v1."

unfoldable pub take_bytes : ℕ → List ℕ → List ℕ
take_bytes zero xs = []
take_bytes (suc n) [] = []
take_bytes (suc n) (x ∷ xs) = x ∷ take_bytes n xs

unfoldable pub drop_bytes : ℕ → List ℕ → List ℕ
drop_bytes zero xs = xs
drop_bytes (suc n) [] = []
drop_bytes (suc n) (x ∷ xs) = drop_bytes n xs

-- strings.TrimPrefix, where the text has the prefix.
unfoldable pub drop_prefix : String → String → String
drop_prefix String.[] s = s
drop_prefix (String.◌∷◌ c p) String.[] = ""
drop_prefix (String.◌∷◌ c p) (String.◌∷◌ d s) = drop_prefix p s

module _ (a : Aead) where
  -- The test of NewCipher and of decodeKeyFile.
  unfoldable pub key_of_bytes : Option (List ℕ) → Result (List ℕ)
  key_of_bytes none = failed_with key_undecodable
  key_of_bytes (some raw) = if length raw == key_length then done raw else failed_with key_size

  unfoldable pub decode_key_file : String → Result (List ℕ)
  unfolding key_of_bytes
  decode_key_file content = key_of_bytes (a.decode_std (trim_space content))

  unfoldable pub loaded_key : Result (List ℕ) → Result (List ℕ)
  unfolding key_of_bytes
  loaded_key (failed_with e) = failed_with e
  loaded_key (done raw) = key_of_bytes (some raw)

  -- The setting's key, or else the one of the key file, which is what was read or made there.
  unfoldable pub new_cipher : Result (List ℕ) → String → Result (List ℕ)
  unfolding loaded_key key_of_bytes
  new_cipher loaded encoded_key =
      if str_eq (trim_space encoded_key) ""
      then loaded_key loaded
      else key_of_bytes (a.decode_std (trim_space encoded_key))

  -- The cipher may be missing; the nonce is fresh from crypto/rand.
  unfoldable pub encrypt : Option (List ℕ) → List ℕ → String → Result String
  encrypt none nonce plaintext = failed_with unavailable
  encrypt (some key) nonce plaintext =
      if str_eq (trim_space plaintext) ""
      then failed_with empty_credential
      else done (
          cipher_prefix
          ++ a.encode_raw (append nonce (a.seal key nonce (a.bytes_of (trim_space plaintext)))))

  unfoldable pub take_plaintext : Option (List ℕ) → Result String
  take_plaintext none = failed_with refused
  take_plaintext (some plaintext) =
      if str_eq (trim_space (a.text_of plaintext)) ""
      then failed_with decrypted_empty
      else done (trim_space (a.text_of plaintext))

  unfoldable pub open_payload : List ℕ → Option (List ℕ) → Result String
  unfolding take_plaintext take_bytes drop_bytes
  open_payload key none = failed_with undecodable
  open_payload key (some payload) =
      if leb (length payload) nonce_size
      then failed_with truncated
      else take_plaintext
          (a.unseal key (take_bytes nonce_size payload) (drop_bytes nonce_size payload))

  unfoldable pub decrypt : Option (List ℕ) → String → Result String
  unfolding open_payload drop_prefix
  decrypt none encoded = failed_with unavailable
  decrypt (some key) encoded =
      if has_prefix encoded cipher_prefix
      then open_payload key (a.decode_raw (drop_prefix cipher_prefix encoded))
      else failed_with unsupported_version
