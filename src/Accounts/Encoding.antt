-- ===== src/Accounts/Encoding.antt =====
-- A password that was hashed by internal/auth/service.go is verified by it.
use Prim.Native.Char.{Char, code}
use Prim.Native.String.{◌++◌}
use Prim.Native.String.append
use triovexa.Prelude.{
  ℕ, ◌*◌, String, Bool, true, false, not, ◌&&◌, List, [], ◌∷◌, some, ◌≡◌, refl, ap, ◌∙◌, arith,
  ◌==◌, length, show_int,
}
use triovexa.Accounts.Passwords.{
  Crypto, split_dollar, same_bytes, dollar, key_of, encode_hash, check_key, check_parameters,
  check_parts, scan_parameters, scan_digits, scan_more, verify_password,
}

abbrev pub no_dollar : String → Bool
no_dollar String.[] = true
no_dollar (String.◌∷◌ c s) = not (code c == dollar) && no_dollar s

-- What base64.RawStdEncoding and argon2.IDKey are documented to do: a text decodes to the bytes it encodes,
-- the alphabet has no "$", and a key has the length that is asked for.
pub record IsCrypto (a : Crypto) : Type 0 where
  pub decodes : (bytes : List ℕ) → a.decode_std (a.encode_std bytes) ≡ some bytes
  pub in_alphabet : (bytes : List ℕ) → no_dollar (a.encode_std bytes) ≡ true
  pub key_length :
      (password : String) (salt : List ℕ) (iterations memory threads n : ℕ)
      → length (a.id_key password salt iterations memory threads n) ≡ n

split-dollar : (t : String) → split_dollar ("$" ++ t) ≡ "" ∷ split_dollar t
unfolding split_dollar
split-dollar t = ap split_dollar (append.cons "$" "" t ∙ ap (λ u. String.◌∷◌ "$" u) (append.nil t))

plain : (c : Char) (s : String) → no_dollar (String.◌∷◌ c s) ≡ true → (code c == dollar) ≡ false
plain c s h = ground (arith, h)

split_part : (s t : String) → no_dollar s ≡ true → split_dollar (s ++ "$" ++ t) ≡ s ∷ split_dollar t
unfolding split_dollar
split_part String.[] t h = ap split_dollar (append.nil ("$" ++ t)) ∙ split-dollar t
split_part (String.◌∷◌ c s) t h =
    ap split_dollar (append.cons c s ("$" ++ t))
    ∙ rw (plain c s h, split_part s t (ground (arith, h))) refl

split_last : (s : String) → no_dollar s ≡ true → split_dollar s ≡ s ∷ []
unfolding split_dollar
split_last String.[] h = refl
split_last (String.◌∷◌ c s) h = rw (plain c s h, split_last s (ground (arith, h))) refl

same_bytes_refl : (xs : List ℕ) → same_bytes xs xs ≡ true
unfolding same_bytes
same_bytes_refl [] = refl
same_bytes_refl (x ∷ xs) = ground (arith, same_bytes_refl xs)

module _ (a : Crypto) (known : IsCrypto a) (password : String) (salt : List ℕ) where
  -- The text of a password's hash has six parts.
  split-encode_hash :
      (hash : List ℕ)
      → split_dollar (encode_hash a salt hash)
        ≡ "" ∷ "argon2id" ∷ "v=19" ∷ "m=65536,t=3,p=2" ∷ a.encode_std salt ∷ a.encode_std hash ∷ []
  unfolding encode_hash show_int
  split-encode_hash hash =
      split_part "" _ refl
      ∙ ap (λ r. "" ∷ r)
          (split_part "argon2id" _ refl
            ∙ ap (λ r. "argon2id" ∷ r)
                (split_part "v=19" _ refl
                  ∙ ap (λ r. "v=19" ∷ r)
                      (split_part "m=65536,t=3,p=2" _ refl
                        ∙ ap (λ r. "m=65536,t=3,p=2" ∷ r)
                            (split_part (a.encode_std salt) _ (known.in_alphabet salt)
                              ∙ ap (λ r. a.encode_std salt ∷ r)
                                  (split_last (a.encode_std hash) (known.in_alphabet hash))))))

  parameters_read : scan_parameters "m=65536,t=3,p=2" ≡ some (65536, 3, 2)
  unfolding scan_parameters scan_digits scan_more
  parameters_read = refl

  key_accepted :
      check_key a password (65536, 3, 2) (some salt) (some (key_of a password salt)) ≡ true
  unfolding check_key
  key_accepted =
      rw (known.key_length password salt 3 (64 * 1024) 2 32)
        (same_bytes_refl (key_of a password salt))

  -- A password is verified against its own hash, whatever the salt, where base64 and argon2 do what they
  -- are documented to do.
  pub verify_password-encode_hash :
      verify_password a password (encode_hash a salt (key_of a password salt)) ≡ true
  unfolding verify_password check_parts check_parameters
  verify_password-encode_hash =
      rw
        (
          split-encode_hash (key_of a password salt),
          parameters_read,
          known.decodes salt,
          known.decodes (key_of a password salt),
        )
        key_accepted
