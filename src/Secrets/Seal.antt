-- ===== src/Secrets/Seal.antt =====
-- What internal/secretstore/cipher.go encrypts it decrypts.
use Prim.Native.Char.{Char}
use Prim.Native.String.{◌++◌}
use Prim.Native.String.append
use triovexa.Prelude.{
  ℕ, ◌+◌, String, true, false, ◌&&◌, List, [], ◌∷◌, ◌++◌ as append, some, ◌≡◌, refl, sym, subst, ap,
  ◌∙◌, inl, inr, Bool-cases, arith, str_eq, leb, length, length-append, trim_space, trim_left,
  trim_right, is_space, has_prefix,
}
use triovexa.Secrets.{
  Aead, done, nonce_size, cipher_prefix, take_bytes, drop_bytes, drop_prefix, encrypt, decrypt,
  open_payload, take_plaintext,
}

trim_right_idem : (s : String) → trim_right (trim_right s) ≡ trim_right s
unfolding trim_right
trim_right_idem String.[] = refl
trim_right_idem (String.◌∷◌ c s) = elim (Bool-cases (is_space c && str_eq (trim_right s) "")) [
  | inl e ↦ rw (e, trim_right) refl
  | inr e ↦ rw (e, trim_right_idem s, e) refl
]

trim_left-kept :
    (c : Char) (s : String) → is_space c ≡ false → trim_left (String.◌∷◌ c s) ≡ String.◌∷◌ c s
unfolding trim_left
trim_left-kept c s e = rw e refl

trim_right-kept :
    (c : Char) (s : String)
    → is_space c ≡ false
    → trim_right (String.◌∷◌ c s) ≡ String.◌∷◌ c (trim_right s)
unfolding trim_right
trim_right-kept c s e = rw e refl

-- Trimming on the right keeps what trimming on the left left.
trim_left-trim_right :
    (s : String) → trim_left (trim_right (trim_left s)) ≡ trim_right (trim_left s)
unfolding trim_left trim_right
trim_left-trim_right String.[] = refl
trim_left-trim_right (String.◌∷◌ c s) = elim (Bool-cases (is_space c)) [
  | inl e ↦ rw (e, trim_left) (trim_left-trim_right s)
  | inr e ↦
      let kept : trim_left (String.◌∷◌ c s) ≡ String.◌∷◌ c s = trim_left-kept c s e in
      ap (λ t. trim_left (trim_right t)) kept
      ∙ ap trim_left (trim_right-kept c s e)
      ∙ trim_left-kept c (trim_right s) e
      ∙ sym (ap trim_right kept ∙ trim_right-kept c s e)
]

trim_space_idem : (s : String) → trim_space (trim_space s) ≡ trim_space s
unfolding trim_space
trim_space_idem s = ap trim_right (trim_left-trim_right s) ∙ trim_right_idem (trim_left s)

has_prefix-append : (p s : String) → has_prefix (p ++ s) p ≡ true
unfolding has_prefix
has_prefix-append String.[] s = refl
has_prefix-append (String.◌∷◌ c p) s =
    ap (λ t. has_prefix t (String.◌∷◌ c p)) (append.cons c p s)
    ∙ ground (arith, has_prefix-append p s)

drop_prefix-append : (p s : String) → drop_prefix p (p ++ s) ≡ s
unfolding drop_prefix
drop_prefix-append String.[] s = append.nil s
drop_prefix-append (String.◌∷◌ c p) s =
    ap (drop_prefix (String.◌∷◌ c p)) (append.cons c p s) ∙ drop_prefix-append p s

take_bytes-append : (xs ys : List ℕ) → take_bytes (length xs) (append xs ys) ≡ xs
unfolding take_bytes
take_bytes-append [] ys = refl
take_bytes-append (x ∷ xs) ys = ap (λ zs. x ∷ zs) (take_bytes-append xs ys)

drop_bytes-append : (xs ys : List ℕ) → drop_bytes (length xs) (append xs ys) ≡ ys
unfolding drop_bytes
drop_bytes-append [] ys = refl
drop_bytes-append (x ∷ xs) ys = drop_bytes-append xs ys

-- What AES-GCM, base64 and Go's texts are documented to do.
pub record IsAead (a : Aead) : Type 0 where
  pub opens :
      (key nonce plaintext : List ℕ)
      → a.unseal key nonce (a.seal key nonce plaintext) ≡ some plaintext
  pub sealed_length :
      (key nonce plaintext : List ℕ) → length (a.seal key nonce plaintext) ≡ length plaintext + 16
  pub decodes : (bytes : List ℕ) → a.decode_raw (a.encode_raw bytes) ≡ some bytes
  pub reads : (t : String) → a.text_of (a.bytes_of t) ≡ t

module _ (a : Aead) (known : IsAead a) (key nonce : List ℕ) (size : length nonce ≡ nonce_size) where
  -- The sealed text, and the nonce before it.
  abbrev sealed : String → List ℕ
  sealed p = a.seal key nonce (a.bytes_of (trim_space p))

  abbrev payload : String → List ℕ
  payload p = append nonce (sealed p)

  payload_long : (p : String) → leb (length (payload p)) nonce_size ≡ false
  payload_long p = ground (
    arith,
    length-append nonce (sealed p),
    known.sealed_length key nonce (a.bytes_of (trim_space p)),
    size,
  )

  nonce_taken : (ys : List ℕ) → take_bytes nonce_size (append nonce ys) ≡ nonce
  nonce_taken ys =
      subst (λ n. take_bytes n (append nonce ys) ≡ nonce) size (take_bytes-append nonce ys)

  nonce_dropped : (ys : List ℕ) → drop_bytes nonce_size (append nonce ys) ≡ ys
  nonce_dropped ys =
      subst (λ n. drop_bytes n (append nonce ys) ≡ ys) size (drop_bytes-append nonce ys)

  plaintext_taken :
      (p : String)
      → str_eq (trim_space p) "" ≡ false
      → take_plaintext a (some (a.bytes_of (trim_space p))) ≡ done (trim_space p)
  unfolding take_plaintext
  plaintext_taken p e = rw (known.reads (trim_space p), trim_space_idem p, e) refl

  payload_opened :
      (p : String)
      → str_eq (trim_space p) "" ≡ false
      → open_payload a key (some (payload p)) ≡ done (trim_space p)
  unfolding open_payload
  payload_opened p e =
      rw
        (
          payload_long p,
          nonce_taken (sealed p),
          nonce_dropped (sealed p),
          known.opens key nonce (a.bytes_of (trim_space p)),
        )
        (plaintext_taken p e)

  decrypted :
      (p : String)
      → str_eq (trim_space p) "" ≡ false
      → decrypt a (some key) (cipher_prefix ++ a.encode_raw (payload p)) ≡ done (trim_space p)
  unfolding decrypt
  decrypted p e =
      rw
        (
          has_prefix-append cipher_prefix (a.encode_raw (payload p)),
          drop_prefix-append cipher_prefix (a.encode_raw (payload p)),
          known.decodes (payload p),
        )
        (payload_opened p e)

  -- A credential that was encrypted is decrypted with the same key, whatever the nonce of twelve bytes, to
  -- the credential without the space around it, where AES-GCM and base64 do what they are documented to do.
  pub decrypt-encrypt :
      (plaintext encoded : String)
      → encrypt a (some key) nonce plaintext ≡ done encoded
      → decrypt a (some key) encoded ≡ done (trim_space plaintext)
  unfolding encrypt
  decrypt-encrypt plaintext encoded h = elim (Bool-cases (str_eq (trim_space plaintext) "")) [
    | inl e ↦ absurd (ground (arith, e, h))
    | inr e ↦
        let sent : cipher_prefix ++ a.encode_raw (payload plaintext) ≡ encoded =
          ground (arith, e, h) in
        subst (λ t. decrypt a (some key) t ≡ done (trim_space plaintext)) sent
          (decrypted plaintext e)
  ]
