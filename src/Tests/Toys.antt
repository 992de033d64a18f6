-- ===== src/Tests/Toys.antt =====
-- Codes that stand for base64, argon2 and AES-GCM in the tests: a number in unary, a key of zeros, and a tag
-- of sixteen zeros.
use Prim.Native.Char.{Char, char, code, nul, IsLt}
use Prim.Native.Nat.{Ordering, compare}
use triovexa.Prelude.{
  ℕ, zero, suc, ◌+◌, String, true, List, [], ◌∷◌, Option, none, some, ◌≡◌, refl, ap, ◌∙◌, arith,
  length, ◌==◌, if◌then◌else◌,
}
use triovexa.Accounts.Passwords.{Crypto}
use triovexa.Accounts.Encoding.{IsCrypto, no_dollar}
use triovexa.Secrets.{Aead, drop_bytes}
use triovexa.Secrets.Seal.{IsAead}

abbrev unary : ℕ → String → String
unary zero s = String.◌∷◌ "b" s
unary (suc n) s = String.◌∷◌ "a" (unary n s)

abbrev pub encode : List ℕ → String
encode [] = ""
encode (x ∷ xs) = unary x (encode xs)

abbrev push : ℕ → Option (List ℕ) → Option (List ℕ)
push n none = none
push n (some xs) = some (n ∷ xs)

unfoldable pub decode_from : ℕ → String → Option (List ℕ)
decode_from n String.[] = some []
decode_from n (String.◌∷◌ c s) =
    let more = decode_from (suc n) s in
    let next = decode_from 0 s in if code c == 97 then more else push n next

abbrev pub decode : String → Option (List ℕ)
decode s = decode_from 0 s

decode-unary : (n x : ℕ) (s : String) → decode_from n (unary x s) ≡ push (n + x) (decode_from 0 s)
unfolding decode_from
decode-unary n zero s = ap (λ k. push k (decode_from 0 s)) (omega arith)
decode-unary n (suc x) s =
    decode-unary (suc n) x s ∙ ap (λ k. push k (decode_from 0 s)) (omega arith)

pub decode-encode : (xs : List ℕ) → decode (encode xs) ≡ some xs
unfolding decode_from
decode-encode [] = refl
decode-encode (x ∷ xs) =
    decode-unary 0 x (encode xs) ∙ rw (decode-encode xs) (ap (λ k. some (k ∷ xs)) (omega arith))

unary-no_dollar : (x : ℕ) (s : String) → no_dollar s ≡ true → no_dollar (unary x s) ≡ true
unary-no_dollar zero s h = h
unary-no_dollar (suc x) s h = unary-no_dollar x s h

encode-no_dollar : (xs : List ℕ) → no_dollar (encode xs) ≡ true
encode-no_dollar [] = refl
encode-no_dollar (x ∷ xs) = unary-no_dollar x (encode xs) (encode-no_dollar xs)

abbrev zeros : ℕ → List ℕ
zeros zero = []
zeros (suc n) = 0 ∷ zeros n

length-zeros : (n : ℕ) → length (zeros n) ≡ n
length-zeros zero = refl
length-zeros (suc n) = omega (arith, length-zeros n)

abbrev pub crypto : Crypto
crypto = record {
  fold_case = λ s. s;
  sha256 = λ s. [];
  id_key = λ password salt iterations memory threads n. zeros n;
  encode_url = λ xs. "token";
  encode_std = encode;
  decode_std = decode;
  random = λ n size. some (7 ∷ []);
}

pub crypto-IsCrypto : IsCrypto crypto
crypto-IsCrypto = record {
  decodes = decode-encode;
  in_alphabet = encode-no_dollar;
  key_length = λ password salt iterations memory threads n. length-zeros n;
}

abbrev codes : String → List ℕ
codes String.[] = []
codes (String.◌∷◌ c s) = code c ∷ codes s

-- The tests of IsScalar.
abbrev BothLt : Ordering → Ordering → Type 0
BothLt Ordering.lt o = IsLt o
BothLt Ordering.eq _ = ⊥
BothLt Ordering.gt _ = ⊥

abbrev Scalar : Ordering → Ordering → Ordering → Type 0
Scalar Ordering.lt _ _ = Unit
Scalar Ordering.eq o p = BothLt o p
Scalar Ordering.gt o p = BothLt o p

-- A character where the tests are passed.
abbrev pick : (a b c : Ordering) → (Scalar a b c → Char) → Char
pick Ordering.lt b c k = k tt
pick Ordering.eq Ordering.lt Ordering.lt k = k tt
pick Ordering.eq b c k = nul
pick Ordering.gt Ordering.lt Ordering.lt k = k tt
pick Ordering.gt b c k = nul

pick_passed : (a b c : Ordering) (k : Scalar a b c → Char) (p : Scalar a b c) → pick a b c k ≡ k p
pick_passed Ordering.lt b c k p = refl
pick_passed Ordering.eq Ordering.lt Ordering.lt k p = refl
pick_passed Ordering.eq Ordering.lt Ordering.eq k p = absurd p
pick_passed Ordering.eq Ordering.lt Ordering.gt k p = absurd p
pick_passed Ordering.eq Ordering.eq c k p = absurd p
pick_passed Ordering.eq Ordering.gt c k p = absurd p
pick_passed Ordering.gt Ordering.lt Ordering.lt k p = refl
pick_passed Ordering.gt Ordering.lt Ordering.eq k p = absurd p
pick_passed Ordering.gt Ordering.lt Ordering.gt k p = absurd p
pick_passed Ordering.gt Ordering.eq c k p = absurd p
pick_passed Ordering.gt Ordering.gt c k p = absurd p

abbrev character : ℕ → Char
character n = pick (compare n 55296) (compare 57343 n) (compare n 1114112) λ p. char n p

character-code : (c : Char) → character (code c) ≡ c
character-code (char n p) =
    pick_passed (compare n 55296) (compare 57343 n) (compare n 1114112) (λ q. char n q) p

abbrev spelled : List ℕ → String
spelled [] = ""
spelled (x ∷ xs) = String.◌∷◌ (character x) (spelled xs)

spelled-codes : (s : String) → spelled (codes s) ≡ s
spelled-codes String.[] = refl
spelled-codes (String.◌∷◌ c s) = rw (character-code c, spelled-codes s) refl

abbrev pub aead : Aead
aead = record {
  seal = λ key nonce xs. 0 ∷ 0 ∷ 0 ∷ 0 ∷ 0 ∷ 0 ∷ 0 ∷ 0 ∷ 0 ∷ 0 ∷ 0 ∷ 0 ∷ 0 ∷ 0 ∷ 0 ∷ 0 ∷ xs;
  unseal = λ key nonce xs. some (drop_bytes 16 xs);
  encode_raw = encode;
  decode_raw = decode;
  decode_std = decode;
  bytes_of = codes;
  text_of = spelled;
}

pub aead-IsAead : IsAead aead
unfolding drop_bytes
aead-IsAead = record {
  opens = λ key nonce xs. refl;
  sealed_length = λ key nonce xs. omega arith;
  decodes = decode-encode;
  reads = spelled-codes;
}
