-- ===== src/Accounts/Passwords.antt =====
-- hashPassword and verifyPassword of internal/auth/service.go.
use Prim.Native.Char.{Char, code}
use Prim.Native.String.{◌++◌}
use triovexa.Prelude.{
  ℕ, ◌+◌, ◌-◌, ◌*◌, ◌%◌, ◌^◌, String, Bool, true, false, not, ◌&&◌, List, [], ◌∷◌, Option, none,
  some, str_eq, leb, ltb, ◌==◌, if◌then◌else◌, length, show_int, is_space,
}

-- The parts of the libraries that the accounts use: strings.EqualFold by its folding of a name, SHA-256,
-- argon2.IDKey, base64 and crypto/rand, whose n-th answer is bytes of the asked number or an error.
pub record Crypto : Type 0 where
  pub fold_case : String → String
  pub sha256 : String → List ℕ
  pub id_key : String → List ℕ → ℕ → ℕ → ℕ → ℕ → List ℕ
  pub encode_url : List ℕ → String
  pub encode_std : List ℕ → String
  pub decode_std : String → Option (List ℕ)
  pub random : ℕ → ℕ → Option (List ℕ)

abbrev pub dollar : ℕ
dollar = 36

abbrev pub cons_first : Char → List String → List String
cons_first c [] = String.◌∷◌ c String.[] ∷ []
cons_first c (s ∷ parts) = String.◌∷◌ c s ∷ parts

-- strings.Split at "$".
unfoldable pub split_dollar : String → List String
split_dollar String.[] = "" ∷ []
split_dollar (String.◌∷◌ c s) =
    let rest = split_dollar s in if code c == dollar then "" ∷ rest else cons_first c rest

-- A literal of a format.
unfoldable pub expect : String → String → Option String
expect String.[] s = some s
expect (String.◌∷◌ c p) String.[] = none
expect (String.◌∷◌ c p) (String.◌∷◌ d s) = if code c == code d then expect p s else none

abbrev is_digit : Char → Bool
is_digit c = leb 48 (code c) && leb (code c) 57

-- The digits that follow others.
unfoldable pub scan_more : ℕ → String → ℕ × String
scan_more n String.[] = (n, "")
scan_more n (String.◌∷◌ c s) =
    let rest = scan_more (n * 10 + (code c - 48)) s in
    if is_digit c then rest else (n, String.◌∷◌ c s)

-- A number has a digit, and fits 64 bits.
unfoldable pub scan_digits : String → Option (ℕ × String)
scan_digits String.[] = none
scan_digits (String.◌∷◌ c s) =
    if is_digit c && ltb (scan_more (code c - 48) s).0 (2 ^ 64)
    then some (scan_more (code c - 48) s)
    else none

-- %d of fmt.Sscanf for a uint64: space before it is skipped, but no end of a line.
unfoldable pub scan_number : String → Option (ℕ × String)
unfolding is_space
scan_number String.[] = none
scan_number (String.◌∷◌ c s) =
    let rest = scan_number s in
    if is_space c then (if code c == 10 then none else rest) else scan_digits (String.◌∷◌ c s)

abbrev pub Parameters : Type 0
Parameters = ℕ × ℕ × ℕ

-- A literal, and then a number.
unfoldable pub scan_after : String → String → Option (ℕ × String)
unfolding scan_number expect
scan_after literal s = elim (expect literal s) [ none ↦ none | some rest ↦ scan_number rest ]

-- fmt.Sscanf with "m=%d,t=%d,p=%d"; what follows is not read.
unfoldable pub scan_parameters : String → Option Parameters
unfolding scan_after
scan_parameters s = elim (scan_after "m=" s) [
  | none ↦ none
  | some (m, s) ↦ elim (scan_after ",t=" s) [
    | none ↦ none
    | some (t, s) ↦ elim (scan_after ",p=" s) [ none ↦ none | some (p, s) ↦ some (m, t, p) ]
  ]
]

-- bytes.Equal.
unfoldable pub same_bytes : List ℕ → List ℕ → Bool
same_bytes [] [] = true
same_bytes (x ∷ xs) (y ∷ ys) = x == y && same_bytes xs ys
same_bytes _ _ = false

module _ (a : Crypto) where
  -- The key of a new password: three passes over 64 MiB in two threads.
  abbrev pub key_of : String → List ℕ → List ℕ
  key_of password salt = a.id_key password salt 3 (64 * 1024) 2 32

  unfoldable pub encode_hash : List ℕ → List ℕ → String
  encode_hash salt hash =
      ""
      ++ "$"
      ++ ("argon2id"
          ++ "$"
          ++ ("v=19"
              ++ "$"
              ++ (("m=" ++ show_int (64 * 1024) ++ ",t=" ++ show_int 3 ++ ",p=" ++ show_int 2)
                  ++ "$"
                  ++ (a.encode_std salt ++ "$" ++ a.encode_std hash))))

  unfoldable pub check_key : String → Parameters → Option (List ℕ) → Option (List ℕ) → Bool
  check_key password (memory, iterations, parallelism) (some salt) (some expected) =
      not (length expected == 0)
      && same_bytes
          (a.id_key password salt (iterations % 2 ^ 32) (memory % 2 ^ 32) (parallelism % 2 ^ 8)
            (length expected % 2 ^ 32))
          expected
  check_key password _ _ _ = false

  unfoldable pub check_parameters : String → Option Parameters → String → String → Bool
  unfolding check_key
  check_parameters password none salt hash = false
  check_parameters password (some p) salt hash =
      check_key password p (a.decode_std salt) (a.decode_std hash)

  unfoldable pub check_parts : String → List String → Bool
  unfolding check_parameters
  check_parts password (_ ∷ name ∷ _ ∷ parameters ∷ salt ∷ hash ∷ []) =
      if str_eq name "argon2id"
      then check_parameters password (scan_parameters parameters) salt hash
      else false
  check_parts password _ = false

  unfoldable pub verify_password : String → String → Bool
  unfolding check_parts
  verify_password password encoded = check_parts password (split_dollar encoded)
