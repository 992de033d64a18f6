-- ===== src/Prelude/Text.antt =====
-- Text as Go's strings package treats it.
use Prim.Native.Char.{Char, code, nul}
use Prim.Native.String.{String, ◌++◌}
use mathlib.Core.List.{List, [], ◌∷◌}
use Prim.Native.Nat.{ℕ, zero, suc, ◌+◌, ◌-◌, ◌/◌, ◌%◌}
use mathlib.Core.Bool.{true, false, Bool, ◌&&◌, ◌||◌}
use text.Mathlib.Text.{◌==◌}
use triovexa.Prelude.Tests.{leb, ◌==◌ as nat_eq, if◌then◌else◌}

abbrev pub str_eq : String → String → Bool
str_eq s t = s == t

-- unicode.IsSpace.
unfoldable pub is_space : Char → Bool
is_space c =
    (leb 9 (code c) && leb (code c) 13)
    || nat_eq (code c) 32
    || nat_eq (code c) 0x85
    || nat_eq (code c) 0xa0
    || nat_eq (code c) 0x1680
    || (leb 0x2000 (code c) && leb (code c) 0x200a)
    || nat_eq (code c) 0x2028
    || nat_eq (code c) 0x2029
    || nat_eq (code c) 0x202f
    || nat_eq (code c) 0x205f
    || nat_eq (code c) 0x3000

-- Trailing space is dropped: a space survives only before something that survives.
unfoldable pub trim_right : String → String
unfolding is_space
trim_right String.[] = String.[]
trim_right (String.◌∷◌ c s) =
    let rest = trim_right s in if is_space c && (rest == "") then String.[] else String.◌∷◌ c rest

unfoldable pub trim_left : String → String
unfolding is_space
trim_left String.[] = String.[]
trim_left (String.◌∷◌ c s) = if is_space c then trim_left s else String.◌∷◌ c s

-- strings.TrimSpace.
unfoldable pub trim_space : String → String
unfolding trim_left trim_right
trim_space s = trim_right (trim_left s)

-- The lower-case letter of a letter of ASCII, and of the two other characters that fold to one.
fold_code : Char → ℕ
fold_code c =
    if leb 65 (code c) && leb (code c) 90
    then code c + 32
    else if nat_eq (code c) 0x17f
    then 115
    else if nat_eq (code c) 0x212a
    then 107
    else code c

-- strings.EqualFold, where the second text is of ASCII.
unfoldable pub equal_fold : String → String → Bool
unfolding fold_code
equal_fold String.[] String.[] = true
equal_fold String.[] (String.◌∷◌ d t) = false
equal_fold (String.◌∷◌ c s) String.[] = false
equal_fold (String.◌∷◌ c s) (String.◌∷◌ d t) = nat_eq (fold_code c) (fold_code d) && equal_fold s t

-- strings.Join with a NUL byte between the parts.
unfoldable pub join : List String → String
join [] = ""
join (x ∷ []) = x
join (x ∷ y ∷ ys) = x ++ "\0" ++ join (y ∷ ys)

-- The character at a place of a text.
char_at : String → ℕ → Char
char_at String.[] n = nul
char_at (String.◌∷◌ c s) zero = c
char_at (String.◌∷◌ c s) (suc n) = char_at s n

-- strings.ToLower, exact on the characters whose lower-case letter is of ASCII; other characters, which
-- no text of the program contains, are kept.
to_lower_char : Char → Char
unfolding char_at
to_lower_char c =
    if leb 65 (code c) && leb (code c) 90
    then char_at "abcdefghijklmnopqrstuvwxyz" (code c - 65)
    else if nat_eq (code c) 0x130
    then char_at "i" 0
    else if nat_eq (code c) 0x212a
    then char_at "k" 0
    else c

unfoldable pub to_lower : String → String
unfolding to_lower_char
to_lower String.[] = String.[]
to_lower (String.◌∷◌ c s) = String.◌∷◌ (to_lower_char c) (to_lower s)

-- strings.HasPrefix.
unfoldable pub has_prefix : String → String → Bool
has_prefix s String.[] = true
has_prefix String.[] (String.◌∷◌ d t) = false
has_prefix (String.◌∷◌ c s) (String.◌∷◌ d t) = nat_eq (code c) (code d) && has_prefix s t

-- strings.Contains.
unfoldable pub text_contains : String → String → Bool
unfolding has_prefix
text_contains String.[] t = has_prefix String.[] t
text_contains (String.◌∷◌ c s) t = has_prefix (String.◌∷◌ c s) t || text_contains s t

rest_of : ℕ → String → String
rest_of n rest = if leb n 9 then String.[] else rest

-- The decimal digits of a number; the first argument bounds how many there are.
unfoldable pub show_digits : ℕ → ℕ → String
unfolding char_at rest_of
show_digits zero n = ""
show_digits (suc fuel) n =
    let rest = show_digits fuel (n / 10) in
    rest_of n rest ++ String.◌∷◌ (char_at "0123456789" (n % 10)) String.[]

-- fmt's %d for an int64 that is not negative: it has at most nineteen digits.
unfoldable pub show_int : ℕ → String
unfolding show_digits
show_int n = show_digits 19 n

-- strings.TrimRight with a slash: a slash survives only before something that survives.
unfoldable pub trim_slashes : String → String
trim_slashes String.[] = String.[]
trim_slashes (String.◌∷◌ c s) =
    let rest = trim_slashes s in
    if nat_eq (code c) 47 && (rest == "") then String.[] else String.◌∷◌ c rest
