-- ===== src/Base/Text.antt =====
-- The text functions of Go's `strings` package that the program calls, over code points.
use Prim.Native.Char.{Char, code}
use Prim.Native.String
use Prim.Native.String.{String}
use gxydb_api.Base.{
  ℕ, ◌+◌, Bool, true, false, ◌&&◌, ◌||◌, List, [], ◌∷◌, reverse, leb, ltb, ◌==◌, nat_eq,
  if◌then◌else◌,
}

abbrev pub chars : String → List Char
chars String.[] = []
chars (String.◌∷◌ c s) = c ∷ chars s

abbrev pub of_chars : List Char → String
of_chars [] = String.[]
of_chars (c ∷ s) = String.◌∷◌ c (of_chars s)

-- `unicode.IsSpace`.
abbrev pub is_space : ℕ → Bool
is_space c =
    (leb 9 c && leb c 13)
    || c == 32
    || c == 0x85
    || c == 0xa0
    || c == 0x1680
    || (leb 0x2000 c && leb c 0x200a)
    || c == 0x2028
    || c == 0x2029
    || c == 0x202f
    || c == 0x205f
    || c == 0x3000

abbrev drop_spaces : List Char → List Char
drop_spaces [] = []
drop_spaces (c ∷ s) = let rest = drop_spaces s in if is_space (code c) then rest else c ∷ s

-- `strings.TrimSpace`.
unfoldable pub trim_space : String → String
trim_space s = of_chars (reverse (drop_spaces (reverse (drop_spaces (chars s)))))

abbrev pub split_from : ℕ → List Char → List Char → List String
split_from sep word [] = of_chars (reverse word) ∷ []
split_from sep word (c ∷ s) =
    let closed = of_chars (reverse word) ∷ split_from sep [] s in
    let longer = split_from sep (c ∷ word) s in if code c == sep then closed else longer

-- `strings.Split` at a separator of one character.
unfoldable pub split : ℕ → String → List String
split sep s = split_from sep [] (chars s)

abbrev lower : ℕ → ℕ
lower c = if leb b'A' c && leb c b'Z' then c + 32 else c

abbrev folds_to : List Char → List Char → Bool
folds_to [] [] = true
folds_to (c ∷ s) (d ∷ t) = lower (code c) == code d && folds_to s t
folds_to _ _ = false

-- `strings.ToLower(s) == t` for a `t` of the letters b, e, a and r, to which `ToLower` maps no
-- character but theirs of ASCII.
unfoldable pub lower_is : String → String → Bool
lower_is s t = folds_to (chars s) (chars t)

abbrev pub append : String → String → String
append s t = String.◌++◌ s t

-- `len(s)`: the bytes of the text in UTF-8.
abbrev byte_count : List Char → ℕ
byte_count [] = 0
byte_count (c ∷ s) =
    (if ltb (code c) 0x80
      then 1
      else if ltb (code c) 0x800
      then 2
      else if ltb (code c) 0x10000
      then 3
      else 4)
    + byte_count s

abbrev pub byte_length : String → ℕ
byte_length s = byte_count (chars s)
