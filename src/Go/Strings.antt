-- ===== src/Go/Strings.antt =====
-- The functions of package strings that the program uses, over code points.
use awesome_agent.Prelude.{
  ℕ, Bool, true, false, ◌&&◌, ◌||◌, List, [], ◌∷◌, ◌++◌, Text, has_prefix, is_empty, leb, ◌==◌,
  if◌then◌else◌,
}

-- unicode.IsSpace
unfoldable pub is_space : ℕ → Bool
is_space c =
    (leb 9 c && leb c 13)
    || c == 32
    || c == 0x85
    || c == 0xA0
    || c == 0x1680
    || (leb 0x2000 c && leb c 0x200A)
    || c == 0x2028
    || c == 0x2029
    || c == 0x202F
    || c == 0x205F
    || c == 0x3000

unfoldable pub trim_left : Text → Text
trim_left [] = []
trim_left (c ∷ s) = let rest = trim_left s in if is_space c then rest else c ∷ s

unfoldable pub trim_right : Text → Text
trim_right [] = []
trim_right (c ∷ s) = let rest = trim_right s in if is_empty rest && is_space c then [] else c ∷ rest

unfoldable pub trim_space : Text → Text
unfolding trim_left trim_right is_space
trim_space s = trim_right (trim_left s)

-- strings.ReplaceAll(s, "\r\n", "\n")
unfoldable pub replace_crlf : Text → Text
replace_crlf [] = []
replace_crlf (c ∷ []) = c ∷ []
replace_crlf (c ∷ d ∷ s) = elim (c == 13 && d == 10) [
  | true ↦ 10 ∷ replace_crlf s
  | false ↦ c ∷ replace_crlf (d ∷ s)
]

abbrev pub newline : ℕ
newline = 10

-- one more character of the first line
abbrev pub push_front : ℕ → List Text → List Text
push_front c [] = (c ∷ []) ∷ []
push_front c (l ∷ ls) = (c ∷ l) ∷ ls

-- strings.Split(s, "\n")
unfoldable pub split_lines : Text → List Text
split_lines [] = [] ∷ []
split_lines (c ∷ s) =
    let rest = split_lines s in if c == newline then [] ∷ rest else push_front c rest

-- strings.Join
abbrev pub join : Text → List Text → Text
join sep [] = []
join sep (p ∷ []) = p
join sep (p ∷ q ∷ ps) = p ++ (sep ++ join sep (q ∷ ps))

-- strings.Contains
unfoldable pub contains_text : Text → Text → Bool
unfolding has_prefix
contains_text [] sub = has_prefix [] sub
contains_text (c ∷ s) sub = let rest = contains_text s sub in has_prefix (c ∷ s) sub || rest
