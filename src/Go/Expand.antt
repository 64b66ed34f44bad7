-- ===== src/Go/Expand.antt =====
-- os.Expand: `${name}` and `$name` are replaced by what a mapping returns. The mapping is a closure
-- that may write a variable of its caller: it takes and returns a state.
pub mod Laws
use awesome_agent.Prelude.{
  ℕ, zero, suc, ◌+◌, Bool, true, false, ◌&&◌, ◌||◌, List, [], ◌∷◌, ◌++◌, Text, is_empty, drop,
  length, leb, ◌==◌, if◌then◌else◌,
}

-- isAlphaNum
unfoldable pub is_alnum : ℕ → Bool
is_alnum c =
    c == b'_'
    || (leb b'0' c && leb c b'9')
    || (leb b'a' c && leb c b'z')
    || (leb b'A' c && leb c b'Z')

-- isShellSpecialVar: * # $ @ ! ? - and the digits
unfoldable pub is_special : ℕ → Bool
is_special c =
    c == b'*'
    || c == b'#'
    || c == b'$'
    || c == b'@'
    || c == b'!'
    || c == b'?'
    || c == b'-'
    || (leb b'0' c && leb c b'9')

unfoldable pub scan_alnum : Text → Text
scan_alnum [] = []
scan_alnum (c ∷ s) = let rest = scan_alnum s in if is_alnum c then c ∷ rest else []

-- A name, and how many characters of the text it takes: a name that is empty and takes some is
-- bad syntax, which is dropped.
abbrev pub Shell : Type 0
Shell = Text × ℕ

-- the characters up to the closing brace, from behind the opening one
unfoldable pub scan_brace : Text → Text → Shell
scan_brace name [] = ([], 1)
scan_brace name (c ∷ s) =
    let rest = scan_brace (name ++ c ∷ []) s in if c == b'}' then (name, length name + 2) else rest

unfoldable pub braced : Text → Shell
unfolding scan_brace is_special
braced (c ∷ d ∷ s) = if is_special c && d == b'}' then (c ∷ [], 3) else scan_brace [] (c ∷ d ∷ s)
braced s = scan_brace [] s

-- getShellName, on the text behind a `$`
unfoldable pub shell_name : Text → Shell
unfolding braced is_special scan_alnum is_alnum
shell_name [] = ([], 0)
shell_name (c ∷ s) =
    if c == b'{'
    then braced s
    else if is_special c
    then (c ∷ [], 1)
    else (scan_alnum (c ∷ s), length (scan_alnum (c ∷ s)))

module _ {S : Type 0} (mapping : Text → S → Text × S) where
  -- what the text `name`, which took `w` characters, is replaced by
  unfoldable pub replacement : Text → ℕ → S → Text × S
  replacement [] zero st = (b'$' ∷ [], st)
  replacement [] (suc w) st = ([], st)
  replacement (c ∷ name) w st = mapping (c ∷ name) st

  unfoldable pub expand_from : ℕ → Text → S → Text × S
  unfolding replacement
  expand_from zero s st = ([], st)
  expand_from (suc fuel) [] st = ([], st)
  expand_from (suc fuel) (c ∷ []) st = (c ∷ [], st)
  expand_from (suc fuel) (c ∷ d ∷ s) st = elim (c == b'$') [
    | false ↦ let (out, st') = expand_from fuel (d ∷ s) st in (c ∷ out, st')
    | true ↦
        let (name, w) = shell_name (d ∷ s) in
        let (new, st') = replacement name w st in
        let (out, st'') = expand_from fuel (drop w (d ∷ s)) st' in (new ++ out, st'')
  ]

  -- each round takes a character at least, so the length of the text is fuel enough
  unfoldable pub expand : Text → S → Text × S
  unfolding expand_from shell_name
  expand s st = expand_from (length s) s st
