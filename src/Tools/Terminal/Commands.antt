-- ===== src/Tools/Terminal/Commands.antt =====
-- Which commands reach the shell, in terms of their words.
use awesome_agent.Prelude.{
  ℕ, ◌≡◌, ◌≢◌, refl, sym, ap, subst, ◌∙◌, ◌⊎◌, inl, inr, Bool, true, false, not, ◌&&◌, ◌||◌, Option,
  none, some, List, [], ◌∷◌, ◌++◌, Text, codes, text_eq, text_eq_iff, has_prefix, has_prefix-append,
  contains, lookup, is_empty, All, arith, ◌==◌, ==_iff, if_elim, if_true, if_false, if◌then◌else◌,
  Bool-cases,
}
use awesome_agent.Go.Strings.{trim_space}
use awesome_agent.Tools.Tool.{Params}
use awesome_agent.Tools.Terminal.{
  TerminalTool, Platform, text_param, is_quote, before, first_token, is_cd_command, quoted_name,
  name_of, extract_command_name, is_allowed, resolve_session, run_terminal,
}
use awesome_agent.Tools.Terminal.Safety.{is_run, run_terminal_world}

abbrev pub IsBlank : ℕ → Type 0
IsBlank c = (c ≡ 32) ⊎ (c ≡ 9)

-- the text up to its first space or tab
abbrev pub FirstWord : Text → Text → Type 0
FirstWord t n =
    (rest : Text) × (t ≡ n ++ rest)
    × All (λ c. (c ≢ 32) × (c ≢ 9)) n
    × ((rest ≡ []) ⊎ ((c : ℕ) × (r : Text) × (rest ≡ c ∷ r) × IsBlank c))

-- the text between a quotation mark at the front and the next one of the same kind
abbrev pub Quoted : Text → Text → Type 0
Quoted t n =
    (q : ℕ) × (rest : Text) × ((q ≡ 34) ⊎ (q ≡ 39)) × (t ≡ q ∷ (n ++ q ∷ rest)) × All (λ c. c ≢ q) n

abbrev pub Listed : List Text → Text → Type 0
Listed [] name = ⊥
Listed (a ∷ names) name = (a ≡ name) ⊎ Listed names name

Listed-contains : (names : List Text) (name : Text) → contains names name ≡ true → Listed names name
unfolding contains
Listed-contains [] name h = cc
Listed-contains (a ∷ names) name h = elim (Bool-cases (text_eq a name)) [
  | inl e ↦ inl ((text_eq_iff a name).0 e)
  | inr e ↦ inr (Listed-contains names name (ground (arith, e, h)))
]

contains-Listed : (names : List Text) (name : Text) → Listed names name → contains names name ≡ true
unfolding contains
contains-Listed [] name h = absurd h
contains-Listed (a ∷ names) name (inl e) = ground (arith, (text_eq_iff a name).1 e)
contains-Listed (a ∷ names) name (inr h) = ground (arith, contains-Listed names name h)

FirstWord-first_token : (t : Text) → FirstWord t (first_token t)
unfolding first_token
FirstWord-first_token [] = ([], refl, tt, inl refl)
FirstWord-first_token (c ∷ s) =
    let (rest, same, plain, end) = FirstWord-first_token s in
    if_elim (FirstWord (c ∷ s)) (c == 32 || c == 9) [] (c ∷ first_token s)
      (λ h. (c ∷ s, refl, tt, inr (c, s, refl, ground arith)))
      (λ h. (rest, ap (λ (t : Text). c ∷ t) same, (ground arith, plain), end))

abbrev Found : ℕ → Text → Text → Type 0
Found q s n = (rest : Text) × (s ≡ n ++ q ∷ rest) × All (λ c. c ≢ q) n

Found-here : (q c : ℕ) (s n : Text) → c ≡ q → some [] ≡ some n → Found q (c ∷ s) n
Found-here q c s n e h =
    let empty : [] ≡ n = cc in
    subst (λ (m : Text). Found q (c ∷ s) m) empty (s, ap (λ (x : ℕ). x ∷ s) e, tt)

Found-later :
    (q c : ℕ) (s n : Text) (o : Option Text)
    → c ≢ q
    → ((m : Text) → o ≡ some m → Found q s m)
    → elim o [ none ↦ none | some t ↦ some (c ∷ t) ] ≡ some n
    → Found q (c ∷ s) n
Found-later q c s n none e later h = cc
Found-later q c s n (some m) e later h =
    let (rest, same, plain) = later m refl in
    let longer : c ∷ m ≡ n = cc in
    subst (λ (t : Text). Found q (c ∷ s) t) longer (rest, ap (λ (t : Text). c ∷ t) same, (e, plain))

Found-before : (q : ℕ) (s n : Text) → before q s ≡ some n → Found q s n
unfolding before
Found-before q [] n h = cc
Found-before q (c ∷ s) n h = elim (Bool-cases (c == q)) [
  | inl e ↦ Found-here q c s n ((==_iff c q).0 e) (sym (if_true (c == q) _ _ e) ∙ h)
  | inr e ↦
      Found-later q c s n (before q s) (ground arith) (Found-before q s)
        (sym (if_false (c == q) _ _ e) ∙ h)
]

has_prefix_rest : (s p : Text) → has_prefix s p ≡ true → (rest : Text) × (s ≡ p ++ rest)
unfolding has_prefix
has_prefix_rest s [] h = (s, refl)
has_prefix_rest [] (d ∷ p) h = cc
has_prefix_rest (c ∷ s) (d ∷ p) h =
    let (rest, same) = has_prefix_rest s p (ground arith) in
    let e : c ≡ d = ground arith in (rest, ap (λ (x : ℕ). x ∷ s) e ∙ ap (λ (t : Text). d ∷ t) same)

not_both : (b : Bool) → b ≡ true → b ≡ false → ⊥
not_both b h k = cc

module _ {W : Type 0} (os : Platform W) where
  -- the name that a command without outer blanks goes by
  abbrev pub NameOf : Text → Text → Type 0
  NameOf t name =
      ((t ≡ []) × (name ≡ []))
      ⊎ ((n : Text) × (name ≡ os.to_lower n) × (FirstWord t n ⊎ Quoted t n))

  NameOf-quoted_name :
      (c : ℕ) (s : Text) (o : Option Text)
      → is_quote c ≡ true
      → before c s ≡ o
      → NameOf (c ∷ s) (quoted_name os (c ∷ s) o)
  NameOf-quoted_name c s none h e =
      inr (first_token (c ∷ s), refl, inl (FirstWord-first_token (c ∷ s)))
  NameOf-quoted_name c s (some n) h e =
      let (rest, same, plain) = Found-before c s n e in
      inr (n, refl, inr (c, rest, ground arith, ap (λ (t : Text). c ∷ t) same, plain))

  NameOf-name_of : (t : Text) → NameOf t (name_of os t)
  NameOf-name_of [] = inl (refl, refl)
  NameOf-name_of (c ∷ s) =
      if_elim (NameOf (c ∷ s)) (is_quote c) (quoted_name os (c ∷ s) (before c s))
        (os.to_lower (first_token (c ∷ s))) (λ h. NameOf-quoted_name c s (before c s) h refl)
        (λ h. inr (first_token (c ∷ s), refl, inl (FirstWord-first_token (c ∷ s))))

  NameOf-extract_command_name : (cmd : Text) → NameOf (trim_space cmd) (extract_command_name os cmd)
  unfolding extract_command_name
  NameOf-extract_command_name cmd = NameOf-name_of (trim_space cmd)

  -- the command is cd in some case, alone or with a space or a tab behind
  abbrev pub IsCd : Text → Type 0
  IsCd cmd =
      let lower = os.to_lower (trim_space cmd) in
      (lower ≡ codes "cd")
      ⊎ (((rest : Text) × (lower ≡ codes "cd " ++ rest))
          ⊎ ((rest : Text) × (lower ≡ codes "cd\t" ++ rest)))

  IsCd-is_cd_command : (cmd : Text) → is_cd_command os cmd ≡ true → IsCd cmd
  unfolding is_cd_command
  IsCd-is_cd_command cmd h =
      let lower = os.to_lower (trim_space cmd) in
      elim (Bool-cases (text_eq lower (codes "cd"))) [
        | inl e ↦ inl ((text_eq_iff lower (codes "cd")).0 e)
        | inr e ↦ elim (Bool-cases (has_prefix lower (codes "cd "))) [
          | inl k ↦ inr (inl (has_prefix_rest lower (codes "cd ") k))
          | inr k ↦ inr (inr (has_prefix_rest lower (codes "cd\t") (ground (arith, h, e, k))))
        ]
      ]

  is_cd_command-IsCd : (cmd : Text) → IsCd cmd → is_cd_command os cmd ≡ true
  unfolding is_cd_command
  is_cd_command-IsCd cmd (inl e) =
      let lower = os.to_lower (trim_space cmd) in
      ground (arith, (text_eq_iff lower (codes "cd")).1 e)
  is_cd_command-IsCd cmd (inr (inl (rest, e))) =
      let lower = os.to_lower (trim_space cmd) in
      let k : has_prefix lower (codes "cd ") ≡ true =
        ap (λ (t : Text). has_prefix t (codes "cd ")) e ∙ has_prefix-append (codes "cd ") rest in
      ground (arith, k)
  is_cd_command-IsCd cmd (inr (inr (rest, e))) =
      let lower = os.to_lower (trim_space cmd) in
      let k : has_prefix lower (codes "cd\t") ≡ true =
        ap (λ (t : Text). has_prefix t (codes "cd\t")) e ∙ has_prefix-append (codes "cd\t") rest in
      ground (arith, k)

  -- a list names the command, or there is no list
  abbrev pub Allowed : List Text → Text → Type 0
  Allowed allowed cmd =
      (allowed ≡ []) ⊎ ((name : Text) × NameOf (trim_space cmd) name × Listed allowed name)

  -- there is a list, and it does not name the command
  abbrev pub Refused : List Text → Text → Type 0
  Refused allowed cmd =
      (allowed ≢ []) × ((name : Text) × NameOf (trim_space cmd) name × (¬ (Listed allowed name)))

  Allowed-is_allowed :
      (allowed : List Text) (cmd : Text)
      → is_allowed os allowed (extract_command_name os cmd) ≡ true
      → Allowed allowed cmd
  Allowed-is_allowed [] cmd h = inl refl
  Allowed-is_allowed (a ∷ names) cmd h =
      let name = extract_command_name os cmd in
      inr (name, NameOf-extract_command_name cmd, Listed-contains (a ∷ names) name h)

  Refused-is_allowed :
      (allowed : List Text) (cmd : Text)
      → is_allowed os allowed (extract_command_name os cmd) ≡ false
      → Refused allowed cmd
  Refused-is_allowed [] cmd h = cc
  Refused-is_allowed (a ∷ names) cmd h =
      let name = extract_command_name os cmd in
      (
        (λ e. cc),
        (
          name,
          NameOf-extract_command_name cmd,
          λ k. not_both (contains (a ∷ names) name) (contains-Listed (a ∷ names) name k) h,
        ),
      )

  -- the command was handed to the shell in this directory, or the world is as it was
  abbrev pub Handed : List Text → Text → Text → W → W → Type 0
  Handed allowed cmd cwd w w' =
      ((w' ≡ (os.shell cwd cmd w).1) × (cmd ≢ []) × (¬ (IsCd cmd)) × Allowed allowed cmd)
      ⊎ ((w' ≡ w) × ((cmd ≡ []) ⊎ (IsCd cmd ⊎ Refused allowed cmd)))

  Handed-is_run :
      (allowed : List Text) (cmd cwd : Text) (w : W)
      → Handed allowed cmd cwd w
          (if not (is_empty cmd) && is_run os allowed cmd then (os.shell cwd cmd w).1 else w)
  Handed-is_run allowed [] cwd w = inr (refl, inl refl)
  Handed-is_run allowed (c ∷ s) cwd w = elim (Bool-cases (is_cd_command os (c ∷ s))) [
    | inl cd ↦ inr (
      if_false (is_run os allowed (c ∷ s)) _ _ (ground arith),
      inr (inl (IsCd-is_cd_command (c ∷ s) cd)),
    )
    | inr other ↦ elim (Bool-cases (is_allowed os allowed (extract_command_name os (c ∷ s)))) [
      | inl permitted ↦ inl (
        if_true (is_run os allowed (c ∷ s)) _ _ (ground arith),
        (λ e. cc),
        (λ k. not_both (is_cd_command os (c ∷ s)) (is_cd_command-IsCd (c ∷ s) k) other),
        Allowed-is_allowed allowed (c ∷ s) permitted,
      )
      | inr absent ↦ inr (
        if_false (is_run os allowed (c ∷ s)) _ _ (ground arith),
        inr (inr (Refused-is_allowed allowed (c ∷ s) absent)),
      )
    ]
  ]

  -- A call either hands its command, as it stands, to the shell in the directory of its session: then
  -- the command is not empty and not cd, and its name, which is its first word or the text between
  -- quotation marks at its front, in lower case, is on the list of allowed commands, or there is no
  -- list. Or the world stays as it was: then the command is empty, or is cd, or there is a list without
  -- its name. Nothing is said of what the rest of the line makes the shell run.
  pub Handed-run_terminal :
      {F : Type 0} (now : ℕ) (params : Params F) (t : TerminalTool) (w : W)
      → Handed t.allowed_commands
          (text_param (lookup (codes "cmd") params))
          (resolve_session now params t).1
          w
          (run_terminal os now params t w).2
  Handed-run_terminal now params t w =
      let cmd = text_param (lookup (codes "cmd") params) in
      let cwd = (resolve_session now params t).1 in
      subst (λ (v : W). Handed t.allowed_commands cmd cwd w v)
        (sym (run_terminal_world os now params t w)) (Handed-is_run t.allowed_commands cmd cwd w)
