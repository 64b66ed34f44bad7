-- ===== src/Go/Expand/Laws.antt =====
-- How os.Expand treats plain text, names in braces and names without them.
use awesome_agent.Prelude.{
  ℕ, zero, suc, ◌+◌, ◌≤◌, ◌≡◌, ◌≢◌, refl, ap, true, false, List, [], ◌∷◌, ◌++◌, Text, All, drop,
  length, arith, append_assoc, append-nil, ◌∙◌, ◌==◌,
}
use native.Mathlib.Decide.{ℕ_discrete}
use awesome_agent.Go.Expand.{
  expand_from, expand, shell_name, scan_alnum, scan_brace, replacement, is_alnum,
}

-- the text holds no dollar sign
abbrev pub NoDollar : Text → Type 0
NoDollar = All (λ c. c ≢ b'$')

abbrev pub prepend {ℓ} : {S : Type ℓ} → Text → Text × S → Text × S
prepend t (out, st) = (t ++ out, st)

module _ {S : Type 0} (mapping : Text → S → Text × S) where
  expand_copy :
      (fuel c d : ℕ) (s : Text) (st : S)
      → c ≢ b'$'
      → expand_from mapping (suc fuel) (c ∷ d ∷ s) st
        ≡ prepend (c ∷ []) (expand_from mapping fuel (d ∷ s) st)
  unfolding expand_from
  expand_copy fuel c d s st h = ground arith

  -- a dollar sign with a text behind it
  pub expand_dollar :
      (fuel d : ℕ) (s : Text) (st : S)
      → expand_from mapping (suc fuel) (b'$' ∷ d ∷ s) st ≡ (
          let (name, w) = shell_name (d ∷ s) in
          let (new, st') = replacement mapping name w st in
          prepend new (expand_from mapping fuel (drop w (d ∷ s)) st'))
  unfolding expand_from
  expand_dollar fuel d s st = refl

  pub expand_lem : (s : Text) (st : S) → expand mapping s st ≡ expand_from mapping (length s) s st
  unfolding expand
  expand_lem s st = refl

  pub replacement-cons :
      (c : ℕ) (name : Text) (w : ℕ) (st : S)
      → replacement mapping (c ∷ name) w st ≡ mapping (c ∷ name) st
  unfolding replacement
  replacement-cons c name w st = refl

  -- plain text is copied
  pub expand_from-append :
      (pre : Text) (k fuel d : ℕ) (s : Text) (st : S)
      → NoDollar pre
      → k ≡ length pre + fuel
      → expand_from mapping k (pre ++ d ∷ s) st ≡ prepend pre (expand_from mapping fuel (d ∷ s) st)
  expand_from-append [] k fuel d s st h e = ap (λ n. expand_from mapping n (d ∷ s) st) (omega arith)
  expand_from-append (c ∷ pre) zero fuel d s st (hc, h) e = absurd (omega arith)
  expand_from-append (c ∷ []) (suc k) fuel d s st (hc, h) e =
      expand_copy k c d s st hc
      ∙ ap (λ n. prepend (c ∷ []) (expand_from mapping n (d ∷ s) st)) (omega arith)
  expand_from-append (c ∷ b ∷ pre) (suc k) fuel d s st (hc, h) e =
      expand_copy k c b (pre ++ d ∷ s) st hc
      ∙ ap (prepend (c ∷ [])) (expand_from-append (b ∷ pre) k fuel d s st h (omega arith))

  pub expand_from-plain :
      (s : Text) (fuel : ℕ) (st : S)
      → NoDollar s
      → length s ≤ fuel
      → expand_from mapping fuel s st ≡ (s, st)
  expand_from-plain [] zero st h fits = unfold expand_from in refl
  expand_from-plain [] (suc fuel) st h fits = unfold expand_from in refl
  expand_from-plain (c ∷ s) zero st h fits = absurd (omega arith)
  expand_from-plain (c ∷ []) (suc fuel) st h fits = unfold expand_from in refl
  expand_from-plain (c ∷ d ∷ s) (suc fuel) st (hc, h) fits =
      expand_copy fuel c d s st hc
      ∙ ap (prepend (c ∷ [])) (expand_from-plain (d ∷ s) fuel st h (omega arith))

  -- what every call of the mapping keeps, the expansion keeps
  module _ {κ} (P : S → Type κ)
      (keeps : (name : Text) (st : S) → P st → P (mapping name st).1) where
    replacement_keeps : (name : Text) (w : ℕ) (st : S) → P st → P (replacement mapping name w st).1
    unfolding replacement
    replacement_keeps [] zero st h = h
    replacement_keeps [] (suc w) st h = h
    replacement_keeps (c ∷ name) w st h = keeps (c ∷ name) st h

    pub expand_from_keeps :
        (fuel : ℕ) (s : Text) (st : S) → P st → P (expand_from mapping fuel s st).1
    expand_from_keeps zero s st h = unfold expand_from in h
    expand_from_keeps (suc fuel) [] st h = unfold expand_from in h
    expand_from_keeps (suc fuel) (c ∷ []) st h = unfold expand_from in h
    expand_from_keeps (suc fuel) (c ∷ d ∷ s) st h = elim (ℕ_discrete c b'$') [
      | no plain ↦ rw (expand_copy fuel c d s st plain) (expand_from_keeps fuel (d ∷ s) st h)
      | yes e ↦
          let (name, w) = shell_name (d ∷ s) in
          rw (e, expand_dollar fuel d s st)
            (expand_from_keeps fuel (drop w (d ∷ s)) _ (replacement_keeps name w st h))
    ]

-- the names that the mapping is called with, in order
names_from : ℕ → Text → List Text
names_from zero s = []
names_from (suc fuel) [] = []
names_from (suc fuel) (c ∷ []) = []
names_from (suc fuel) (c ∷ d ∷ s) = elim (c == b'$') [
  | false ↦ names_from fuel (d ∷ s)
  | true ↦ let (name, w) = shell_name (d ∷ s) in name ∷ names_from fuel (drop w (d ∷ s))
]

unfoldable pub placeholders : Text → List Text
unfolding names_from shell_name
placeholders s = names_from (length s) s

names_from-copy :
    (fuel c d : ℕ) (s : Text)
    → c ≢ b'$'
    → names_from (suc fuel) (c ∷ d ∷ s) ≡ names_from fuel (d ∷ s)
unfolding names_from
names_from-copy fuel c d s h = ground arith

names_from-dollar :
    (fuel d : ℕ) (s : Text)
    → names_from (suc fuel) (b'$' ∷ d ∷ s)
      ≡ (let (name, w) = shell_name (d ∷ s) in name ∷ names_from fuel (drop w (d ∷ s)))
unfolding names_from
names_from-dollar fuel d s = refl

module _ {S : Type 0} (f g : Text → S → Text × S) where
  abbrev pub Same : Text → Type 0
  Same name = (st : S) → f name st ≡ g name st

  replacement_congr :
      (name : Text) (w : ℕ) (st : S) → Same name → replacement f name w st ≡ replacement g name w st
  unfolding replacement
  replacement_congr [] zero st h = refl
  replacement_congr [] (suc w) st h = refl
  replacement_congr (c ∷ name) w st h = h st

  expand_from_congr :
      (fuel : ℕ) (s : Text) (st : S)
      → All Same (names_from fuel s)
      → expand_from f fuel s st ≡ expand_from g fuel s st
  expand_from_congr zero s st h = unfold expand_from in refl
  expand_from_congr (suc fuel) [] st h = unfold expand_from in refl
  expand_from_congr (suc fuel) (c ∷ []) st h = unfold expand_from in refl
  expand_from_congr (suc fuel) (c ∷ d ∷ s) st h = elim (ℕ_discrete c b'$') [
    | no plain ↦
        rw (expand_copy f fuel c d s st plain, expand_copy g fuel c d s st plain)
          (ap (prepend (c ∷ []))
            (expand_from_congr fuel (d ∷ s) st (rw (names_from-copy fuel c d s plain) at h)))
    | yes e ↦
        let (name, w) = shell_name (d ∷ s) in
        let (new, st') = replacement g name w st in
        let h' : Same name × All Same (names_from fuel (drop w (d ∷ s))) =
          rw (e, names_from-dollar fuel d s) at h in
        rw
          (
            e,
            expand_dollar f fuel d s st,
            expand_dollar g fuel d s st,
            replacement_congr name w st h'.0,
          )
          (ap (prepend new) (expand_from_congr fuel (drop w (d ∷ s)) st' h'.1))
  ]

  -- two mappings that agree on the placeholders of a text expand it alike
  pub expand_congr : (s : Text) (st : S) → All Same (placeholders s) → expand f s st ≡ expand g s st
  expand_congr s st h =
      rw (expand_lem f s st, expand_lem g s st)
        (expand_from_congr (length s) s st (unfold placeholders in h))

-- the characters of a name without braces
pub scan_alnum-append :
    (name : Text) (c : ℕ) (s : Text)
    → All (λ d. is_alnum d ≡ true) name
    → is_alnum c ≡ false
    → scan_alnum (name ++ c ∷ s) ≡ name
unfolding scan_alnum
scan_alnum-append [] c s h k = rw k
scan_alnum-append (d ∷ name) c s (hd, h) k = rw (hd, scan_alnum-append name c s h k)

-- the name up to the first closing brace
pub scan_brace-append :
    (name acc rest : Text)
    → All (λ d. d ≢ b'}') name
    → scan_brace acc (name ++ b'}' ∷ rest) ≡ (acc ++ name, length (acc ++ name) + 2)
unfolding scan_brace
scan_brace-append [] acc rest h = rw (append-nil acc)
scan_brace-append (d ∷ name) acc rest (hd, h) =
    ground (arith, scan_brace-append name (acc ++ d ∷ []) rest, append_assoc acc (d ∷ []) name)
