-- ===== src/Tools/Chain/Context/Laws.antt =====
-- Which placeholders are replaced: those in braces. os.Expand ends a name without braces at the
-- first character that is no letter, digit or `_`, so at the dot of `$steps.xxx`.
use awesome_agent.Prelude.{
  ℕ, suc, ◌≤◌, ◌≡◌, ◌≢◌, refl, Option, none, some, [], ◌∷◌, ◌++◌, Text, codes, All, length,
  length-append, arith, ◌∙◌, ap, append_assoc, All-append, drop-append, Option-cases, ◌⊎◌, inl, inr,
}
use awesome_agent.Go.Expand.{expand, expand_from, shell_name, replacement}
use awesome_agent.Go.Expand.Laws.{
  NoDollar, prepend, expand_dollar, expand_lem, replacement-cons, expand_from-append,
  expand_from-plain, expand_from_keeps, scan_brace-append,
}
use awesome_agent.Tools.Tool.{Value}
use awesome_agent.Tools.Chain.Defs.{ChainContext, load}
use awesome_agent.Tools.Chain.Context.{
  ExpandError, unknown_prefix, no_step, Marshalled, placeholder, expand_template,
}

-- the placeholder behind its dollar sign
abbrev pub bracket : Text → Text
bracket field = codes "{steps." ++ (field ++ b'}' ∷ [])

abbrev pub replaced : Text → Option Text → Text × Option ExpandError
replaced field none = ([], some (no_step field))
replaced field (some v) = (v, none)

module _ {F : Type 0} (marshal : Value F → Marshalled) (ctx : ChainContext F) where
  abbrev Fails : ExpandError → Option ExpandError → Type 0
  Fails e st = st ≡ some e

  placeholder-some :
      (e : ExpandError) (place : Text) (st : Option ExpandError)
      → Fails e st
      → Fails e (placeholder marshal ctx place st).1
  unfolding placeholder
  placeholder-some e place st h = rw h

  unbraced_steps :
      (fuel : ℕ) (rest : Text)
      → (expand_from
          (placeholder marshal ctx)
          (suc fuel)
          (b'$' ∷ (codes "steps" ++ b'.' ∷ rest))
          none).1
        ≡ some (unknown_prefix (codes "steps"))
  unfolding placeholder shell_name replacement
  unbraced_steps fuel rest =
      rw (expand_dollar (placeholder marshal ctx) fuel b's' (codes "teps" ++ b'.' ∷ rest) none) (
        expand_from_keeps (placeholder marshal ctx) (Fails (unknown_prefix (codes "steps")))
          (placeholder-some (unknown_prefix (codes "steps"))) fuel (b'.' ∷ rest) _ refl)

  unbraced_input :
      (fuel : ℕ) (rest : Text)
      → (expand_from
          (placeholder marshal ctx)
          (suc fuel)
          (b'$' ∷ (codes "input" ++ b'.' ∷ rest))
          none).1
        ≡ some (unknown_prefix (codes "input"))
  unfolding placeholder shell_name replacement
  unbraced_input fuel rest =
      rw (expand_dollar (placeholder marshal ctx) fuel b'i' (codes "nput" ++ b'.' ∷ rest) none) (
        expand_from_keeps (placeholder marshal ctx) (Fails (unknown_prefix (codes "input")))
          (placeholder-some (unknown_prefix (codes "input"))) fuel (b'.' ∷ rest) _ refl)

  unbraced :
      (word : Text) (fuel : ℕ) (rest : Text)
      → (word ≡ codes "steps") ⊎ (word ≡ codes "input")
      → (expand_from (placeholder marshal ctx) (suc fuel) (b'$' ∷ (word ++ b'.' ∷ rest)) none).1
        ≡ some (unknown_prefix word)
  unbraced word fuel rest (inl e) = rw e (unbraced_steps fuel rest)
  unbraced word fuel rest (inr e) = rw e (unbraced_input fuel rest)

  -- A template whose first dollar sign starts an unbraced `$steps.xxx` or `$input.xxx`, the
  -- documented forms, is not expanded: the placeholder that os.Expand sees is `steps` or
  -- `input`, whatever the context holds, and the error is that of an unknown prefix.
  pub expand_template-unbraced :
      (word pre rest : Text)
      → (word ≡ codes "steps") ⊎ (word ≡ codes "input")
      → NoDollar pre
      → (expand_template marshal ctx (pre ++ b'$' ∷ (word ++ b'.' ∷ rest))).1
        ≡ some (unknown_prefix word)
  unfolding expand_template expand
  expand_template-unbraced word pre rest which plain =
      rw
        (expand_from-append (placeholder marshal ctx) pre
          (length (pre ++ b'$' ∷ (word ++ b'.' ∷ rest))) (suc (length (word ++ b'.' ∷ rest))) b'$'
          (word ++ b'.' ∷ rest) none plain
          (omega (arith, length-append pre (b'$' ∷ (word ++ b'.' ∷ rest)))))
        (unbraced word (length (word ++ b'.' ∷ rest)) rest which)

  steps_name :
      (field post : Text)
      → All (λ d. d ≢ b'}') field
      → shell_name (bracket field ++ post) ≡ (codes "steps." ++ field, length (bracket field))
  unfolding shell_name
  steps_name field post h =
      rw
        (
          append_assoc field (b'}' ∷ []) post,
          scan_brace-append (codes "steps." ++ field) [] post
              (All-append _ (codes "steps.") field (omega arith) h),
        )
        (ap (λ n. (codes "steps." ++ field, n)) (omega (arith, length-append field (b'}' ∷ []))))

  placeholder-steps :
      (field : Text)
      → placeholder marshal ctx (codes "steps." ++ field) none ≡ replaced field (load ctx field)
  unfolding placeholder
  placeholder-steps field = elim (Option-cases (load ctx field)) [
    | inl e ↦ rw e
    | inr (v, e) ↦ rw e
  ]

  dollar-braced :
      (field post : Text) (n : ℕ)
      → NoDollar post
      → All (λ d. d ≢ b'}') field
      → length post ≤ n
      → expand_from (placeholder marshal ctx) (suc n) (b'$' ∷ (bracket field ++ post)) none
        ≡ (let (v, failed) = replaced field (load ctx field) in (v ++ post, failed))
  dollar-braced field post n k l fits =
      let p = placeholder marshal ctx in
      let tail = codes "steps." ++ (field ++ b'}' ∷ []) ++ post in
      expand_dollar p n b'{' tail none
      ∙ rw
          (
            steps_name field post l,
            drop-append (bracket field) post,
            replacement-cons p b's' (codes "teps." ++ field) (length (bracket field)) none,
            placeholder-steps field,
          )
          (ap (prepend (replaced field (load ctx field)).0)
            (expand_from-plain p post n (replaced field (load ctx field)).1 k fits))

  -- A placeholder `${steps.field}` between texts without a dollar sign, where the field holds no
  -- closing brace, is replaced by the output stored under that name; if there is none, the error
  -- says so.
  pub expand_template-braced :
      (field pre post : Text)
      → NoDollar pre
      → NoDollar post
      → All (λ d. d ≢ b'}') field
      → expand_template marshal ctx (pre ++ b'$' ∷ (bracket field ++ post))
        ≡ (let (v, failed) = replaced field (load ctx field) in (pre ++ (v ++ post), failed))
  unfolding expand_template
  expand_template-braced field pre post h k l =
      let p = placeholder marshal ctx in
      let body = bracket field ++ post in
      expand_lem p (pre ++ b'$' ∷ body) none
      ∙ expand_from-append p pre (length (pre ++ b'$' ∷ body)) (suc (length body)) b'$' body none h
          (omega (arith, length-append pre (b'$' ∷ body)))
      ∙ ap (prepend pre) (
          dollar-braced field post (length body) k l
            (omega (arith, length-append (bracket field) post)))
