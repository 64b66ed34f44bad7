-- ===== src/Rag/Ingestion/Parsers/Laws.antt =====
-- Which parser an extension finds.
use awesome_agent.Prelude.{
  ◌≡◌, refl, sym, ap, ◌∙◌, Bool, true, false, ◌||◌, Bool-cases, inl, inr, if_true, if_false,
  text_eq_sound, Option, none, some, List, [], ◌∷◌, Text, Dict, text_eq, contains, lookup,
  lookup-insert, if◌then◌else◌,
}
use awesome_agent.Rag.Ingestion.Parsers.{
  Parser, Registry, add_format, add_formats, register_parser, find_parser,
}

module _ {R : Type 0} where
  -- the parser that is there, or the new one where it has the extension
  abbrev pub first_of : Option (Parser R) → Bool → Parser R → Option (Parser R)
  first_of (some q) has p = some q
  first_of none has p = if has then some p else none

  first_of-none : (o : Option (Parser R)) (p : Parser R) → o ≡ first_of o false p
  first_of-none none p = refl
  first_of-none (some q) p = refl

  first_of-|| :
      (o : Option (Parser R)) (a b : Bool) (p : Parser R)
      → first_of (first_of o a p) b p ≡ first_of o (a || b) p
  first_of-|| (some q) a b p = refl
  first_of-|| none true b p = refl
  first_of-|| none false b p = refl

  -- an extension that has a parser is the one that is looked up, or another
  first_of-same :
      (format k : Text) (q p : Parser R) (index : Dict (Parser R))
      → lookup format index ≡ some q
      → lookup k index ≡ first_of (lookup k index) (text_eq format k) p
  first_of-same format k q p index h = elim (Bool-cases (text_eq format k)) [
    | inl e ↦
        let same : format ≡ k = text_eq_sound format k e in
        let found : lookup k index ≡ some q = ap (λ (x : Text). lookup x index) (sym same) ∙ h in
        found ∙ ap (λ (o : Option (Parser R)). first_of o (text_eq format k) p) (sym found)
    | inr e ↦
        first_of-none (lookup k index) p ∙ ap (λ (b : Bool). first_of (lookup k index) b p) (sym e)
  ]

  lookup-add_format :
      (p : Parser R) (format k : Text) (o : Option (Parser R)) (index : Dict (Parser R))
      → lookup format index ≡ o
      → lookup k (add_format p format o index) ≡ first_of (lookup k index) (text_eq format k) p
  lookup-add_format p format k none index h =
      lookup-insert format k p index ∙ (elim (Bool-cases (text_eq format k)) [
        | inl e ↦
            let same : format ≡ k = text_eq_sound format k e in
            let absent : lookup k index ≡ none = ap (λ (x : Text). lookup x index) (sym same) ∙ h in
            if_true (text_eq format k) (some p) (lookup k index) e
            ∙ ap (λ (b : Bool). first_of none b p) (sym e)
            ∙ ap (λ (o : Option (Parser R)). first_of o (text_eq format k) p) (sym absent)
        | inr e ↦
            if_false (text_eq format k) _ _ e
            ∙ first_of-none (lookup k index) p
            ∙ ap (λ (b : Bool). first_of (lookup k index) b p) (sym e)
      ])
  lookup-add_format p format k (some q) index h = first_of-same format k q p index h

  lookup-add_formats :
      (p : Parser R) (formats : List Text) (k : Text) (index : Dict (Parser R))
      → lookup k (add_formats p formats index) ≡ first_of (lookup k index) (contains formats k) p
  unfolding add_formats contains
  lookup-add_formats p [] k index = first_of-none (lookup k index) p
  lookup-add_formats p (format ∷ formats) k index =
      lookup-add_formats p formats k (add_format p format (lookup format index) index)
      ∙ ap (λ (o : Option (Parser R)). first_of o (contains formats k) p)
          (lookup-add_format p format k (lookup format index) index refl)
      ∙ first_of-|| (lookup k index) (text_eq format k) (contains formats k) p

  abbrev pub parser_of : Option (Parser R × Text) → Option (Parser R)
  parser_of none = none
  parser_of (some (p, ext)) = some p

  parser_of-find :
      (ext : Text) (o : Option (Parser R))
      → parser_of (elim o [ none ↦ none | some p ↦ some (p, ext) ]) ≡ o
  parser_of-find ext none = refl
  parser_of-find ext (some p) = refl

  -- After a parser is registered, an extension finds the parser that it found before, if there was one,
  -- and else the new parser, if this supports the extension in lower case.
  pub find_parser-register_parser :
      (to_lower : Text → Text) (ext : Text) (p : Parser R) (r : Registry R)
      → parser_of (find_parser to_lower ext (register_parser p r))
        ≡ first_of
            (parser_of (find_parser to_lower ext r))
            (contains p.supported_formats (to_lower ext))
            p
  unfolding find_parser register_parser
  find_parser-register_parser to_lower ext p r =
      let k = to_lower ext in
      parser_of-find k (lookup k (add_formats p p.supported_formats r.index))
      ∙ lookup-add_formats p p.supported_formats k r.index
      ∙ ap (λ (o : Option (Parser R)). first_of o (contains p.supported_formats k) p)
          (sym (parser_of-find k (lookup k r.index)))
