-- ===== src/Rag/Ingestion/Parsers.antt =====
-- parser/parser.go: the parsers by file extension.
pub mod Laws
use awesome_agent.Prelude.{
  Bool, true, false, Option, none, some, List, [], ◌∷◌, ◌++◌, map, Text, Dict, lookup, insert,
  Result, ℕ,
}

-- what a parser returns: the format, the size and the content
pub record Parsed : Type 0 where
  pub format : Text
  pub size : ℕ
  pub content : Text

-- a parser of files of type R
pub record Parser (R : Type 0) : Type 0 where
  pub supported_formats : List Text
  pub parse : R → Result Text Parsed

pub record Registry (R : Type 0) : Type 0 where
  pub parsers : List (Parser R)
  pub index : Dict (Parser R)

module _ {R : Type 0} where
  -- the first parser of an extension stays
  abbrev pub add_format : Parser R → Text → Option (Parser R) → Dict (Parser R) → Dict (Parser R)
  add_format p format none index = insert format p index
  add_format p format (some q) index = index

  unfoldable pub add_formats : Parser R → List Text → Dict (Parser R) → Dict (Parser R)
  unfolding lookup insert
  add_formats p [] index = index
  add_formats p (format ∷ formats) index =
      add_formats p formats (add_format p format (lookup format index) index)

  unfoldable pub register_parser : Parser R → Registry R → Registry R
  unfolding add_formats
  register_parser p r = record {
    parsers = r.parsers ++ p ∷ [];
    index = add_formats p p.supported_formats r.index;
  }

  unfoldable pub new_parser_registry : Parser R → Registry R
  unfolding register_parser
  new_parser_registry native = register_parser native (record { parsers = []; index = [] })

  -- the parser and the extension in lower case; `none` is ErrUnsupportedFormat
  unfoldable pub find_parser : (Text → Text) → Text → Registry R → Option (Parser R × Text)
  unfolding lookup
  find_parser to_lower ext r = elim (lookup (to_lower ext) r.index) [
    | none ↦ none
    | some p ↦ some (p, to_lower ext)
  ]

  unfoldable pub supports : (Text → Text) → Text → Registry R → Bool
  unfolding find_parser
  supports to_lower ext r = elim (find_parser to_lower ext r) [ none ↦ false | some p ↦ true ]

  -- in the order that the iteration over the map takes
  abbrev pub supported_formats : (Dict (Parser R) → Dict (Parser R)) → Registry R → List Text
  supported_formats order r = map (λ entry. entry.0) (order r.index)
