-- ===== src/Rag/Chunker/Headings.antt =====
-- parseHeadings and buildContentRanges of recursive.go: the headings of a Markdown text, and the
-- range of the text that belongs to each.
pub mod Ranges
use awesome_agent.Prelude.{
  ℕ, zero, suc, ◌+◌, Bool, true, false, ◌&&◌, ◌||◌, Option, none, some, List, [], ◌∷◌, ◌++◌, Text,
  length, drop, is_empty, leb, ltb, ◌==◌, if◌then◌else◌,
}
use awesome_agent.Go.Strings.{trim_space, newline}

pub record HeadingNode : Type 0 where
  pub level : ℕ
  pub title : Text
  pub line_start : ℕ
  pub content_start : ℕ
  pub content_end : ℕ

-- scanLine: the first line of a text, with its newline, and what follows
unfoldable pub scan_line : Text → Text × Text
scan_line [] = ([], [])
scan_line (c ∷ s) =
    let (line, rest) = scan_line s in if c == newline then (c ∷ [], s) else (c ∷ line, rest)

unfoldable pub count_hashes : Text → ℕ
count_hashes [] = 0
count_hashes (c ∷ s) = let rest = count_hashes s in if c == b'#' then suc rest else 0

-- the line without its newline
unfoldable pub chop_newline : Text → Text
chop_newline [] = []
chop_newline (c ∷ s) =
    let rest = chop_newline s in if is_empty s && c == newline then [] else c ∷ rest

abbrev pub heading_text : ℕ → Text → Option (ℕ × Text)
heading_text level [] = none
heading_text level (c ∷ t) = if c == 32 then some (level, trim_space (chop_newline t)) else none

-- scanHeadingLine: the level and the title, on a line with its newline
unfoldable pub scan_heading_line : Text → Option (ℕ × Text)
unfolding count_hashes chop_newline
scan_heading_line line =
    let level = count_hashes line in
    if ltb level 1 || ltb 6 level then none else heading_text level (drop level line)

-- the heading of a line that starts at `start`; its range is set later
abbrev pub node_of : ℕ → Text → Option (ℕ × Text) → List HeadingNode
node_of start line none = []
node_of start line (some (level, title)) =
    record {
      level = level;
      title = title;
      line_start = start;
      content_start = start + length line;
      content_end = 0;
    }
    ∷ []

-- the loop over the lines; each takes a character at least
unfoldable pub headings_from : ℕ → ℕ → Text → List HeadingNode
unfolding scan_line scan_heading_line
headings_from zero start s = []
headings_from (suc fuel) start [] = []
headings_from (suc fuel) start (c ∷ s) =
    let (line, rest) = scan_line (c ∷ s) in
    node_of start line (scan_heading_line line) ++ headings_from fuel (start + length line) rest

unfoldable pub parse_headings : Text → List HeadingNode
unfolding headings_from
parse_headings content = headings_from (length content) 0 content

-- the line where the next heading of this level or above starts
unfoldable pub range_end : ℕ → ℕ → List HeadingNode → ℕ
range_end total level [] = total
range_end total level (n ∷ nodes) =
    let rest = range_end total level nodes in if leb n.level level then n.line_start else rest

unfoldable pub build_content_ranges : ℕ → List HeadingNode → List HeadingNode
unfolding range_end
build_content_ranges total [] = []
build_content_ranges total (n ∷ nodes) =
    record n { content_end = range_end total n.level nodes } ∷ build_content_ranges total nodes
