-- ===== src/Rag/Chunker/Headings/Ranges.antt =====
-- The ranges of the headings lie within the text, and the headings stand in their order.
use awesome_agent.Prelude.{
  ℕ, zero, suc, ◌+◌, ◌≤◌, ◌<◌, ◌≡◌, refl, sym, ap, ◌∙◌, Option, none, some, List, [], ◌∷◌, ◌++◌,
  Text, length, length-append, drop, ◌⊎◌, inl, inr, All, All-mono, arith, if_elim, leb,
}
use awesome_agent.Rag.Chunker.Headings.{
  HeadingNode, scan_line, scan_heading_line, count_hashes, heading_text, node_of, headings_from,
  parse_headings, range_end, build_content_ranges,
}

scan_line-append : (s : Text) → (scan_line s).0 ++ (scan_line s).1 ≡ s
unfolding scan_line
scan_line-append [] = refl
scan_line-append (c ∷ s) = ground (arith, scan_line-append s)

length-scan_line : (c : ℕ) (s : Text) → 1 ≤ length (scan_line (c ∷ s)).0
unfolding scan_line
length-scan_line c s = ground arith

scan_line_lengths : (s : Text) → length (scan_line s).0 + length (scan_line s).1 ≡ length s
scan_line_lengths s =
    sym (length-append (scan_line s).0 (scan_line s).1) ∙ ap length (scan_line-append s)

-- The headings start at or behind `start`, each behind the one before, and each has a line, a level
-- from 1 to 6 and a content that starts within the text.
abbrev pub Ordered : ℕ → ℕ → List HeadingNode → Type 0
Ordered start total [] = Unit
Ordered start total (n ∷ nodes) =
    (start ≤ n.line_start)
    × (n.line_start < n.content_start)
    × (n.content_start ≤ total)
    × (1 ≤ n.level)
    × (n.level ≤ 6)
    × Ordered n.content_start total nodes

Ordered-weaken :
    (a b total : ℕ) (nodes : List HeadingNode)
    → a ≤ b
    → Ordered b total nodes
    → Ordered a total nodes
Ordered-weaken a b total [] h o = tt
Ordered-weaken a b total (n ∷ nodes) h o = (omega arith, o.1, o.2, o.3, o.4, o.5)

abbrev HasLevel : Option (ℕ × Text) → Type 0
HasLevel none = Unit
HasLevel (some (level, title)) = (1 ≤ level) × (level ≤ 6)

HasLevel-heading_text :
    (level : ℕ) (s : Text) → 1 ≤ level → level ≤ 6 → HasLevel (heading_text level s)
HasLevel-heading_text level [] h k = tt
HasLevel-heading_text level (c ∷ s) h k = ground arith

HasLevel-scan_heading_line : (line : Text) → HasLevel (scan_heading_line line)
unfolding scan_heading_line
HasLevel-scan_heading_line line =
    ground (arith, HasLevel-heading_text (count_hashes line) (drop (count_hashes line) line))

Ordered-node_of :
    (start total : ℕ) (line : Text) (found : Option (ℕ × Text)) (nodes : List HeadingNode)
    → HasLevel found
    → 1 ≤ length line
    → start + length line ≤ total
    → Ordered (start + length line) total nodes
    → Ordered start total (node_of start line found ++ nodes)
Ordered-node_of start total line none nodes l p t o =
    Ordered-weaken start (start + length line) total nodes (omega arith) o
Ordered-node_of start total line (some (level, title)) nodes l p t o =
    (omega arith, omega arith, t, l.0, l.1, o)

Ordered-headings_from :
    (fuel start total : ℕ) (s : Text)
    → start + length s ≡ total
    → Ordered start total (headings_from fuel start s)
unfolding headings_from
Ordered-headings_from zero start total s h = tt
Ordered-headings_from (suc fuel) start total [] h = tt
Ordered-headings_from (suc fuel) start total (c ∷ s) h =
    let line = (scan_line (c ∷ s)).0 in
    let rest = (scan_line (c ∷ s)).1 in
    let lengths = scan_line_lengths (c ∷ s) in
    Ordered-node_of start total line (scan_heading_line line)
      (headings_from fuel (start + length line) rest) (HasLevel-scan_heading_line line)
      (length-scan_line c s) (omega arith)
      (Ordered-headings_from fuel (start + length line) total rest (omega arith))

pub Ordered-parse_headings : (content : Text) → Ordered 0 (length content) (parse_headings content)
Ordered-parse_headings content =
    unfold parse_headings in
    Ordered-headings_from (length content) 0 (length content) content (omega arith)

module _ (total : ℕ) where
  range_end_bounds :
      (start level : ℕ) (nodes : List HeadingNode)
      → start ≤ total
      → Ordered start total nodes
      → (start ≤ range_end total level nodes) × (range_end total level nodes ≤ total)
  unfolding range_end
  range_end_bounds start level [] s o = (s, omega arith)
  range_end_bounds start level (n ∷ nodes) s (a, b, c, d, e, o) =
      ground (arith, range_end_bounds n.content_start level nodes c o)

  -- a deeper heading ends no later
  range_end-le :
      (start : ℕ) {level deeper : ℕ} (nodes : List HeadingNode)
      → level ≤ deeper
      → Ordered start total nodes
      → range_end total deeper nodes ≤ range_end total level nodes
  unfolding range_end
  range_end-le start [] h o = omega arith
  range_end-le start {level} {deeper} (n ∷ nodes) h (a, b, c, d, e, o) = ground (
    arith,
    range_end-le n.content_start {level = level} {deeper = deeper} nodes h o,
    range_end_bounds n.content_start level nodes c o,
  )

  -- what is asked of a heading once its range is set
  abbrev pub InRange : HeadingNode → Type 0
  InRange n = (n.content_start ≤ n.content_end) × (n.content_end ≤ total) × (n.level ≤ 6)

  InRange-build_content_ranges :
      (start : ℕ) (nodes : List HeadingNode)
      → Ordered start total nodes
      → All InRange (build_content_ranges total nodes)
  unfolding build_content_ranges
  InRange-build_content_ranges start [] o = tt
  InRange-build_content_ranges start (n ∷ nodes) (a, b, c, d, e, o) =
      let (lower, upper) = range_end_bounds n.content_start n.level nodes c o in
      ((lower, upper, e), InRange-build_content_ranges n.content_start nodes o)

  -- the range that ends at `end` is over before the heading `m`, or `m` ends within it
  abbrev pub Apart : ℕ → HeadingNode → Type 0
  Apart end m = (end ≤ m.line_start) ⊎ (m.content_end ≤ end)

  abbrev pub Laminar : List HeadingNode → Type 0
  Laminar [] = Unit
  Laminar (n ∷ nodes) = All (Apart n.content_end) nodes × Laminar nodes

  abbrev LineBehind : ℕ → HeadingNode → Type 0
  LineBehind start m = start ≤ m.line_start

  All-LineBehind :
      (start : ℕ) (nodes : List HeadingNode)
      → Ordered start total nodes
      → All (LineBehind start) (build_content_ranges total nodes)
  unfolding build_content_ranges
  All-LineBehind start [] o = tt
  All-LineBehind start (n ∷ nodes) (a, b, c, d, e, o) = (
    a,
    All-LineBehind start nodes (Ordered-weaken start n.content_start total nodes (omega arith) o),
  )

  All-Apart :
      (start level : ℕ) (nodes : List HeadingNode)
      → Ordered start total nodes
      → All (Apart (range_end total level nodes)) (build_content_ranges total nodes)
  unfolding build_content_ranges
  All-Apart start level [] o = tt
  All-Apart start level (n ∷ nodes) (a, b, c, d, e, o) =
      if_elim (λ end. All (Apart end) (build_content_ranges total (n ∷ nodes))) (leb n.level level)
        n.line_start (range_end total level nodes)
        (λ h. (
          inl (omega arith),
          All-mono (λ m k. inl k) (build_content_ranges total nodes)
              (All-LineBehind n.line_start nodes
                (Ordered-weaken n.line_start n.content_start total nodes (omega arith) o)),
        ))
        (λ h. (
          inr (
              range_end-le n.content_start {level = level} {deeper = n.level} nodes (ground arith)
                o),
          All-Apart n.content_start level nodes o,
        ))

  Laminar-build_content_ranges :
      (start : ℕ) (nodes : List HeadingNode)
      → Ordered start total nodes
      → Laminar (build_content_ranges total nodes)
  unfolding build_content_ranges
  Laminar-build_content_ranges start [] o = tt
  Laminar-build_content_ranges start (n ∷ nodes) (a, b, c, d, e, o) = (
    All-Apart n.content_start n.level nodes o,
    Laminar-build_content_ranges n.content_start nodes o,
  )

-- `end` is where the first of the headings stands that is of the level or above, or the end of the text
abbrev pub EndsAt : ℕ → ℕ → ℕ → List HeadingNode → Type 0
EndsAt total level end nodes =
    (All (λ m. level < m.level) nodes × (end ≡ total))
    ⊎ ((deeper : List HeadingNode) × (next : HeadingNode) × (rest : List HeadingNode) × (nodes
          ≡ deeper ++ next ∷ rest)
        × All (λ m. level < m.level) deeper
        × (next.level ≤ level)
        × (end ≡ next.line_start))

EndsAt-cons :
    (total level end : ℕ) (n : HeadingNode) (nodes : List HeadingNode)
    → level < n.level
    → EndsAt total level end nodes
    → EndsAt total level end (n ∷ nodes)
EndsAt-cons total level end n nodes h (inl (all, e)) = inl ((h, all), e)
EndsAt-cons total level end n nodes h (inr (deeper, next, rest, same, all, k, e)) =
    inr (n ∷ deeper, next, rest, ap (λ (ms : List HeadingNode). n ∷ ms) same, (h, all), k, e)

EndsAt-range_end :
    (total level : ℕ) (nodes : List HeadingNode)
    → EndsAt total level (range_end total level nodes) nodes
unfolding range_end
EndsAt-range_end total level [] = inl (tt, refl)
EndsAt-range_end total level (n ∷ nodes) =
    if_elim (λ end. EndsAt total level end (n ∷ nodes)) (leb n.level level) n.line_start
      (range_end total level nodes) (λ h. inr ([], n, nodes, refl, tt, ground arith, refl))
      (λ h.
        EndsAt-cons total level (range_end total level nodes) n nodes (ground arith)
          (EndsAt-range_end total level nodes))

-- each heading has the end that is asked for, before those that follow it, and is else as it was parsed
abbrev pub AllEnd : ℕ → List HeadingNode → List HeadingNode → Type 0
AllEnd total [] [] = Unit
AllEnd total [] (m ∷ ms) = ⊥
AllEnd total (n ∷ ns) [] = ⊥
AllEnd total (n ∷ ns) (m ∷ ms) =
    (m ≡ record n { content_end = m.content_end })
    × EndsAt total n.level m.content_end ns
    × AllEnd total ns ms

AllEnd-build_content_ranges :
    (total : ℕ) (nodes : List HeadingNode) → AllEnd total nodes (build_content_ranges total nodes)
unfolding build_content_ranges
AllEnd-build_content_ranges total [] = tt
AllEnd-build_content_ranges total (n ∷ nodes) =
    (refl, EndsAt-range_end total n.level nodes, AllEnd-build_content_ranges total nodes)

-- The range that Chunk computes for a heading of a text ends where the next heading of its level or
-- above stands, or at the end of the text, and the rest of the heading stays as it was parsed. So the
-- ranges start and end within the text and do not end before they start, no level is above six, and
-- of two headings the first one's range is over before the line of the second, or the range of the
-- second ends within it.
pub ranges_nested :
    (content : Text)
    → let nodes = build_content_ranges (length content) (parse_headings content) in
      AllEnd (length content) (parse_headings content) nodes
      × All (InRange (length content)) nodes
      × Laminar (length content) nodes
ranges_nested content =
    let o = Ordered-parse_headings content in
    (
      AllEnd-build_content_ranges (length content) (parse_headings content),
      InRange-build_content_ranges (length content) 0 (parse_headings content) o,
      Laminar-build_content_ranges (length content) 0 (parse_headings content) o,
    )
