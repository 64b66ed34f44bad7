-- ===== src/Rag/Chunker/Overlap/Laws.antt =====
-- What the overlap keeps of the chunks.
use awesome_agent.Prelude.{
  ℕ, zero, suc, ◌≢◌, ◌⊎◌, inl, inr, true, false, min, leb, take, drop, take-append-drop, sub_ℕ,
  subst, ◌*◌, ◌-◌, ◌≡◌, refl, sym, ap, ◌∙◌, ◌||◌, List, [], ◌∷◌, ◌++◌, append_assoc, Text, length,
  length-drop, ltb, ◌==◌, is_empty, arith, if_elim,
}
use awesome_agent.Go.Strings.{split_lines, join, newline, push_front}
use awesome_agent.Rag.Chunker.Chunk.{Chunk}
use awesome_agent.Rag.Chunker.Tokens.{estimate_tokens}
use awesome_agent.Rag.Chunker.Overlap.{
  number_from, span_headings, path_of, body_of, extract_path, extract_body, tail_runes, put_overlap,
  overlap_from, overlap_list, apply_overlap,
}

-- the indices count from `i`
abbrev pub Numbered : ℕ → List Chunk → Type 0
Numbered i [] = Unit
Numbered i (c ∷ cs) = (c.index ≡ i) × Numbered (suc i) cs

pub Numbered-number_from : (i : ℕ) (cs : List Chunk) → Numbered i (number_from i cs)
Numbered-number_from i [] = tt
Numbered-number_from i (c ∷ cs) = (refl, Numbered-number_from (suc i) cs)

join-push_front :
    (c : ℕ) (ls : List Text) → join (newline ∷ []) (push_front c ls) ≡ c ∷ join (newline ∷ []) ls
join-push_front c [] = refl
join-push_front c (l ∷ []) = refl
join-push_front c (l ∷ m ∷ ls) = refl

join-nil_push_front :
    (c : ℕ) (ls : List Text)
    → join (newline ∷ []) ([] ∷ push_front c ls) ≡ newline ∷ join (newline ∷ []) (push_front c ls)
join-nil_push_front c [] = refl
join-nil_push_front c (l ∷ ls) = refl

-- split_lines gives a line at least
join-nil_cons :
    (s : Text)
    → join (newline ∷ []) ([] ∷ split_lines s) ≡ newline ∷ join (newline ∷ []) (split_lines s)
unfolding split_lines
join-nil_cons [] = refl
join-nil_cons (c ∷ s) =
    if_elim (λ ls. join (newline ∷ []) ([] ∷ ls) ≡ newline ∷ join (newline ∷ []) ls) (c == newline)
      ([] ∷ split_lines s) (push_front c (split_lines s)) (λ h. refl)
      (λ h. join-nil_push_front c (split_lines s))

join-split_lines : (s : Text) → join (newline ∷ []) (split_lines s) ≡ s
unfolding split_lines
join-split_lines [] = refl
join-split_lines (c ∷ s) =
    if_elim (λ ls. join (newline ∷ []) ls ≡ c ∷ s) (c == newline) ([] ∷ split_lines s)
      (push_front c (split_lines s))
      (λ h.
        join-nil_cons s
        ∙ ap (λ t. newline ∷ t) (join-split_lines s)
        ∙ ap (λ x. x ∷ s) (ground arith))
      (λ h. join-push_front c (split_lines s) ∙ ap (λ t. c ∷ t) (join-split_lines s))

-- the two halves, and the lines they come from
span_headings-append : (ls : List Text) → (span_headings ls).0 ++ (span_headings ls).1 ≡ ls
unfolding span_headings
span_headings-append [] = refl
span_headings-append (l ∷ ls) = ground (arith, span_headings-append ls)

join-append :
    (sep p l : Text) (ps ls : List Text)
    → (join sep (p ∷ ps) ++ sep) ++ join sep (l ∷ ls) ≡ join sep (p ∷ (ps ++ l ∷ ls))
join-append sep p l [] ls = simp append_assoc
join-append sep p l (q ∷ ps) ls =
    rw (append_assoc, append_assoc, append_assoc)
      (ap (λ t. p ++ (sep ++ t))
        (sym (append_assoc (join sep (q ∷ ps)) sep (join sep (l ∷ ls)))
          ∙ join-append sep q l ps ls))

path_body-join :
    (content : Text) (path body : List Text)
    → join (newline ∷ []) (path ++ body) ≡ content
    → path_of (path, body) ++ body_of content (path, body) ≡ content
path_body-join content path [] h = refl
path_body-join content [] (l ∷ ls) h = h
path_body-join content (p ∷ ps) (l ∷ ls) h = join-append (newline ∷ []) p l ps ls ∙ h

-- The path and the body that are cut out of a chunk are the chunk's content.
pub extract_path-extract_body :
    (content : Text) → extract_path content ++ extract_body content ≡ content
unfolding extract_path extract_body
extract_path-extract_body content =
    path_body-join content (span_headings (split_lines content)).0
      (span_headings (split_lines content)).1
      (ap (join (newline ∷ [])) (span_headings-append (split_lines content))
        ∙ join-split_lines content)

-- the last `n` characters of a text, all of them where it is not longer
abbrev pub Tail : ℕ → Text → Text → Type 0
Tail n s t = (front : Text) × (s ≡ front ++ t) × (length t ≡ min n (length s))

Tail-tail_runes : (s : Text) (n : ℕ) → Tail n s (tail_runes s n)
unfolding tail_runes
Tail-tail_runes s n =
    if_elim (Tail n s) (leb (length s) n) s (drop (length s - n) s) (λ h. ([], refl, ground arith))
      (λ h. (
        take (length s - n) s,
        sym (take-append-drop (length s - n) s),
        ground (arith, length-drop (length s - n) s),
      ))

-- `d` is `c` with the tail of the body of `prev` and a space between its path and its body, the
-- estimate of that content and a start as much before the end of `prev`; or `c`, if the tail is empty
abbrev pub Overlaps : ℕ → Chunk → Chunk → Chunk → Type 0
Overlaps size prev c d =
    (d.index ≡ c.index)
    × (d.end_pos ≡ c.end_pos)
    × ((tail : Text) × Tail (size * 2) (extract_body prev.content) tail
        × (((tail ≡ []) × (d ≡ c))
            ⊎ ((tail ≢ [])
                × (d.content ≡ extract_path c.content ++ (tail ++ (32 ∷ extract_body c.content)))
                × (d.token_est ≡ estimate_tokens d.content)
                × (d.start_pos ≡ sub_ℕ prev.end_pos (length tail)))))

-- every chunk overlaps with the one before it, as that one is after its own overlap
abbrev pub AllOverlap : ℕ → Chunk → List Chunk → List Chunk → Type 0
AllOverlap size prev [] [] = Unit
AllOverlap size prev [] (d ∷ ds) = ⊥
AllOverlap size prev (c ∷ cs) [] = ⊥
AllOverlap size prev (c ∷ cs) (d ∷ ds) = Overlaps size prev c d × AllOverlap size d cs ds

is_empty-[] : (s : Text) → is_empty s ≡ true → s ≡ []
is_empty-[] [] h = refl
is_empty-[] (c ∷ s) h = cc

not_empty : (s : Text) → is_empty s ≡ false → s ≢ []
not_empty [] h = cc
not_empty (c ∷ s) h = λ e. cc

Overlaps-put_overlap : (size : ℕ) (prev c : Chunk) → Overlaps size prev c (put_overlap size prev c)
unfolding put_overlap
Overlaps-put_overlap size prev c =
    let text = tail_runes (extract_body prev.content) (size * 2) in
    let tail = Tail-tail_runes (extract_body prev.content) (size * 2) in
    if_elim (Overlaps size prev c) (is_empty text) c _
      (λ h. (refl, refl, (text, tail, inl (is_empty-[] text h, refl))))
      (λ h. (refl, refl, (text, tail, inr (not_empty text h, refl, refl, refl))))

AllOverlap-overlap_from :
    (size : ℕ) (prev : Chunk) (cs : List Chunk)
    → AllOverlap size prev cs (overlap_from size prev cs)
unfolding overlap_from
AllOverlap-overlap_from size prev [] = tt
AllOverlap-overlap_from size prev (c ∷ cs) =
    (Overlaps-put_overlap size prev c, AllOverlap-overlap_from size (put_overlap size prev c) cs)

-- the chunks after the overlap: as they are without a size, and else the first one as it is
abbrev pub Overlapped : ℕ → List Chunk → List Chunk → Type 0
Overlapped zero cs ds = ds ≡ cs
Overlapped (suc size) [] ds = ds ≡ []
Overlapped (suc size) (c ∷ cs) [] = ⊥
Overlapped (suc size) (c ∷ cs) (d ∷ ds) = (d ≡ c) × AllOverlap (suc size) c cs ds

two_chunks : (m n : ℕ) → (suc m == 0 || ltb (suc (suc n)) 2) ≡ true → ⊥
two_chunks m n h = ground arith

-- With a size of 0 the overlap changes nothing. With any other it keeps the first chunk, and the
-- number, the order, the indices and the ends of all: into each later chunk it puts, between path and
-- body, the last characters of the body of the chunk before it (which has its own overlap already),
-- twice as many as the size or all there are, and a space, and sets the estimate and the start to
-- match; a chunk behind an empty body stays.
pub Overlapped-apply_overlap :
    (size : ℕ) (cs : List Chunk) → Overlapped size cs (apply_overlap size cs)
unfolding apply_overlap overlap_from
Overlapped-apply_overlap zero cs = refl
Overlapped-apply_overlap (suc size) [] =
    if_elim (λ (ds : List Chunk). ds ≡ []) (suc size == 0 || ltb 0 2) [] [] (λ h. refl) (λ h. refl)
Overlapped-apply_overlap (suc size) (c ∷ []) =
    if_elim (Overlapped (suc size) (c ∷ [])) (suc size == 0 || ltb 1 2) (c ∷ []) (c ∷ [])
      (λ h. (refl, tt)) (λ h. (refl, tt))
Overlapped-apply_overlap (suc size) (c ∷ d ∷ cs) =
    if_elim (Overlapped (suc size) (c ∷ d ∷ cs)) (suc size == 0 || ltb (length (c ∷ d ∷ cs)) 2)
      (c ∷ d ∷ cs) (overlap_list (suc size) (c ∷ d ∷ cs))
      (λ h. absurd (two_chunks size (length cs) h))
      (λ h. (refl, AllOverlap-overlap_from (suc size) c (d ∷ cs)))

Numbered-AllOverlap :
    (size i : ℕ) (prev : Chunk) (cs ds : List Chunk)
    → AllOverlap size prev cs ds
    → Numbered i cs
    → Numbered i ds
Numbered-AllOverlap size i prev [] [] a h = tt
Numbered-AllOverlap size i prev [] (d ∷ ds) a h = absurd a
Numbered-AllOverlap size i prev (c ∷ cs) [] a h = absurd a
Numbered-AllOverlap size i prev (c ∷ cs) (d ∷ ds) (x, a) (e, h) =
    (x.0 ∙ e, Numbered-AllOverlap size (suc i) d cs ds a h)

Numbered-Overlapped :
    (size : ℕ) (cs ds : List Chunk) (i : ℕ) → Overlapped size cs ds → Numbered i cs → Numbered i ds
Numbered-Overlapped zero cs ds i same h = subst (Numbered i) (sym same) h
Numbered-Overlapped (suc size) [] ds i same h = subst (Numbered i) (sym same) tt
Numbered-Overlapped (suc size) (c ∷ cs) [] i a h = absurd a
Numbered-Overlapped (suc size) (c ∷ cs) (d ∷ ds) i (same, a) (e, h) =
    (ap (λ (x : Chunk). x.index) same ∙ e, Numbered-AllOverlap (suc size) (suc i) c cs ds a h)

pub Numbered-apply_overlap :
    (size : ℕ) (cs : List Chunk) (i : ℕ) → Numbered i cs → Numbered i (apply_overlap size cs)
Numbered-apply_overlap size cs i =
    Numbered-Overlapped size cs (apply_overlap size cs) i (Overlapped-apply_overlap size cs)
