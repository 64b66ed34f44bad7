-- ===== src/Memory/Working/Search.antt =====
-- What the searches return.
use awesome_agent.Prelude.{
  ℕ, zero, suc, ◌+◌, ◌≡◌, refl, ℤ, pos, Bool, true, false, not, ◌*◌, ◌++◌, leb, ltb, sym, ap, ◌∙◌,
  append-nil, append_assoc, Option, none, some, List, [], ◌∷◌, take, keep, arith,
}
use awesome_agent.Memory.Item.{MemoryItem, SearchOptions}
use awesome_agent.Memory.Working.{
  WorkingMemory, is_full, collect, newest_first, is_expired, no_query_search,
}

-- the first `limit` elements, or all of them where the limit is not positive
abbrev pub take_limit : {F : Type 0} → ℤ → List (MemoryItem F) → List (MemoryItem F)
take_limit (pos zero) items = items
take_limit (pos (suc n)) items = take (suc n) items
take_limit (ℤ.negsuc n) items = items

-- made at a time that is not more than `age` before the present, or at no time that is known
abbrev pub is_recent : (now age : ℕ) → Option ℕ → Bool
is_recent now age none = true
is_recent now age (some t) = leb now (t + age)

expired-is_recent :
    (now age : ℕ) (o : Option ℕ)
    → not (elim o [ none ↦ false | some t ↦ ltb (t + age) now ]) ≡ is_recent now age o
expired-is_recent now age none = refl
expired-is_recent now age (some t) = ground arith

module _ {F : Type 0} where
  -- the items from the last to the first, in front of `later`
  abbrev pub backwards : List (MemoryItem F) → List (MemoryItem F) → List (MemoryItem F)
  backwards [] later = later
  backwards (item ∷ items) later = backwards items (item ∷ later)

  newest_first-append :
      (items later : List (MemoryItem F)) → newest_first items ++ later ≡ backwards items later
  unfolding newest_first
  newest_first-append [] later = refl
  newest_first-append (item ∷ items) later =
      append_assoc (newest_first items) (item ∷ []) later ∙ newest_first-append items (item ∷ later)

  is_expired-is_recent :
      (now : ℕ) (w : WorkingMemory F) (item : MemoryItem F)
      → not (is_expired now w item)
        ≡ is_recent now (w.max_age_minutes * 60000000000) item.created_at
  unfolding is_expired
  is_expired-is_recent now w item =
      expired-is_recent now (w.max_age_minutes * 60000000000) item.created_at

  keep_same :
      (p q : MemoryItem F → Bool) (items : List (MemoryItem F))
      → ((item : MemoryItem F) → p item ≡ q item)
      → keep p items ≡ keep q items
  keep_same p q [] h = refl
  keep_same p q (item ∷ items) h = ground (arith, h item, keep_same p q items h)

  collect-unlimited :
      (skip : MemoryItem F → Bool) (limit : ℤ) (count : ℕ) (items : List (MemoryItem F))
      → ((k : ℕ) → is_full limit k ≡ false)
      → collect skip limit count items ≡ keep (λ item. not (skip item)) items
  unfolding collect
  collect-unlimited skip limit count [] h = refl
  collect-unlimited skip limit count (item ∷ items) h = ground (
    arith,
    h (count + 1),
    collect-unlimited skip limit count items h,
    collect-unlimited skip limit (count + 1) items h,
  )

  collect-limited :
      (skip : MemoryItem F → Bool) (n count left : ℕ) (items : List (MemoryItem F))
      → n ≡ count + suc left
      → collect skip (pos n) count items ≡ take (suc left) (keep (λ item. not (skip item)) items)
  unfolding collect
  collect-limited skip n count left [] h = refl
  collect-limited skip n count zero (item ∷ items) h =
      ground (arith, collect-limited skip n count zero items h)
  collect-limited skip n count (suc left) (item ∷ items) h = ground (
    arith,
    collect-limited skip n count (suc left) items h,
    collect-limited skip n (count + 1) left items (omega arith),
  )

  collect_limit :
      (skip : MemoryItem F → Bool) (limit : ℤ) (items : List (MemoryItem F))
      → collect skip limit 0 items ≡ take_limit limit (keep (λ item. not (skip item)) items)
  collect_limit skip (pos zero) items = collect-unlimited skip (pos 0) 0 items (λ k. refl)
  collect_limit skip (pos (suc n)) items = collect-limited skip (suc n) 0 n items (omega arith)
  collect_limit skip (ℤ.negsuc n) items = collect-unlimited skip (ℤ.negsuc n) 0 items (λ k. refl)

  -- A search without a query returns the items that were made within the greatest age, in minutes,
  -- before the present, or at no known time, the last that was added first, up to the limit, where it
  -- is positive.
  pub no_query_search_lem :
      (now : ℕ) (opts : SearchOptions) (w : WorkingMemory F)
      → no_query_search now opts w
        ≡ take_limit opts.limit (
            keep
              (λ item. is_recent now (w.max_age_minutes * 60000000000) item.created_at)
              (backwards w.items []))
  unfolding no_query_search
  no_query_search_lem now opts w =
      collect_limit (is_expired now w) opts.limit (newest_first w.items)
      ∙ ap (take_limit opts.limit) (
          keep_same (λ item. not (is_expired now w item))
            (λ item. is_recent now (w.max_age_minutes * 60000000000) item.created_at)
            (newest_first w.items) (is_expired-is_recent now w)
          ∙ ap (keep (λ item. is_recent now (w.max_age_minutes * 60000000000) item.created_at))
              (sym (append-nil (newest_first w.items)) ∙ newest_first-append w.items []))
