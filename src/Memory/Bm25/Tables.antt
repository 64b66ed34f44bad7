-- ===== src/Memory/Bm25/Tables.antt =====
-- Tables by document: each document stands once, and setting is looked up.
use awesome_agent.Prelude.{
  ℕ, ◌≤◌, ◌<◌, ◌≡◌, refl, subst, if_elim, false, Option, none, some, [], ◌∷◌, arith, ==_iff, ◌==◌,
  if◌then◌else◌,
}
use awesome_agent.Memory.Bm25.{Table, value_at, set_at}

module _ {V : Type 0} where
  pub value_at-set_at :
      (d e : ℕ) (v : V) (m : Table V)
      → value_at e (set_at d v m) ≡ (if d == e then some v else value_at e m)
  unfolding value_at set_at
  value_at-set_at d e v [] = refl
  value_at-set_at d e v ((k, w) ∷ m) =
      ground (arith, value_at-set_at d e v m, ==_iff d e, ==_iff k d, ==_iff k e)

  absent-set_at :
      (d e : ℕ) (v : V) (m : Table V)
      → value_at e m ≡ none
      → (e == d) ≡ false
      → value_at e (set_at d v m) ≡ none
  absent-set_at d e v m h q = ground (arith, value_at-set_at d e v m, ==_iff d e, ==_iff e d)

  -- no document stands twice
  abbrev pub Keyed : Table V → Type 0
  Keyed [] = Unit
  Keyed ((d, v) ∷ m) = (value_at d m ≡ none) × Keyed m

  pub set_at-Keyed : (d : ℕ) (v : V) (m : Table V) → Keyed m → Keyed (set_at d v m)
  unfolding set_at value_at
  set_at-Keyed d v [] h = (refl, tt)
  set_at-Keyed d v ((k, w) ∷ m) (absent, h) =
      if_elim Keyed (k == d) ((d, v) ∷ m) ((k, w) ∷ set_at d v m)
        (λ q. (subst (λ (x : ℕ). value_at x m ≡ none) ((==_iff k d).0 q) absent, h))
        (λ q. (absent-set_at d k v m absent q, set_at-Keyed d v m h))

  -- every document is below a bound
  abbrev pub Below : ℕ → Table V → Type 0
  Below n [] = Unit
  Below n ((d, v) ∷ m) = (d < n) × Below n m

  pub set_at-Below : (n d : ℕ) (v : V) (m : Table V) → d < n → Below n m → Below n (set_at d v m)
  unfolding set_at
  set_at-Below n d v [] h k = (h, tt)
  set_at-Below n d v ((e, w) ∷ m) h (j, k) =
      if_elim (Below n) (e == d) ((d, v) ∷ m) ((e, w) ∷ set_at d v m) (λ q. (h, k))
        (λ q. (j, set_at-Below n d v m h k))

  pub Below-mono : (n o : ℕ) (m : Table V) → n ≤ o → Below n m → Below o m
  Below-mono n o [] h k = tt
  Below-mono n o ((d, v) ∷ m) h (j, k) = (omega (arith, h, j), Below-mono n o m h k)

  -- a table, if there is one, names each document once, and only documents below the bound
  abbrev pub PostedBelow : ℕ → Option (Table V) → Type 0
  PostedBelow n none = Unit
  PostedBelow n (some posting) = Keyed posting × Below n posting
