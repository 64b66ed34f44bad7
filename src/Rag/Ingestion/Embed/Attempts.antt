-- ===== src/Rag/Ingestion/Embed/Attempts.antt =====
-- How often the embedding service is called.
use awesome_agent.Prelude.{
  ℕ, zero, suc, ℤ, pos, negsuc, ◌+◌, ◌*◌, ◌≤◌, ◌≡◌, Option, none, some, List, [], ◌∷◌, Text, length,
  length-drop, take, drop, Result, ok, err, arith, if_elim, subst,
}
use awesome_agent.Rag.Ingestion.Embed.{
  EmbedError, client_error, is_non_retryable_http_error, batch_size_or_default, Embedding,
  after_wait, try_later, after_attempt, attempts_from, embed_with_retry, then_batches,
  embed_batches_from, embed_sized, embed_chunks,
}

module _ {F W : Type 0} (service : Embedding F W) (count : W → ℕ)
    (call_counts : (texts : List Text) (w : W)
      → count (service.embed_batch texts w).1 ≤ count w + 1)
    (wait_keeps : (attempt : ℕ) (w : W) → count (service.wait attempt w).1 ≤ count w) where
  abbrev Out : Type 0
  Out = Result EmbedError (List (List F)) × W

  count-after_wait :
      (continue : W → Out) (o : Option Text) (w : W) (bound : ℕ)
      → count w ≤ bound
      → count (continue w).1 ≤ bound
      → count (after_wait service continue (o, w)).1 ≤ bound
  count-after_wait continue none w bound h k = k
  count-after_wait continue (some e) w bound h k = h

  count-try_later :
      (left attempt : ℕ) (e : Text) (continue : W → Out) (w : W)
      → ((v : W) → count (continue v).1 ≤ count v + left)
      → count (try_later service left attempt e continue w).1 ≤ count w + left
  count-try_later zero attempt e continue w h = omega arith
  count-try_later (suc left) attempt e continue w h =
      let (o, v) = service.wait attempt w in
      let kept : count v ≤ count w = wait_keeps attempt w in
      count-after_wait continue o v (count w + suc left) (omega (arith, kept))
        (omega (arith, kept, h v))

  count-after_attempt :
      (left attempt : ℕ) (continue : W → Out) (r : Result Text (List (List F))) (w : W)
      → ((v : W) → count (continue v).1 ≤ count v + left)
      → count (after_attempt service left attempt continue (r, w)).1 ≤ count w + left
  count-after_attempt left attempt continue (ok vs) w h = omega arith
  count-after_attempt left attempt continue (err e) w h =
      if_elim (λ (r : Result EmbedError (List (List F)) × W). count r.1 ≤ count w + left)
        (is_non_retryable_http_error e) (err (client_error e), w)
        (try_later service left attempt e continue w) (λ c. omega arith)
        (λ c. count-try_later left attempt e continue w h)

  count-attempts_from :
      (left attempt : ℕ) (texts : List Text) (w : W)
      → count (attempts_from service left attempt texts w).1 ≤ count w + left
  unfolding attempts_from
  count-attempts_from zero attempt texts w = omega arith
  count-attempts_from (suc left) attempt texts w =
      let (r, v) = service.embed_batch texts w in
      omega (
        arith,
        call_counts texts w,
        count-after_attempt left attempt (attempts_from service left (suc attempt) texts) r v
            (λ u. count-attempts_from left (suc attempt) texts u),
      )

  count-then_batches :
      (continue : W → Out) (r : Result EmbedError (List (List F))) (w : W) (more : ℕ)
      → ((v : W) → count (continue v).1 ≤ count v + more)
      → count (then_batches service continue (r, w)).1 ≤ count w + more
  count-then_batches continue (ok vs) w more h = h w
  count-then_batches continue (err e) w more h = omega arith

  count-embed_batches_from :
      (k fuel n : ℕ) (texts : List Text) (w : W)
      → length texts ≤ k * suc n
      → count (embed_batches_from service fuel (suc n) texts w).1 ≤ count w + 3 * k
  unfolding embed_batches_from
  count-embed_batches_from k fuel n [] w h = omega arith
  count-embed_batches_from k zero n (t ∷ ts) w h = omega arith
  count-embed_batches_from zero (suc fuel) n (t ∷ ts) w h = absurd (omega (arith, h))
  count-embed_batches_from (suc k) (suc fuel) n (t ∷ ts) w h =
      let batch = take (suc n) (t ∷ ts) in
      let rest = drop (suc n) (t ∷ ts) in
      let (r, v) = embed_with_retry service 3 batch w in
      let fewer : length rest ≤ k * suc n = omega (arith, h, length-drop n ts) in
      omega (
        arith,
        count-attempts_from 3 zero batch w,
        count-then_batches (embed_batches_from service fuel (suc n) rest) r v (3 * k)
            (λ u. count-embed_batches_from k fuel n rest u fewer),
      )

  count-embed_sized :
      (size : ℤ) (k n : ℕ) (texts : List Text) (w : W)
      → size ≡ pos (suc n)
      → length texts ≤ k * suc n
      → count (embed_sized service size texts w).1 ≤ count w + 3 * k
  count-embed_sized (pos m) k n texts w e h =
      let same : suc n ≡ m = cc in
      subst
        (λ (m : ℕ). count (embed_batches_from service (length texts) m texts w).1 ≤ count w + 3 * k)
        same (count-embed_batches_from k (length texts) n texts w h)
  count-embed_sized (negsuc m) k n texts w e h = cc

  -- The texts of k batches of one or more are embedded with 3 k calls of the service in all, at most,
  -- whatever it answers.
  pub embed_chunks_calls :
      (option : Option ℤ) (k n : ℕ) (texts : List Text) (w : W)
      → batch_size_or_default option ≡ pos (suc n)
      → length texts ≤ k * suc n
      → count (embed_chunks service option texts w).1 ≤ count w + 3 * k
  unfolding embed_chunks
  embed_chunks_calls option = count-embed_sized (batch_size_or_default option)
