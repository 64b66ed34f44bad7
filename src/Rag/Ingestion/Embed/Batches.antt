-- ===== src/Rag/Ingestion/Embed/Batches.antt =====
-- The batches together give each text its vector, with three attempts at most for each batch.
use awesome_agent.Prelude.{
  ℕ, zero, suc, ℤ, pos, negsuc, ◌≤◌, ◌≡◌, refl, sym, subst, Option, none, some, List, [], ◌∷◌, ◌++◌,
  map, Text, length, length-drop, take, drop, take-append-drop, Result, ok, err, arith, if_elim,
}
use awesome_agent.Rag.Ingestion.Embed.{
  EmbedError, client_error, cancelled, retries_failed, out_of_range, out_of_fuel,
  is_non_retryable_http_error, batch_size_or_default, Embedding, after_wait, try_later,
  after_attempt, attempts_from, embed_with_retry, then_batches, embed_batches_from, embed_sized,
  embed_chunks,
}

map-append : {A B : Type 0} (f : A → B) (xs ys : List A) → map f (xs ++ ys) ≡ map f xs ++ map f ys
map-append f [] ys = refl
map-append f (x ∷ xs) ys = rw (map-append f xs ys)

module _ {F W : Type 0} (service : Embedding F W) where
  module _ (vector_of : Text → List F) where
    -- a service that answers gives each text its vector
    abbrev pub Honest : List Text → Result Text (List (List F)) → Type 0
    Honest texts (ok vectors) = vectors ≡ map vector_of texts
    Honest texts (err e) = Unit

    -- the vectors of all the texts, or an error of the service or of the context
    abbrev pub Embedded : List Text → Result EmbedError (List (List F)) → Type 0
    Embedded texts (ok vectors) = vectors ≡ map vector_of texts
    Embedded texts (err (client_error e)) = Unit
    Embedded texts (err (cancelled e)) = Unit
    Embedded texts (err (retries_failed e)) = Unit
    Embedded texts (err out_of_range) = ⊥
    Embedded texts (err out_of_fuel) = ⊥

    Embedded-after_wait :
        (texts : List Text) (continue : W → Result EmbedError (List (List F)) × W) (o : Option Text)
        (w : W)
        → ((v : W) → Embedded texts (continue v).0)
        → Embedded texts (after_wait service continue (o, w)).0
    Embedded-after_wait texts continue none w h = h w
    Embedded-after_wait texts continue (some e) w h = tt

    Embedded-try_later :
        (left attempt : ℕ) (texts : List Text) (e : Text)
        (continue : W → Result EmbedError (List (List F)) × W) (w : W)
        → ((v : W) → Embedded texts (continue v).0)
        → Embedded texts (try_later service left attempt e continue w).0
    Embedded-try_later zero attempt texts e continue w h = tt
    Embedded-try_later (suc left) attempt texts e continue w h =
        let (o, v) = service.wait attempt w in Embedded-after_wait texts continue o v h

    module _
        (honest : (texts : List Text) (w : W) → Honest texts (service.embed_batch texts w).0) where
      Embedded-after_attempt :
          (left attempt : ℕ) (texts : List Text)
          (continue : W → Result EmbedError (List (List F)) × W) (r : Result Text (List (List F)))
          (w : W)
          → ((v : W) → Embedded texts (continue v).0)
          → Honest texts r
          → Embedded texts (after_attempt service left attempt continue (r, w)).0
      Embedded-after_attempt left attempt texts continue (ok vs) w h same = same
      Embedded-after_attempt left attempt texts continue (err e) w h same =
          if_elim (λ (r : Result EmbedError (List (List F)) × W). Embedded texts r.0)
            (is_non_retryable_http_error e) (err (client_error e), w)
            (try_later service left attempt e continue w) (λ c. tt)
            (λ c. Embedded-try_later left attempt texts e continue w h)

      Embedded-attempts_from :
          (left attempt : ℕ) (texts : List Text) (w : W)
          → Embedded texts (attempts_from service left attempt texts w).0
      unfolding attempts_from
      Embedded-attempts_from zero attempt texts w = tt
      Embedded-attempts_from (suc left) attempt texts w =
          let (r, v) = service.embed_batch texts w in
          Embedded-after_attempt left attempt texts (attempts_from service left (suc attempt) texts)
            r v (λ u. Embedded-attempts_from left (suc attempt) texts u) (honest texts w)

      Embedded-append :
          (xs ys : List Text) (vectors : List (List F)) (r : Result EmbedError (List (List F)))
          → vectors ≡ map vector_of xs
          → Embedded ys r
          → Embedded (xs ++ ys) (elim r [ err e ↦ err e | ok vs ↦ ok (vectors ++ vs) ])
      Embedded-append xs ys vectors (ok vs) h k = rw (h, k, sym (map-append vector_of xs ys))
      Embedded-append xs ys vectors (err (client_error e)) h k = tt
      Embedded-append xs ys vectors (err (cancelled e)) h k = tt
      Embedded-append xs ys vectors (err (retries_failed e)) h k = tt
      Embedded-append xs ys vectors (err out_of_range) h k = k
      Embedded-append xs ys vectors (err out_of_fuel) h k = k

      Embedded-then_batches :
          (xs ys : List Text) (continue : W → Result EmbedError (List (List F)) × W)
          (r : Result EmbedError (List (List F))) (w : W)
          → Embedded xs r
          → ((v : W) → Embedded ys (continue v).0)
          → Embedded (xs ++ ys) (then_batches service continue (r, w)).0
      Embedded-then_batches xs ys continue (ok vs) w h k =
          Embedded-append xs ys vs (continue w).0 h (k w)
      Embedded-then_batches xs ys continue (err (client_error e)) w h k = tt
      Embedded-then_batches xs ys continue (err (cancelled e)) w h k = tt
      Embedded-then_batches xs ys continue (err (retries_failed e)) w h k = tt
      Embedded-then_batches xs ys continue (err out_of_range) w h k = h
      Embedded-then_batches xs ys continue (err out_of_fuel) w h k = h

      Embedded-embed_batches_from :
          (fuel n : ℕ) (texts : List Text) (w : W)
          → length texts ≤ fuel
          → Embedded texts (embed_batches_from service fuel (suc n) texts w).0
      unfolding embed_batches_from
      Embedded-embed_batches_from fuel n [] w h = refl
      Embedded-embed_batches_from zero n (t ∷ ts) w h = absurd (omega (arith, h))
      Embedded-embed_batches_from (suc fuel) n (t ∷ ts) w h =
          let batch = take (suc n) (t ∷ ts) in
          let rest = drop (suc n) (t ∷ ts) in
          let (r, v) = embed_with_retry service 3 batch w in
          let both =
            Embedded-then_batches batch rest (embed_batches_from service fuel (suc n) rest) r v
              (Embedded-attempts_from 3 zero batch w)
              (λ u.
                Embedded-embed_batches_from fuel n rest u (omega (arith, h, length-drop n ts))) in
          subst
            (λ (xs : List Text).
              Embedded xs
                (then_batches service (embed_batches_from service fuel (suc n) rest) (r, v)).0)
            (take-append-drop (suc n) (t ∷ ts)) both

      Embedded-embed_sized :
          (size : ℤ) (n : ℕ) (texts : List Text) (w : W)
          → size ≡ pos (suc n)
          → Embedded texts (embed_sized service size texts w).0
      Embedded-embed_sized (pos k) n texts w h =
          let same : suc n ≡ k = cc in
          subst (λ (k : ℕ). Embedded texts (embed_batches_from service (length texts) k texts w).0)
            same (Embedded-embed_batches_from (length texts) n texts w (omega arith))
      Embedded-embed_sized (negsuc k) n texts w h = cc

      -- Let the service, whenever it answers, give each text of a batch its vector. With a size of a
      -- batch of one or more, the embedding ends without a slice out of range: it gives the vectors of
      -- all texts in their order, or an error of the service or of the context.
      pub Embedded-embed_chunks :
          (option : Option ℤ) (n : ℕ) (texts : List Text) (w : W)
          → batch_size_or_default option ≡ pos (suc n)
          → Embedded texts (embed_chunks service option texts w).0
      unfolding embed_chunks
      Embedded-embed_chunks option n texts w h =
          Embedded-embed_sized (batch_size_or_default option) n texts w h
