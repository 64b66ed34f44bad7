-- ===== src/Rag/Ingestion/Embed.antt =====
-- pipeline.go: the vectors of the chunks, in batches, with further attempts after an error.
pub mod Batches
pub mod Attempts
use awesome_agent.Prelude.{
  ℕ, zero, suc, ℤ, pos, negsuc, Bool, true, false, ◌||◌, Option, none, some, List, [], ◌∷◌, ◌++◌,
  map, Text, codes, length, take, drop, Result, ok, err, if◌then◌else◌,
}
use awesome_agent.Go.Strings.{contains_text}

-- the errors of the embedding, and two ways of not returning: a slice out of range, and a loop without end
pub data EmbedError : Type 0 where
  client_error : Text → EmbedError
  cancelled : Text → EmbedError
  retries_failed : Text → EmbedError
  out_of_range : EmbedError
  out_of_fuel : EmbedError

-- the HTTP codes of the client's errors but 429
abbrev pub http_4xx_codes : List Text
http_4xx_codes =
    codes "400"
    ∷ codes "401"
    ∷ codes "402"
    ∷ codes "403"
    ∷ codes "404"
    ∷ codes "405"
    ∷ codes "406"
    ∷ codes "407"
    ∷ codes "408"
    ∷ codes "409"
    ∷ codes "410"
    ∷ codes "411"
    ∷ codes "412"
    ∷ codes "413"
    ∷ codes "414"
    ∷ codes "415"
    ∷ codes "416"
    ∷ codes "417"
    ∷ codes "418"
    ∷ codes "421"
    ∷ codes "422"
    ∷ codes "423"
    ∷ codes "424"
    ∷ codes "425"
    ∷ codes "426"
    ∷ codes "428"
    ∷ codes "431"
    ∷ codes "451"
    ∷ []

abbrev pub names_status : Text → List Text → Bool
names_status msg [] = false
names_status msg (code ∷ rest) =
    let later = names_status msg rest in contains_text msg (codes "status " ++ code) || later

unfoldable pub is_non_retryable_http_error : Text → Bool
unfolding contains_text
is_non_retryable_http_error msg = names_status msg http_4xx_codes

-- the size in the options, if it is there and a number
abbrev pub batch_size_or_default : Option ℤ → ℤ
batch_size_or_default none = pos 32
batch_size_or_default (some n) = n

-- the embedding service, and the wait after the given attempt, which the context may cancel
pub record Embedding (F W : Type 0) : Type 0 where
  pub embed_batch : List Text → W → Result Text (List (List F)) × W
  pub wait : ℕ → W → Option Text × W

module _ {F W : Type 0} (service : Embedding F W) where
  abbrev pub after_wait :
      (W → Result EmbedError (List (List F)) × W)
      → Option Text × W
      → Result EmbedError (List (List F)) × W
  after_wait continue (some e, w) = (err (cancelled e), w)
  after_wait continue (none, w) = continue w

  -- no wait after the last attempt
  abbrev pub try_later :
      ℕ
      → ℕ
      → Text
      → (W → Result EmbedError (List (List F)) × W)
      → W
      → Result EmbedError (List (List F)) × W
  try_later zero attempt e continue w = (err (retries_failed e), w)
  try_later (suc left) attempt e continue w = after_wait continue (service.wait attempt w)

  abbrev pub after_attempt :
      ℕ
      → ℕ
      → (W → Result EmbedError (List (List F)) × W)
      → Result Text (List (List F)) × W
      → Result EmbedError (List (List F)) × W
  after_attempt left attempt continue (ok vectors, w) = (ok vectors, w)
  after_attempt left attempt continue (err e, w) =
      let later = try_later left attempt e continue w in
      if is_non_retryable_http_error e then (err (client_error e), w) else later

  -- the attempts that are left, after so many
  unfoldable pub attempts_from : ℕ → ℕ → List Text → W → Result EmbedError (List (List F)) × W
  unfolding is_non_retryable_http_error
  attempts_from zero attempt texts w = (err (retries_failed []), w)
  attempts_from (suc left) attempt texts w =
      after_attempt left attempt (attempts_from left (suc attempt) texts)
        (service.embed_batch texts w)

  abbrev pub embed_with_retry : ℕ → List Text → W → Result EmbedError (List (List F)) × W
  embed_with_retry max_retries texts w = attempts_from max_retries zero texts w

  abbrev pub then_batches :
      (W → Result EmbedError (List (List F)) × W)
      → Result EmbedError (List (List F)) × W
      → Result EmbedError (List (List F)) × W
  then_batches continue (err e, w) = (err e, w)
  then_batches continue (ok vectors, w) =
      let (rest, w') = continue w in (elim rest [ err e ↦ err e | ok vs ↦ ok (vectors ++ vs) ], w')

  -- the loop over the batches; with a size of 0 the same empty batch is sent again and again
  unfoldable pub embed_batches_from : ℕ → ℕ → List Text → W → Result EmbedError (List (List F)) × W
  unfolding attempts_from
  embed_batches_from fuel size [] w = (ok [], w)
  embed_batches_from zero size (t ∷ ts) w = (err out_of_fuel, w)
  embed_batches_from (suc fuel) size (t ∷ ts) w =
      then_batches (embed_batches_from fuel size (drop size (t ∷ ts)))
        (embed_with_retry 3 (take size (t ∷ ts)) w)

  -- the first slice ends below 0 if the size is below 0
  abbrev pub embed_sized : ℤ → List Text → W → Result EmbedError (List (List F)) × W
  embed_sized (pos size) texts w = embed_batches_from (length texts) size texts w
  embed_sized (negsuc n) [] w = (ok [], w)
  embed_sized (negsuc n) (t ∷ ts) w = (err out_of_range, w)

  unfoldable pub embed_chunks : Option ℤ → List Text → W → Result EmbedError (List (List F)) × W
  unfolding embed_batches_from
  embed_chunks option texts w = embed_sized (batch_size_or_default option) texts w
