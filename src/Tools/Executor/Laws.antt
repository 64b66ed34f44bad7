-- ===== src/Tools/Executor/Laws.antt =====
-- Each tool call has its answer, and a tool runs with parameters that its specifications allow.
use awesome_agent.Prelude.{
  ◌≡◌, refl, sym, ap, ◌∙◌, ◌⊎◌, inl, inr, Bool, true, false, Option, none, some, List, [], ◌∷◌,
  Text, Dict, lookup, insert, lookup-insert, codes, Result, ok, err, ◌>>=◌, text_eq, text_eq_sound,
  text_eq_refl, if◌then◌else◌, All, Bool-cases, Option-cases, if_true, if_false,
}
use awesome_agent.Tools.Tool.{Value, ToolParameter, Params, Tool}
use awesome_agent.Tools.Registry.{ToolRegistry, tool}
use awesome_agent.Core.Message.{ToolCall, Message}
use awesome_agent.Tools.Executor.{
  ParamError, missing_required, wrong_type, Floats, with_default, has_type, check_type, fill_params,
  run_found, run_parsed, run_checked, ran, execute_one, execute_all, arguments_of, validate_params,
}

-- the message answers the call with the identifier
abbrev pub Answers : Text → Message → Type 0
Answers id m = (m.tool_call_id ≡ id) × (m.role ≡ codes "tool")

abbrev pub AllAnswered : List ToolCall → List Message → Type 0
AllAnswered [] [] = Unit
AllAnswered [] (m ∷ ms) = ⊥
AllAnswered (call ∷ calls) [] = ⊥
AllAnswered (call ∷ calls) (m ∷ ms) = Answers call.id m × AllAnswered calls ms

module _ {F W : Type 0} (floats : Floats F)
    (order : Dict (ToolParameter F) → Dict (ToolParameter F))
    (unmarshal : Text → Result Text (Params F)) (quote_text : Text → Text)
    (show_error : ParamError → Text) where
  Answers-ran :
      (id : Text) (r : Result Text Text × W)
      → Answers id (ran floats order unmarshal quote_text show_error id r).0
  Answers-ran id (ok result, w) = (refl, refl)
  Answers-ran id (err e, w) = (refl, refl)

  Answers-run_checked :
      (id : Text) (t : Tool F W) (w : W) (r : Result ParamError (Params F))
      → Answers id (run_checked floats order unmarshal quote_text show_error id t w r).0
  Answers-run_checked id t w (err e) = (refl, refl)
  Answers-run_checked id t w (ok params) = Answers-ran id (t.run params w)

  Answers-run_parsed :
      (id : Text) (t : Tool F W) (w : W) (r : Result Text (Params F))
      → Answers id (run_parsed floats order unmarshal quote_text show_error id t w r).0
  Answers-run_parsed id t w (err e) = (refl, refl)
  Answers-run_parsed id t w (ok params) =
      Answers-run_checked id t w
        (validate_params floats order unmarshal quote_text show_error t params)

  Answers-run_found :
      (call : ToolCall) (w : W) (o : Option (Tool F W))
      → Answers call.id (run_found floats order unmarshal quote_text show_error call w o).0
  Answers-run_found call w none = (refl, refl)
  Answers-run_found call w (some t) =
      Answers-run_parsed call.id t w (arguments_of unmarshal call.arguments)

  -- Whatever the tools, their errors and the arguments are, the messages answer the calls one by one,
  -- in their order, each with the identifier of its call.
  pub AllAnswered-execute_all :
      (registry : ToolRegistry F W) (calls : List ToolCall) (w : W)
      → AllAnswered calls
          (execute_all floats order unmarshal quote_text show_error registry calls w).0
  unfolding execute_all
  AllAnswered-execute_all registry [] w = tt
  AllAnswered-execute_all registry (call ∷ calls) w = (
    Answers-run_found call w (tool registry call.name),
    AllAnswered-execute_all registry calls
        (execute_one floats order unmarshal quote_text show_error registry call w).1,
  )

module _ {F : Type 0} (floats : Floats F) where
  -- what holds of a specification in the parameters that validation returns
  abbrev pub Met : Params F → Text × ToolParameter F → Type 0
  Met result (name, spec) =
      ((v : Value F) × (lookup name result ≡ some v)
        × ((has_type floats v spec.type ≡ true) ⊎ (spec.default ≡ some v)))
      ⊎ ((spec.required ≡ false) × (spec.default ≡ none))

  lookup-with_default :
      (k name : Text) (d : Option (Value F)) (params : Params F) (v : Value F)
      → lookup name params ≡ none
      → lookup k params ≡ some v
      → lookup k (with_default name d params) ≡ some v
  lookup-with_default k name none params v h e = e
  lookup-with_default k name (some x) params v h e =
      lookup-insert name k x params ∙ elim (Bool-cases (text_eq name k)) [
        | inl q ↦ absurd (absent (sym h ∙ ap (λ n. lookup n params) (text_eq_sound name k q) ∙ e))
        | inr q ↦ if_false (text_eq name k) _ _ q ∙ e
      ]
    where
      absent : {u : Value F} → ◌≡◌ {A = Option (Value F)} none (some u) → ⊥
      absent p = cc

  -- the two cases of a round
  fill_params-absent :
      (name : Text) (spec : ToolParameter F) (specs : Dict (ToolParameter F)) (params : Params F)
      → lookup name params ≡ none
      → fill_params floats ((name, spec) ∷ specs) params ≡ (
          if spec.required
          then err (missing_required name)
          else fill_params floats specs (with_default name spec.default params))
  unfolding fill_params
  fill_params-absent name spec specs params h = rw (h, fill_params)

  fill_params-present :
      (name : Text) (spec : ToolParameter F) (specs : Dict (ToolParameter F)) (params : Params F)
      (v : Value F)
      → lookup name params ≡ some v
      → fill_params floats ((name, spec) ∷ specs) params
        ≡ (check_type floats name v spec.type >>= λ b. fill_params floats specs params)
  unfolding fill_params
  fill_params-present name spec specs params v h = rw (h, fill_params)

  guard_ok :
      (b : Bool) (e : ParamError) (r : Result ParamError (Params F)) (result : Params F)
      → ((if b then ok true else err e) >>= λ c. r) ≡ ok result
      → (b ≡ true) × (r ≡ ok result)
  guard_ok true e r result h = (refl, h)
  guard_ok false e r result h = cc

  refusal_ok :
      (b : Bool) (e : ParamError) (r : Result ParamError (Params F)) (result : Params F)
      → (if b then err e else r) ≡ ok result
      → (b ≡ false) × (r ≡ ok result)
  refusal_ok true e r result h = cc
  refusal_ok false e r result h = (refl, h)

  -- an accepted value lets the loop go on
  check_type-ok :
      (name : Text) (v : Value F) (spec : ToolParameter F) (r : Result ParamError (Params F))
      (result : Params F)
      → (check_type floats name v spec.type >>= λ b. r) ≡ ok result
      → (has_type floats v spec.type ≡ true) × (r ≡ ok result)
  unfolding check_type
  check_type-ok name v spec r result e =
      guard_ok (has_type floats v spec.type) (wrong_type name spec.type) r result e

  lookup-fill_params :
      (specs : Dict (ToolParameter F)) (params result : Params F) (k : Text) (v : Value F)
      → fill_params floats specs params ≡ ok result
      → lookup k params ≡ some v
      → lookup k result ≡ some v
  lookup-fill_params [] params result k v h e =
      let same : params ≡ result = unfold fill_params in cc in rw (sym same) e
  lookup-fill_params ((name, spec) ∷ specs) params result k v h e =
      elim (Option-cases (lookup name params)) [
        | inl q ↦
            let (f, r) =
              refusal_ok spec.required (missing_required name) _ result
                (sym (fill_params-absent name spec specs params q) ∙ h) in
            lookup-fill_params specs (with_default name spec.default params) result k v r
              (lookup-with_default k name spec.default params v q e)
        | inr (u, q) ↦
            let (f, r) =
              check_type-ok name u spec _ result
                (sym (fill_params-present name spec specs params u q) ∙ h) in
            lookup-fill_params specs params result k v r e
      ]

  Met-default :
      (name : Text) (spec : ToolParameter F) (d : Option (Value F)) (specs : Dict (ToolParameter F))
      (params result : Params F)
      → spec.required ≡ false
      → spec.default ≡ d
      → fill_params floats specs (with_default name d params) ≡ ok result
      → Met result (name, spec)
  Met-default name spec none specs params result f g r = inr (f, g)
  Met-default name spec (some v) specs params result f g r = inl (
    v,
    lookup-fill_params specs (insert name v params) result name v r
        (lookup-insert name name v params ∙ if_true (text_eq name name) _ _ (text_eq_refl name)),
    inr g,
  )

  -- Where the loop over the specifications accepts, each specification is met: the result holds a
  -- value of its type or its default, or the parameter is neither required nor has a default.
  pub All-Met-fill_params :
      (specs : Dict (ToolParameter F)) (params result : Params F)
      → fill_params floats specs params ≡ ok result
      → All (Met result) specs
  All-Met-fill_params [] params result h = tt
  All-Met-fill_params ((name, spec) ∷ specs) params result h =
      elim (Option-cases (lookup name params)) [
        | inl q ↦
            let (f, r) =
              refusal_ok spec.required (missing_required name) _ result
                (sym (fill_params-absent name spec specs params q) ∙ h) in
            (
              Met-default name spec spec.default specs params result f refl r,
              All-Met-fill_params specs (with_default name spec.default params) result r,
            )
        | inr (u, q) ↦
            let (f, r) =
              check_type-ok name u spec _ result
                (sym (fill_params-present name spec specs params u q) ∙ h) in
            (
              inl (u, lookup-fill_params specs params result name u r q, inl f),
              All-Met-fill_params specs params result r,
            )
      ]
