-- ===== src/Tools/Terminal/Sessions.antt =====
-- What the operations on sessions do to the sessions they are not about.
use awesome_agent.Prelude.{
  append-nil, take-append-drop, drop, length-drop, subst, ◌⊎◌, inl, inr, sym, [], ◌∷◌, ◌++◌, ltb,
  if_elim, ℕ, ◌≤◌, ◌≡◌, refl, ap, ◌∙◌, false, Option, none, some, Text, Dict, codes, text_eq,
  lookup, insert, lookup-insert, Result, err, is_empty, length, take, length-take, ltb, arith,
  if_elim, if_false,
}
use awesome_agent.Tools.Tool.{Params}
use awesome_agent.Tools.Terminal.{
  TerminalSession, TerminalTool, Ending, ended, unstarted, late, Platform, Answer, cd_disabled,
  current, outside_workspace, not_found, access_error, not_a_directory, changed, not_allowed,
  timed_out, no_output, command_failed, shown, TerminalError, cmd_required, text_param,
  or_default_id, found_or_made, resolve_session, move_session, handle_cd, execute_command,
  cut_output, ending_answer, both_outputs, after_cd, is_cd_command, is_allowed,
  extract_command_name, run_command, ok_answer, run_terminal,
}

lookup-insert-other :
    (id j : Text) (s : TerminalSession) (sessions : Dict TerminalSession)
    → text_eq id j ≡ false
    → lookup j (insert id s sessions) ≡ lookup j sessions
lookup-insert-other id j s sessions h =
    lookup-insert id j s sessions ∙ if_false (text_eq id j) _ _ h

module _ {W : Type 0} (os : Platform W) where
  lookup-found_or_made :
      (now : ℕ) (id j : Text) (t : TerminalTool) (o : Option TerminalSession)
      → text_eq id j ≡ false
      → lookup j (found_or_made now id t o).2.sessions ≡ lookup j t.sessions
  lookup-found_or_made now id j t none h = lookup-insert-other id j _ t.sessions h
  lookup-found_or_made now id j t (some s) h = refl

  id-found_or_made :
      (now : ℕ) (id : Text) (t : TerminalTool) (o : Option TerminalSession)
      → (found_or_made now id t o).0 ≡ id
  id-found_or_made now id t none = refl
  id-found_or_made now id t (some s) = refl

  lookup-move_session :
      (id cwd j : Text) (sessions : Dict TerminalSession) (o : Option TerminalSession)
      → text_eq id j ≡ false
      → lookup j (move_session id cwd sessions o) ≡ lookup j sessions
  lookup-move_session id cwd j sessions none h = refl
  lookup-move_session id cwd j sessions (some s) h = lookup-insert-other id j _ sessions h

  lookup-after_cd :
      (id j : Text) (t : TerminalTool) (a : Answer)
      → text_eq id j ≡ false
      → lookup j (after_cd os id t a).sessions ≡ lookup j t.sessions
  lookup-after_cd id j t (changed path) h =
      lookup-move_session id path j t.sessions (lookup id t.sessions) h
  lookup-after_cd id j t cd_disabled h = refl
  lookup-after_cd id j t (current path) h = refl
  lookup-after_cd id j t (outside_workspace path) h = refl
  lookup-after_cd id j t (not_found path) h = refl
  lookup-after_cd id j t (access_error e) h = refl
  lookup-after_cd id j t (not_a_directory path) h = refl
  lookup-after_cd id j t (not_allowed name) h = refl
  lookup-after_cd id j t timed_out h = refl
  lookup-after_cd id j t no_output h = refl
  lookup-after_cd id j t (command_failed e) h = refl
  lookup-after_cd id j t (shown s) h = refl

  lookup-run_command :
      (cmd id cwd j : Text) (t : TerminalTool) (w : W)
      → text_eq id j ≡ false
      → lookup j (run_command os cmd (id, cwd, t) w).1.sessions ≡ lookup j t.sessions
  lookup-run_command cmd id cwd j t w h =
      let a = handle_cd os w t cmd cwd in
      if_elim (λ (r : Answer × TerminalTool × W). lookup j r.1.sessions ≡ lookup j t.sessions)
        (is_cd_command os cmd) _ _
        (λ p.
          if_elim (λ (r : Answer × TerminalTool × W). lookup j r.1.sessions ≡ lookup j t.sessions)
            t.allow_cd (a, after_cd os id t a, w) (cd_disabled, t, w)
            (λ q. lookup-after_cd id j t a h) (λ q. refl))
        (λ p.
          if_elim (λ (r : Answer × TerminalTool × W). lookup j r.1.sessions ≡ lookup j t.sessions)
            (is_allowed os t.allowed_commands (extract_command_name os cmd))
            ((execute_command os t cmd cwd w).0, t, (execute_command os t cmd cwd w).1)
            (not_allowed (extract_command_name os cmd), t, w) (λ q. refl) (λ q. refl))

  -- A call leaves every session but its own as it was.
  pub run_terminal_frame :
      {F : Type 0} (now : ℕ) (params : Params F) (t : TerminalTool) (w : W) (j : Text)
      → text_eq
          (or_default_id t.default_session_id (text_param (lookup (codes "_session_id") params)))
          j
        ≡ false
      → lookup j (run_terminal os now params t w).1.sessions ≡ lookup j t.sessions
  unfolding run_terminal resolve_session
  run_terminal_frame now params t w j h =
      let cmd = text_param (lookup (codes "cmd") params) in
      let id =
        or_default_id t.default_session_id (text_param (lookup (codes "_session_id") params)) in
      let o = lookup id t.sessions in
      let r = found_or_made now id t o in
      let made = lookup-found_or_made now id j t o h in
      let own : text_eq r.0 j ≡ false = ap (λ x. text_eq x j) (id-found_or_made now id t o) ∙ h in
      if_elim
        (λ (x : Result TerminalError Answer × TerminalTool × W).
          lookup j x.1.sessions ≡ lookup j t.sessions)
        (is_empty cmd) (err cmd_required, r.2, w) (ok_answer os (run_command os cmd r w))
        (λ p. made) (λ p. lookup-run_command cmd r.0 r.1 j r.2 w own ∙ made)

  abbrev code_line : Option ℕ → Text
  code_line none = []
  code_line (some code) = os.show_code code

  abbrev errors_part : Text → Text
  errors_part [] = []
  errors_part (c ∷ s) = codes "\n[stderr]\n" ++ (c ∷ s)

  -- the exit code, what the command wrote, and what it wrote to stderr
  abbrev pub report : Text → Text → Option ℕ → Text
  report out errors code = code_line code ++ (out ++ errors_part errors)

  -- the report whole, within the limit, or its first bytes, as many as the limit, and a notice
  abbrev pub Reported : ℕ → Text → Answer → Type 0
  Reported most full a =
      ((length full ≤ most) × (a ≡ shown full))
      ⊎ ((kept : Text) × (rest : Text) × (full ≡ kept ++ rest)
          × (length kept ≡ most)
          × (1 ≤ length rest)
          × (a ≡ shown (kept ++ os.show_notice most)))

  -- the answer for each way that a command ends
  abbrev pub Ended : ℕ → Ending → Answer → Type 0
  Ended most late a = a ≡ timed_out
  Ended most (unstarted e) a = a ≡ command_failed e
  Ended most (ended [] [] none) a = a ≡ no_output
  Ended most (ended (c ∷ s) errors none) a = Reported most (report (c ∷ s) errors none) a
  Ended most (ended [] (c ∷ s) none) a = Reported most (report [] (c ∷ s) none) a
  Ended most (ended out errors (some code)) a = Reported most (report out errors (some code)) a

  Reported-cut_output : (most : ℕ) (full : Text) → Reported most full (cut_output os most full)
  Reported-cut_output most full =
      if_elim (Reported most full) (ltb most (length full))
        (shown (take most full ++ os.show_notice most)) (shown full)
        (λ h. inr (
          take most full,
          drop most full,
          sym (take-append-drop most full),
          ground (arith, length-take most full),
          ground (arith, length-drop most full),
          refl,
        ))
        (λ h. inl (ground arith, refl))

  both_outputs-errors_part :
      (out errors : Text) → out ++ errors_part errors ≡ both_outputs os out errors
  both_outputs-errors_part out [] = append-nil out
  both_outputs-errors_part out (c ∷ s) = refl

  Reported-report :
      (most : ℕ) (out errors : Text) (code : Option ℕ)
      → Reported most
          (report out errors code)
          (cut_output os most (code_line code ++ both_outputs os out errors))
  Reported-report most out errors code =
      subst
        (λ (t : Text).
          Reported most (report out errors code) (cut_output os most (code_line code ++ t)))
        (both_outputs-errors_part out errors) (Reported-cut_output most (report out errors code))

  Ended-ending_answer :
      (most : ℕ) (ending : Ending) → Ended most ending (ending_answer os most ending)
  unfolding ending_answer
  Ended-ending_answer most late = refl
  Ended-ending_answer most (unstarted e) = refl
  Ended-ending_answer most (ended [] [] none) = refl
  Ended-ending_answer most (ended (c ∷ s) [] none) = Reported-report most (c ∷ s) [] none
  Ended-ending_answer most (ended (c ∷ s) (d ∷ t) none) = Reported-report most (c ∷ s) (d ∷ t) none
  Ended-ending_answer most (ended [] (c ∷ s) none) = Reported-report most [] (c ∷ s) none
  Ended-ending_answer most (ended [] errors (some code)) =
      Reported-report most [] errors (some code)
  Ended-ending_answer most (ended (c ∷ s) errors (some code)) =
      Reported-report most (c ∷ s) errors (some code)

  -- A command is run once, in the directory that is given. The answer is that it came too late, that it
  -- was not started, or that it wrote nothing and succeeded; and else the exit code, if it is not 0,
  -- the output and the part for stderr, if it is not empty: the whole of it within the limit of the
  -- tool, and otherwise its first bytes, as many as the limit, and behind them a notice.
  pub Ended-execute_command :
      (t : TerminalTool) (cmd cwd : Text) (w : W)
      → Ended t.max_output_size (os.shell cwd cmd w).0 (execute_command os t cmd cwd w).0
        × ((execute_command os t cmd cwd w).1 ≡ (os.shell cwd cmd w).1)
  unfolding execute_command
  Ended-execute_command t cmd cwd w =
      (Ended-ending_answer t.max_output_size (os.shell cwd cmd w).0, refl)
