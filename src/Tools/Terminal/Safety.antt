-- ===== src/Tools/Terminal/Safety.antt =====
-- What a call can change: the directory of its session, within the workspace, and the world through an
-- allowed command only.
use awesome_agent.Prelude.{
  ℕ, ◌≡◌, refl, sym, ap, subst, ◌∙◌, inl, inr, Bool, false, not, ◌&&◌, ◌||◌, Option, none, some,
  List, Text, Dict, codes, text_eq, has_prefix, lookup, insert, lookup-insert, Result, err,
  is_empty, arith, if_elim, if_true, if_false, Bool-cases, if◌then◌else◌, drop,
}
use awesome_agent.Go.Strings.{trim_space}
use awesome_agent.Tools.Tool.{Params}
use awesome_agent.Tools.Terminal.{
  TerminalSession, TerminalTool, Stat, missing, failing, file, directory, Platform, Answer,
  cd_disabled, current, outside_workspace, not_found, access_error, not_a_directory, changed,
  not_allowed, timed_out, no_output, command_failed, shown, text_param, or_default_id,
  resolve_session, found_or_made, move_session, cmd_required, TerminalError, leads_outside,
  stat_answer, target_path, change_dir, handle_cd, trim_quotes_left, trim_quotes_right,
  execute_command, after_cd, is_cd_command, is_allowed, extract_command_name, run_command,
  ok_answer, run_terminal,
}

module _ {W : Type 0} (os : Platform W) where
  -- the path relative to the workspace does not lead outside
  abbrev pub Inside : Text → Text → Type 0
  Inside work_space path =
      (r : Text) × (os.rel work_space path ≡ some r) × (has_prefix r (codes "..") ≡ false)

  Inside-leads_outside :
      (work_space path : Text) (o : Option Text)
      → os.rel work_space path ≡ o
      → leads_outside os o ≡ false
      → Inside work_space path
  Inside-leads_outside work_space path none e h = cc
  Inside-leads_outside work_space path (some r) e h = (r, e, h)

  abbrev AnswerInside : Text → Answer → Type 0
  AnswerInside work_space (changed path) = Inside work_space path
  AnswerInside work_space cd_disabled = Unit
  AnswerInside work_space (current path) = Unit
  AnswerInside work_space (outside_workspace path) = Unit
  AnswerInside work_space (not_found path) = Unit
  AnswerInside work_space (access_error e) = Unit
  AnswerInside work_space (not_a_directory path) = Unit
  AnswerInside work_space (not_allowed name) = Unit
  AnswerInside work_space timed_out = Unit
  AnswerInside work_space no_output = Unit
  AnswerInside work_space (command_failed e) = Unit
  AnswerInside work_space (shown s) = Unit

  AnswerInside-stat_answer :
      (work_space path : Text) (st : Stat)
      → Inside work_space path
      → AnswerInside work_space (stat_answer os path st)
  AnswerInside-stat_answer work_space path missing h = tt
  AnswerInside-stat_answer work_space path (failing e) h = tt
  AnswerInside-stat_answer work_space path file h = tt
  AnswerInside-stat_answer work_space path directory h = h

  AnswerInside-change_dir :
      (w : W) (t : TerminalTool) (cwd target : Text)
      → AnswerInside t.work_space (change_dir os w t cwd target)
  unfolding change_dir
  AnswerInside-change_dir w t cwd target =
      let path = os.clean (target_path os t.work_space cwd target) in
      if_elim (AnswerInside t.work_space) (leads_outside os (os.rel t.work_space path))
        (outside_workspace path) _ (λ h. tt)
        (λ h.
          AnswerInside-stat_answer t.work_space path (os.stat w path)
            (Inside-leads_outside t.work_space path (os.rel t.work_space path) refl h))

  AnswerInside-handle_cd :
      (w : W) (t : TerminalTool) (cmd cwd : Text)
      → AnswerInside t.work_space (handle_cd os w t cmd cwd)
  unfolding handle_cd
  AnswerInside-handle_cd w t cmd cwd =
      let target = trim_quotes_right (trim_quotes_left (trim_space (drop 2 cmd))) in
      if_elim (AnswerInside t.work_space) (is_empty target || text_eq target (codes "."))
        (current cwd) _ (λ h. tt) (λ h. AnswerInside-change_dir w t cwd target)

  -- every session of the tool is in the workspace, and so is the directory that new ones start in
  abbrev pub AllInside : TerminalTool → Type 0
  AllInside t =
      Inside t.work_space t.init_dir
      × ((id : Text) (s : TerminalSession)
          → lookup id t.sessions ≡ some s
          → Inside t.work_space s.cwd)

  Inside-insert :
      (work_space id j : Text) (s r : TerminalSession) (sessions : Dict TerminalSession)
      → Inside work_space s.cwd
      → (lookup j sessions ≡ some r → Inside work_space r.cwd)
      → lookup j (insert id s sessions) ≡ some r
      → Inside work_space r.cwd
  Inside-insert work_space id j s r sessions new old h = elim (Bool-cases (text_eq id j)) [
    | inl q ↦
        let e : some s ≡ some r =
          sym (lookup-insert id j s sessions ∙ if_true (text_eq id j) _ _ q) ∙ h in
        let same : s ≡ r = cc in subst (λ (x : TerminalSession). Inside work_space x.cwd) same new
    | inr q ↦ old (sym (lookup-insert id j s sessions ∙ if_false (text_eq id j) _ _ q) ∙ h)
  ]

  AllInside-found_or_made :
      (now : ℕ) (id : Text) (t : TerminalTool) (o : Option TerminalSession)
      → AllInside t
      → AllInside (found_or_made now id t o).2
  AllInside-found_or_made now id t none (i, h) =
      (i, λ j r e. Inside-insert t.work_space id j _ r t.sessions i (h j r) e)
  AllInside-found_or_made now id t (some s) h = h

  AllInside-resolve_session :
      {F : Type 0} (now : ℕ) (params : Params F) (t : TerminalTool)
      → AllInside t
      → AllInside (resolve_session now params t).2
  unfolding resolve_session
  AllInside-resolve_session now params t h =
      let id =
        or_default_id t.default_session_id (text_param (lookup (codes "_session_id") params)) in
      AllInside-found_or_made now id t (lookup id t.sessions) h

  AllInside-move_session :
      (id cwd : Text) (t : TerminalTool) (o : Option TerminalSession)
      → Inside t.work_space cwd
      → AllInside t
      → AllInside (record t { sessions = move_session id cwd t.sessions o })
  AllInside-move_session id cwd t none c h = h
  AllInside-move_session id cwd t (some s) c (i, h) =
      (i, λ j r e. Inside-insert t.work_space id j _ r t.sessions c (h j r) e)

  AllInside-after_cd :
      (id : Text) (t : TerminalTool) (a : Answer)
      → AnswerInside t.work_space a
      → AllInside t
      → AllInside (after_cd os id t a)
  AllInside-after_cd id t (changed path) h k =
      AllInside-move_session id path t (lookup id t.sessions) h k
  AllInside-after_cd id t cd_disabled h k = k
  AllInside-after_cd id t (current path) h k = k
  AllInside-after_cd id t (outside_workspace path) h k = k
  AllInside-after_cd id t (not_found path) h k = k
  AllInside-after_cd id t (access_error e) h k = k
  AllInside-after_cd id t (not_a_directory path) h k = k
  AllInside-after_cd id t (not_allowed name) h k = k
  AllInside-after_cd id t timed_out h k = k
  AllInside-after_cd id t no_output h k = k
  AllInside-after_cd id t (command_failed e) h k = k
  AllInside-after_cd id t (shown s) h k = k

  AllInside-run_command :
      (cmd id cwd : Text) (t : TerminalTool) (w : W)
      → AllInside t
      → AllInside (run_command os cmd (id, cwd, t) w).1
  AllInside-run_command cmd id cwd t w h =
      if_elim (λ (r : Answer × TerminalTool × W). AllInside r.1) (is_cd_command os cmd) _ _
        (λ p.
          if_elim (λ (r : Answer × TerminalTool × W). AllInside r.1) t.allow_cd
            (handle_cd os w t cmd cwd, after_cd os id t (handle_cd os w t cmd cwd), w)
            (cd_disabled, t, w)
            (λ q.
              AllInside-after_cd id t (handle_cd os w t cmd cwd)
                (AnswerInside-handle_cd w t cmd cwd) h)
            (λ q. h))
        (λ p.
          if_elim (λ (r : Answer × TerminalTool × W). AllInside r.1)
            (is_allowed os t.allowed_commands (extract_command_name os cmd))
            ((execute_command os t cmd cwd w).0, t, (execute_command os t cmd cwd w).1)
            (not_allowed (extract_command_name os cmd), t, w) (λ q. h) (λ q. h))

  -- Where the sessions and the directory of new ones are within the workspace, they are so after any
  -- call, whatever its command is, cd to an absolute path, to the home or upwards included.
  pub run_terminal-AllInside :
      {F : Type 0} (now : ℕ) (params : Params F) (t : TerminalTool) (w : W)
      → AllInside t
      → AllInside (run_terminal os now params t w).1
  unfolding run_terminal
  run_terminal-AllInside now params t w h =
      let cmd = text_param (lookup (codes "cmd") params) in
      let resolved = resolve_session now params t in
      let inside = AllInside-resolve_session now params t h in
      if_elim (λ (r : Result TerminalError Answer × TerminalTool × W). AllInside r.1) (is_empty cmd)
        (err cmd_required, resolved.2, w) (ok_answer os (run_command os cmd resolved w))
        (λ p. inside) (λ p. AllInside-run_command cmd resolved.0 resolved.1 resolved.2 w inside)

  -- whether a command is run: it does not change the directory, and its name is on the list, if any
  abbrev pub is_run : List Text → Text → Bool
  is_run allowed cmd =
      not (is_cd_command os cmd) && is_allowed os allowed (extract_command_name os cmd)

  run_command_world :
      (cmd id cwd : Text) (t : TerminalTool) (w : W)
      → (run_command os cmd (id, cwd, t) w).2
        ≡ (if is_run t.allowed_commands cmd then (os.shell cwd cmd w).1 else w)
  unfolding execute_command
  run_command_world cmd id cwd t w = ground arith

  allowed-found_or_made :
      (now : ℕ) (id : Text) (t : TerminalTool) (o : Option TerminalSession)
      → (found_or_made now id t o).2.allowed_commands ≡ t.allowed_commands
  allowed-found_or_made now id t none = refl
  allowed-found_or_made now id t (some s) = refl

  allowed-resolve_session :
      {F : Type 0} (now : ℕ) (params : Params F) (t : TerminalTool)
      → (resolve_session now params t).2.allowed_commands ≡ t.allowed_commands
  unfolding resolve_session
  allowed-resolve_session now params t =
      let id =
        or_default_id t.default_session_id (text_param (lookup (codes "_session_id") params)) in
      allowed-found_or_made now id t (lookup id t.sessions)

  pub run_terminal_world :
      {F : Type 0} (now : ℕ) (params : Params F) (t : TerminalTool) (w : W)
      → let cmd = text_param (lookup (codes "cmd") params) in
        (run_terminal os now params t w).2 ≡ (
          if not (is_empty cmd) && is_run t.allowed_commands cmd
          then (os.shell (resolve_session now params t).1 cmd w).1
          else w)
  unfolding run_terminal
  run_terminal_world now params t w =
      let cmd = text_param (lookup (codes "cmd") params) in
      let (id, cwd, t') = resolve_session now params t in
      ground (
        arith,
        run_command_world cmd id cwd t' w,
        ap (λ allowed. is_run allowed cmd) (allowed-resolve_session now params t),
      )
