-- ===== src/Tools/Terminal.antt =====
-- tools/builtins/terminal_tool.go: shell commands in the directory of a session.
pub mod Sessions
pub mod Safety
pub mod Commands
pub mod Tests
use awesome_agent.Prelude.{
  ℕ, zero, suc, ◌+◌, ◌-◌, Bool, true, false, not, ◌&&◌, ◌||◌, Option, none, some, List, [], ◌∷◌,
  ◌++◌, map, Text, Dict, codes, text_eq, has_prefix, contains, lookup, insert, delete, Result, ok,
  err, ◌>>=◌, length, take, drop, is_empty, leb, ltb, ◌==◌, if◌then◌else◌,
}
use awesome_agent.Go.Strings.{trim_space}
use awesome_agent.Tools.Tool.{
  Value, text, null, boolean, float64, int, int64, json_number, array, object, Params,
}

pub record TerminalSession : Type 0 where
  pub cwd : Text
  pub create_at : ℕ

-- A text is a string of bytes here. The timeout is left to what runs a command.
pub record TerminalTool : Type 0 where
  pub sessions : Dict TerminalSession
  pub default_session_id : Text
  pub max_output_size : ℕ
  pub init_dir : Text
  pub work_space : Text
  pub allow_cd : Bool
  pub allowed_commands : List Text

-- what os.Stat says of a path
pub data Stat : Type 0 where
  missing : Stat
  failing : Text → Stat
  file : Stat
  directory : Stat

-- how a command ends: in time with its outputs and its exit code, or its start failing, or too late
pub data Ending : Type 0 where
  ended : (out errors : Text) → (code : Option ℕ) → Ending
  unstarted : Text → Ending
  late : Ending

-- the functions of path/filepath, package os and os/exec that the tool calls; `to_lower` is
-- strings.ToLower, `show_code` is the line on an exit code, `show_notice` that on an output that was cut
pub record Platform (W : Type 0) : Type 0 where
  pub join : Text → Text → Text
  pub dir : Text → Text
  pub clean : Text → Text
  pub is_abs : Text → Bool
  pub rel : Text → Text → Option Text
  pub stat : W → Text → Stat
  pub shell : Text → Text → W → Ending × W
  pub to_lower : Text → Text
  pub show_code : ℕ → Text
  pub show_notice : ℕ → Text

-- the answers of the tool, without their marks and fixed words
pub data Answer : Type 0 where
  cd_disabled : Answer
  current : Text → Answer
  outside_workspace : Text → Answer
  not_found : Text → Answer
  access_error : Text → Answer
  not_a_directory : Text → Answer
  changed : Text → Answer
  not_allowed : Text → Answer
  timed_out : Answer
  no_output : Answer
  command_failed : Text → Answer
  shown : Text → Answer

pub data TerminalError : Type 0 where
  cmd_required : TerminalError
  session_not_found : Text → TerminalError

-- the second text, or the first where that is empty
abbrev pub or_default_id : Text → Text → Text
or_default_id d [] = d
or_default_id d (c ∷ s) = c ∷ s

-- os.Getwd is asked for no directory, the clock for no identifier
unfoldable pub add_session :
    ℕ → Result Text Text → Text → Text → Text → TerminalTool → Result Text TerminalTool
unfolding insert
add_session now getwd fresh_id session_id cwd t =
    let id = or_default_id fresh_id session_id in
    (if is_empty cwd then getwd else ok cwd) >>= λ dir. ok (record t {
      sessions = insert id (record { cwd = dir; create_at = now }) t.sessions;
      default_session_id = or_default_id id t.default_session_id;
    })

pub record TerminalConfig : Type 0 where
  pub max_output_size : ℕ
  pub init_dir : Text
  pub work_space : Text
  pub allow_cd : Option Bool
  pub allowed_commands : List Text

abbrev pub or_true : Option Bool → Bool
or_true none = true
or_true (some b) = b

unfoldable pub session : Text → TerminalTool → Result TerminalError TerminalSession
unfolding lookup
session session_id t =
    let id = or_default_id t.default_session_id session_id in
    elim (lookup id t.sessions) [ none ↦ err (session_not_found id) | some s ↦ ok s ]

unfoldable pub remove_session : Text → TerminalTool → Result TerminalError TerminalTool
unfolding lookup delete
remove_session session_id t = elim (lookup session_id t.sessions) [
  | none ↦ err (session_not_found session_id)
  | some s ↦ ok (record t { sessions = delete session_id t.sessions })
]

unfoldable pub use_session : Text → TerminalTool → Result TerminalError TerminalTool
unfolding lookup
use_session session_id t = elim (lookup session_id t.sessions) [
  | none ↦ err (session_not_found session_id)
  | some s ↦ ok (record t { default_session_id = session_id })
]

abbrev pub text_param : {F : Type 0} → Option (Value F) → Text
text_param (some (text s)) = s
text_param _ = []

-- a session found, or made in the first directory: its identifier and directory, and the tool
abbrev pub found_or_made :
    ℕ → Text → TerminalTool → Option TerminalSession → Text × Text × TerminalTool
found_or_made now id t none = (
  id,
  t.init_dir,
  record t { sessions = insert id (record { cwd = t.init_dir; create_at = now }) t.sessions },
)
found_or_made now id t (some s) = (id, s.cwd, t)

-- the session of the call
unfoldable pub resolve_session :
    {F : Type 0} → ℕ → Params F → TerminalTool → Text × Text × TerminalTool
unfolding lookup insert
resolve_session now params t =
    let id =
      or_default_id t.default_session_id (text_param (lookup (codes "_session_id") params)) in
    found_or_made now id t (lookup id t.sessions)

abbrev pub move_session :
    Text → Text → Dict TerminalSession → Option TerminalSession → Dict TerminalSession
move_session id cwd sessions none = sessions
move_session id cwd sessions (some s) = insert id (record s { cwd = cwd }) sessions

-- session.cwd = newDir
abbrev pub set_cwd : Text → Text → TerminalTool → TerminalTool
set_cwd id cwd t = record t { sessions = move_session id cwd t.sessions (lookup id t.sessions) }

abbrev pub is_quote : ℕ → Bool
is_quote c = c == 34 || c == 39

unfoldable pub trim_quotes_left : Text → Text
trim_quotes_left [] = []
trim_quotes_left (c ∷ s) = let rest = trim_quotes_left s in if is_quote c then rest else c ∷ s

unfoldable pub trim_quotes_right : Text → Text
trim_quotes_right [] = []
trim_quotes_right (c ∷ s) =
    let rest = trim_quotes_right s in if is_empty rest && is_quote c then [] else c ∷ rest

-- strings.IndexByte: what stands before the byte, if it is there
unfoldable pub before : ℕ → Text → Option Text
before q [] = none
before q (c ∷ s) =
    let rest = before q s in
    if c == q then some [] else elim rest [ none ↦ none | some t ↦ some (c ∷ t) ]

-- the text up to the first space or tab
unfoldable pub first_token : Text → Text
first_token [] = []
first_token (c ∷ s) = let rest = first_token s in if c == 32 || c == 9 then [] else c ∷ rest

module _ {W : Type 0} (os : Platform W) where
  unfoldable pub is_cd_command : Text → Bool
  unfolding trim_space has_prefix text_eq
  is_cd_command cmd =
      let lower = os.to_lower (trim_space cmd) in
      text_eq lower (codes "cd")
      || has_prefix lower (codes "cd ")
      || has_prefix lower (codes "cd\t")

  abbrev pub quoted_name : Text → Option Text → Text
  quoted_name trimmed none = os.to_lower (first_token trimmed)
  quoted_name trimmed (some name) = os.to_lower name

  abbrev pub name_of : Text → Text
  name_of [] = []
  name_of (c ∷ s) =
      if is_quote c then quoted_name (c ∷ s) (before c s) else os.to_lower (first_token (c ∷ s))

  unfoldable pub extract_command_name : Text → Text
  unfolding trim_space first_token before
  extract_command_name cmd = name_of (trim_space cmd)

  unfoldable pub new_terminal_tool :
      ℕ → Result Text Text → Text → TerminalConfig → Result Text TerminalTool
  unfolding add_session trim_space
  new_terminal_tool now getwd fresh_id cfg =
      (if is_empty cfg.init_dir then getwd else ok cfg.init_dir) >>= λ init_dir.
      (if is_empty cfg.work_space then getwd else ok cfg.work_space) >>= λ work_space.
      add_session now getwd fresh_id fresh_id init_dir (record {
        sessions = [];
        default_session_id = fresh_id;
        max_output_size = if cfg.max_output_size == 0 then 102400 else cfg.max_output_size;
        init_dir = init_dir;
        work_space = work_space;
        allow_cd = or_true cfg.allow_cd;
        allowed_commands = map (λ name. os.to_lower (trim_space name)) cfg.allowed_commands;
      })

  -- the directory that a target names, before it is cleaned
  unfoldable pub target_path : Text → Text → Text → Text
  unfolding text_eq has_prefix
  target_path work_space cwd target =
      if text_eq target (codes "~")
      then work_space
      else if has_prefix target (codes "~/")
      then os.join work_space (drop 1 target)
      else if text_eq target (codes "..") || text_eq target (codes "../")
      then os.dir cwd
      else if os.is_abs target
      then os.clean target
      else os.join cwd target

  -- the relative path leads outside, or there is none
  abbrev pub leads_outside : Option Text → Bool
  leads_outside none = true
  leads_outside (some r) = has_prefix r (codes "..")

  abbrev pub stat_answer : Text → Stat → Answer
  stat_answer path missing = not_found path
  stat_answer path (failing e) = access_error e
  stat_answer path file = not_a_directory path
  stat_answer path directory = changed path

  -- the answer, and the directory to change to
  unfoldable pub change_dir : W → TerminalTool → Text → Text → Answer
  unfolding target_path
  change_dir w t cwd target =
      let new_dir = os.clean (target_path t.work_space cwd target) in
      if leads_outside (os.rel t.work_space new_dir)
      then outside_workspace new_dir
      else stat_answer new_dir (os.stat w new_dir)

  -- The two bytes that are cut off are the first of the command, blanks in front of cd included.
  unfoldable pub handle_cd : W → TerminalTool → Text → Text → Answer
  unfolding change_dir trim_space trim_quotes_left trim_quotes_right text_eq
  handle_cd w t cmd cwd =
      let target = trim_quotes_right (trim_quotes_left (trim_space (drop 2 cmd))) in
      if is_empty target || text_eq target (codes ".")
      then current cwd
      else change_dir w t cwd target

  abbrev pub cut_output : ℕ → Text → Answer
  cut_output most output =
      if ltb most (length output)
      then shown (take most output ++ os.show_notice most)
      else shown output

  abbrev pub both_outputs : Text → Text → Text
  both_outputs out errors = if is_empty errors then out else out ++ (codes "\n[stderr]\n" ++ errors)

  abbrev pub ended_answer : ℕ → Text → Option ℕ → Answer
  ended_answer most output none = if is_empty output then no_output else cut_output most output
  ended_answer most output (some code) = cut_output most (os.show_code code ++ output)

  unfoldable pub ending_answer : ℕ → Ending → Answer
  ending_answer most late = timed_out
  ending_answer most (unstarted e) = command_failed e
  ending_answer most (ended out errors code) = ended_answer most (both_outputs out errors) code

  abbrev pub answer_of : ℕ → Ending × W → Answer × W
  answer_of most (ending, w) = (ending_answer most ending, w)

  unfoldable pub execute_command : TerminalTool → Text → Text → W → Answer × W
  unfolding ending_answer
  execute_command t cmd cwd w = answer_of t.max_output_size (os.shell cwd cmd w)

  abbrev pub after_cd : Text → TerminalTool → Answer → TerminalTool
  after_cd id t (changed path) = set_cwd id path t
  after_cd id t _ = t

  abbrev pub is_allowed : List Text → Text → Bool
  is_allowed [] name = true
  is_allowed (n ∷ ns) name = contains (n ∷ ns) name

  abbrev pub run_command : Text → Text × Text × TerminalTool → W → Answer × TerminalTool × W
  run_command cmd (id, cwd, t) w =
      let cd_answer = handle_cd w t cmd cwd in
      let (answer, w') = execute_command t cmd cwd w in
      if is_cd_command cmd
      then (if t.allow_cd then (cd_answer, after_cd id t cd_answer, w) else (cd_disabled, t, w))
      else if is_allowed t.allowed_commands (extract_command_name cmd)
      then (answer, t, w')
      else (not_allowed (extract_command_name cmd), t, w)

  abbrev pub ok_answer : Answer × TerminalTool × W → Result TerminalError Answer × TerminalTool × W
  ok_answer (answer, t, w) = (ok answer, t, w)

  unfoldable pub run_terminal :
      {F : Type 0}
      → ℕ
      → Params F
      → TerminalTool
      → W
      → Result TerminalError Answer × TerminalTool × W
  unfolding resolve_session is_cd_command handle_cd extract_command_name execute_command contains
  run_terminal now params t w =
      let cmd = text_param (lookup (codes "cmd") params) in
      let resolved = resolve_session now params t in
      if is_empty cmd
      then (err cmd_required, resolved.2, w)
      else ok_answer (run_command cmd resolved w)
