-- ===== src/Tools/Terminal/Tests.antt =====
-- The theorems on the terminal at a small file system, and runs of the code.
use awesome_agent.Prelude.{
  ◌≡◌, refl, sym, subst, ◌∙◌, inl, inr, Bool-cases, if_true, if_false, true, Option, none, some,
  List, [], ◌∷◌, ◌++◌, Text, codes, text_eq, has_prefix, lookup, ok, drop, length, if◌then◌else◌,
}
use awesome_agent.Tools.Tool.{Value, Params}
use awesome_agent.Tools.Terminal.{
  TerminalSession, TerminalTool, directory, ended, Platform, changed, resolve_session, run_terminal,
  execute_command,
}
use awesome_agent.Tools.Terminal.Safety.{Inside, AllInside, run_terminal-AllInside}
use awesome_agent.Tools.Terminal.Commands.{Handed, Handed-run_terminal}
use awesome_agent.Tools.Terminal.Sessions.{run_terminal_frame, Ended, Ended-execute_command}

-- a world that lists the commands that were run; every path is a clean directory
abbrev rel : Text → Text → Option Text
rel base path = if has_prefix path base then some (drop (length base) path) else some (codes "..")

abbrev os : Platform (List Text)
os = record {
  join = λ a b. a ++ (codes "/" ++ b);
  dir = λ a. codes "/";
  clean = λ a. a;
  is_abs = λ a. has_prefix a (codes "/");
  rel = rel;
  stat = λ w path. directory;
  shell = λ cwd cmd w. (ended (codes "done") [] none, cmd ∷ w);
  to_lower = λ a. a;
  show_code = λ n. [];
  show_notice = λ n. codes "...";
}

abbrev tool : TerminalTool
tool = record {
  sessions =
      (codes "1", record { cwd = codes "/w"; create_at = 0 })
      ∷ (codes "2", record { cwd = codes "/w/b"; create_at = 0 })
      ∷ [];
  default_session_id = codes "1";
  max_output_size = 2;
  init_dir = codes "/w";
  work_space = codes "/w";
  allow_cd = true;
  allowed_commands = codes "ls" ∷ [];
}

abbrev call : Text → Params (Unit {0})
call cmd = (codes "cmd", Value.text cmd) ∷ []

Inside-lookup :
    (id j : Text) (o : Option TerminalSession) (s r : TerminalSession)
    → Inside os (codes "/w") s.cwd
    → (o ≡ some r → Inside os (codes "/w") r.cwd)
    → (if text_eq id j then some s else o) ≡ some r
    → Inside os (codes "/w") r.cwd
Inside-lookup id j o s r new old h = elim (Bool-cases (text_eq id j)) [
  | inl q ↦
      let e : some s ≡ some r = sym (if_true (text_eq id j) _ _ q) ∙ h in
      let same : s ≡ r = cc in
      subst (λ (x : TerminalSession). Inside os (codes "/w") x.cwd) same new
  | inr q ↦ old (sym (if_false (text_eq id j) _ _ q) ∙ h)
]

tool-AllInside : AllInside os tool
unfolding lookup has_prefix
tool-AllInside = (
  (_, refl, refl),
  λ id r h.
      Inside-lookup (codes "1") id _ (record { cwd = codes "/w"; create_at = 0 }) r (_, refl, refl)
        (λ e.
          Inside-lookup (codes "2") id none (record { cwd = codes "/w/b"; create_at = 0 }) r
            (_, refl, refl) (λ e. cc) e)
        h,
)

run_terminal-AllInside_example : AllInside os (run_terminal os 0 (call (codes "cd a")) tool []).1
run_terminal-AllInside_example =
    run_terminal-AllInside os 0 (call (codes "cd a")) tool [] tool-AllInside

Handed-run_terminal_example :
    Handed os
      (codes "ls" ∷ [])
      (codes "ls -l")
      (resolve_session 0 (call (codes "ls -l")) tool).1
      []
      (run_terminal os 0 (call (codes "ls -l")) tool []).2
unfolding lookup text_eq
Handed-run_terminal_example = Handed-run_terminal os 0 (call (codes "ls -l")) tool []

run_terminal_frame_example :
    lookup (codes "2") (run_terminal os 0 (call (codes "cd a")) tool []).1.sessions
    ≡ lookup (codes "2") tool.sessions
unfolding lookup text_eq
run_terminal_frame_example = run_terminal_frame os 0 (call (codes "cd a")) tool [] (codes "2") refl

Ended-execute_command_example :
    Ended os 2
      (os.shell (codes "/w") (codes "ls") []).0
      (execute_command os tool (codes "ls") (codes "/w") []).0
    × ((execute_command os tool (codes "ls") (codes "/w") []).1
        ≡ (os.shell (codes "/w") (codes "ls") []).1)
Ended-execute_command_example = Ended-execute_command os tool (codes "ls") (codes "/w") []

-- The name is the first word, and the whole line goes to the shell.
second_command : (run_terminal os 0 (call (codes "ls; rm -r b")) tool []).2 ≡ []
unfolding run_terminal
second_command = refl

with_blank :
    (run_terminal os 0 (call (codes "ls && rm -r b")) tool []).2 ≡ codes "ls && rm -r b" ∷ []
unfolding run_terminal
with_blank = refl

-- A blank in front of cd: the target keeps the d, and is not the directory that is meant.
blank_cd : (run_terminal os 0 (call (codes " cd a")) tool []).0 ≡ ok (changed (codes "/w/d a"))
unfolding run_terminal
blank_cd = refl
