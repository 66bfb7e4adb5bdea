-- ===== src/Scoop/Doctor.antt =====
-- `ScoopDoctor` of examples/scoop_doctor.rs, which keeps no state.
use execra.Base.{codes, none, some, List, [], ◌∷◌}
use execra.Finding.{Action, SystemTime, Severity, make, with_action, command, instruction}
use execra.Interpret.Render.{captured}
use execra.Interpreter.{InterpreterEvent, Line}
use execra.Scoop.{Regex, matched}

pub record Patterns : Type 0 where
  pub missing_7zip : Regex
  pub long_paths : Regex
  pub dev_mode : Regex
  pub generic : Regex
  pub no_problems : Regex

abbrev pub install_7zip : Action
install_7zip =
    command (codes "Install 7-Zip") (codes "scoop") (codes "install" ∷ codes "7zip" ∷ []) none

module _ (p : Patterns) where
  open p use {missing_7zip, long_paths, dev_mode, generic, no_problems}

  unfoldable pub on_line : SystemTime → Line → List InterpreterEvent
  unfolding make with_action
  on_line at line =
      matched (missing_7zip line.text)
        (λ c.
          InterpreterEvent.finding (
            with_action install_7zip (
              make at Severity.recommendation (codes "scoop.doctor.missing_7zip")
                (codes "7-Zip is missing; some installers will be slower or fail.")))
          ∷ [])
        (matched (long_paths line.text)
          (λ c.
            InterpreterEvent.finding (
              with_action
                (instruction (codes "Enable long paths")
                  (codes "Enable LongPathsEnabled in the registry, or run Scoop's fix script."))
                (make at Severity.warning (codes "scoop.doctor.long_paths_disabled")
                  (codes "Windows long path support is not enabled.")))
            ∷ [])
          (matched (dev_mode line.text)
            (λ c.
              InterpreterEvent.finding (
                with_action
                  (instruction (codes "Enable Developer Mode")
                    (codes "Enable Developer Mode in Windows Settings."))
                  (make at Severity.recommendation (codes "scoop.doctor.dev_mode_off")
                    (codes "Developer Mode is off; symlink-based shims may require admin.")))
              ∷ [])
            (matched (generic line.text)
              (λ c.
                InterpreterEvent.finding
                  (make at Severity.warning (codes "scoop.doctor.generic") (captured c (some 1)))
                ∷ [])
              (matched (no_problems line.text)
                (λ c. InterpreterEvent.summary (codes "No problems identified") ∷ []) []))))

abbrev pub on_exit : List InterpreterEvent
on_exit = []
