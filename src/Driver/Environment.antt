-- ===== src/Driver/Environment.antt =====
-- The environment of a process: the setters of src/command.rs through the set-up in `drive_job` of
-- src/runtime/driver.rs. Which names are those of one variable is up to the platform: on Windows
-- names that differ in case are.
use execra.Base.{
  Text, Bool, true, false, Option, none, some, List, [], ◌∷◌, ◌++◌, append_assoc, append-nil, snoc,
  ◌≡◌, refl, sym, ap, ◌∙◌, arith, if◌then◌else◌,
}
use execra.Command
use execra.Command.{Command, CommandSpec, Platform, windows, other, StdinMode}
use execra.Driver.Process.{
  TokioCommand, configure, configure_group, configure_hidden_window, in_dir, set_env, env_clear,
  new_command, piped, stdio_of,
}

abbrev or_else : {A : Type 0} → Option A → Option A → Option A
or_else (some a) o = some a
or_else none o = o

-- The last value that a variable has been given. `same` tells which names the platform takes for one.
abbrev last_of : (Text → Text → Bool) → Text → List (Text × Text) → Option Text
last_of same k [] = none
last_of same k ((j, v) ∷ vars) = or_else (last_of same k vars) (if same j k then some v else none)

-- What a variable is in the process of a command, where the parent's are `inherited`.
abbrev pub environment :
    (Text → Text → Bool) → (Text → Option Text) → TokioCommand → Text → Option Text
environment same inherited c k =
    or_else (last_of same k c.vars) (if c.env_cleared then none else inherited k)

-- What a variable is to be according to the specification.
abbrev specified : (Text → Text → Bool) → (Text → Option Text) → CommandSpec → Text → Option Text
specified same inherited spec k =
    or_else (last_of same k spec.env) (if spec.env_clear then none else inherited k)

last_of-snoc :
    (same : Text → Text → Bool) (k j v : Text) (vars : List (Text × Text))
    → last_of same k (snoc vars (j, v)) ≡ (if same j k then some v else last_of same k vars)
last_of-snoc same k j v [] = ground arith
last_of-snoc same k j v ((i, w) ∷ vars) = ground (arith, last_of-snoc same k j v vars)

set_env-vars : (env : List (Text × Text)) (c : TokioCommand) → (set_env env c).vars ≡ c.vars ++ env
unfolding set_env
set_env-vars [] c = sym (append-nil c.vars)
set_env-vars ((k, v) ∷ env) c =
    set_env-vars env (record c { vars = snoc c.vars (k, v) })
    ∙ append_assoc c.vars ((k, v) ∷ []) env

set_env-env_cleared :
    (env : List (Text × Text)) (c : TokioCommand) → (set_env env c).env_cleared ≡ c.env_cleared
unfolding set_env
set_env-env_cleared [] c = refl
set_env-env_cleared ((k, v) ∷ env) c = set_env-env_cleared env _

-- Two set-ups with the same environment.
abbrev IsSame : TokioCommand → TokioCommand → Type 0
IsSame c d = (d.vars ≡ c.vars) × (d.env_cleared ≡ c.env_cleared)

in_dir-IsSame : (dir : Option Text) (c : TokioCommand) → IsSame c (in_dir dir c)
in_dir-IsSame none c = (refl, refl)
in_dir-IsSame (some cwd) c = (refl, refl)

platform-IsSame :
    (platform : Platform) (hide : Bool) (c : TokioCommand)
    → IsSame c (configure_group platform (configure_hidden_window platform hide c))
unfolding configure_group configure_hidden_window
platform-IsSame windows true c = (refl, refl)
platform-IsSame windows false c = (refl, refl)
platform-IsSame other hide c = (refl, refl)

-- What is set in a new command that has been cleared or not.
set_new :
    (b : Bool) (env : List (Text × Text)) (c : TokioCommand)
    → c.vars ≡ []
    → c.env_cleared ≡ false
    → let d = set_env env (if b then env_clear c else c) in (d.vars ≡ env) × (d.env_cleared ≡ b)
set_new true env c v n = (set_env-vars env (env_clear c), set_env-env_cleared env (env_clear c))
set_new false env c v n =
    (set_env-vars env c ∙ ap (λ xs. xs ++ env) v, set_env-env_cleared env c ∙ n)

configure-environment :
    (same : Text → Text → Bool) (inherited : Text → Option Text) (platform : Platform)
    (spec : CommandSpec) (stdin : StdinMode) (k : Text)
    → environment same inherited (configure platform spec stdin) k ≡ specified same inherited spec k
unfolding configure
configure-environment same inherited platform spec stdin k =
    let c = record (new_command spec.program) { args = spec.args } in
    let n = set_new spec.env_clear spec.env c refl refl in
    let d = set_env spec.env (if spec.env_clear then env_clear c else c) in
    let i = in_dir-IsSame spec.cwd d in
    let p = platform-IsSame platform spec.hide_window (record (in_dir spec.cwd d) {
      stdout = piped;
      stderr = piped;
      stdin = stdio_of stdin;
      kill_on_drop = true;
    }) in
    ap
      (λ vars.
        or_else (last_of same k vars)
          (if (configure platform spec stdin).env_cleared then none else inherited k))
      (p.0 ∙ i.0 ∙ n.0)
    ∙ ap (λ b. or_else (last_of same k spec.env) (if b then none else inherited k))
        (p.1 ∙ i.1 ∙ n.1)

-- A variable reaches the process: whatever has been set before, after `env` of a name and a value the
-- process finds the value under every name that the platform takes for that one, and under every
-- other name what it would find without the call; after `env_clear`, before or after, it finds none
-- but those that have been set.
pub env_reaches :
    {I : Type 0} (same : Text → Text → Bool) (inherited : Text → Option Text) (platform : Platform)
    (c : Command I) (stdin : StdinMode) (j v k : Text)
    → (environment same inherited (configure platform (Command.env j v c).spec stdin) k ≡ (
        if same j k
        then some v
        else environment same inherited (configure platform c.spec stdin) k))
      × (environment same inherited (configure platform (Command.env_clear c).spec stdin) k
          ≡ environment same (λ x. none) (configure platform c.spec stdin) k)
unfolding Command.env Command.env_clear
env_reaches same inherited platform c stdin j v k = (
  configure-environment same inherited platform _ stdin k
      ∙ ground (arith, last_of-snoc same k j v c.spec.env)
      ∙ ap (λ o. if same j k then some v else o)
          (sym (configure-environment same inherited platform c.spec stdin k)),
  configure-environment same inherited platform _ stdin k
      ∙ ground arith
      ∙ sym (configure-environment same (λ x. none) platform c.spec stdin k),
)
