-- ===== src/Tauri/Plugin.antt =====
-- The plugin of src/tauri.rs: `init`, `init_with`, the accessor `execra` and the methods of
-- `RuntimeRef`. A `Runtime` is a handle on shared state, of the type `R`; what the tauri crate does
-- with the state of an application is a parameter.
use execra.Base.{ℕ, Bool, Option, none, some, List, ◌≡◌, refl, ap}
use execra.Job.{Job, JobId}
use execra.Runtime.Build
use execra.Runtime.Build.{Inner}
use execra.Runtime.Handle
use execra.Runtime.Handle.{EventStream}
use execra.Runtime.Jobs
use execra.Runtime.Jobs.{Answer, Runtime}

-- The `Mutex<Option<…>>` that the plugin's set-up takes the runtime from.
pub record TauriPlugin (R : Type 0) : Type 0 where
  pub slot : Option R

pub record RuntimeRef (R : Type 0) (App : Type 0) : Type 0 where
  pub rt : R
  pub app : App

module _ {R : Type 0} where
  unfoldable pub init_with : R → TauriPlugin R
  init_with rt = record { slot = some rt }

  -- `shared` is `Arc::new`.
  unfoldable pub init : (Inner → R) → Option ℕ → TauriPlugin R
  unfolding init_with Build.new
  init shared cores = init_with (shared (Build.new cores))

  -- `manage` and `state` are the methods of `tauri::Manager`: `manage` tells whether the application
  -- has taken the value, and none is the panic of `state` where it has no such value.
  module _ {App : Type 0} (manage : R → App → Bool × App) (state : App → Option R) where
    -- The set-up: none is the panic of a second one.
    abbrev pub managed : Option R → App → Option App
    managed none app = none
    managed (some rt) app = some (manage rt app).1

    unfoldable pub setup : TauriPlugin R → App → Option App × TauriPlugin R
    setup plugin app = (managed plugin.slot app, record plugin { slot = none })

    abbrev pub ref_to : App → Option R → Option (RuntimeRef R App)
    ref_to app none = none
    ref_to app (some rt) = some (record { rt = rt; app = app })

    -- `app.execra()`
    unfoldable pub execra_of : App → Option (RuntimeRef R App)
    execra_of app = ref_to app (state app)

    -- An application that had no runtime has the plugin's once it is set up, and whenever the same
    -- plugin is set up again, it panics.
    setup_lem :
        (rt : R) (app later : App)
        → (state app ≡ none → state (manage rt app).1 ≡ some rt)
        → state app ≡ none
        → ((after : App) × ((setup (init_with rt) app).0 ≡ some after)
            × (execra_of after ≡ some (record { rt = rt; app = after })))
          × ((setup (setup (init_with rt) app).1 later).0 ≡ none)
    unfolding setup init_with execra_of
    setup_lem rt app later takes n =
        (((manage rt app).1, refl, ap (ref_to (manage rt app).1) (takes n)), refl)

-- What the methods of `RuntimeRef` do on the runtime that it refers to.
unfoldable pub cancel : JobId → Runtime → Answer (Unit {0}) × Runtime
unfolding Jobs.cancel
cancel id rt = Jobs.cancel id rt

unfoldable pub recent : ℕ → Runtime → List Job
unfolding Jobs.recent
recent n rt = Jobs.recent n rt

unfoldable pub running : Runtime → List JobId
unfolding Jobs.running
running rt = Jobs.running rt

unfoldable pub subscribe : Runtime → EventStream
unfolding Handle.subscribe_all
subscribe rt = Handle.subscribe_all rt

unfoldable pub subscribe_job : JobId → Runtime → EventStream
unfolding Handle.subscribe_job
subscribe_job id rt = Handle.subscribe_job id rt
