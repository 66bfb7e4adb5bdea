-- ===== src/Driver/World.antt =====
-- What the driver of a job shares with the runtime: the clock, the event channel, the store and the
-- snapshot; and `emit`, `update_snapshot` and `persist_snapshot` of src/runtime/driver.rs.
use execra.Base.{ℕ, suc, Text, Bool, false, Option, none, some, List, [], snoc}
use execra.Event.{Event}
use execra.Finding.{Finding, SystemTime}
use execra.Host.{Host}
use execra.Job.{Job, Phase}
use execra.Store.{Store, insert_event, upsert_job}

-- `sent` holds what was sent on the broadcast channel, oldest first. `clock` and `ids` count the
-- calls of `SystemTime::now` and `PhaseId::new`.
pub record World : Type 0 where
  pub clock : ℕ
  pub ids : ℕ
  pub sent : List Event
  pub store : Option Store
  pub snapshot : Job

-- The innermost phase stands first.
pub record DriverState : Type 0 where
  pub phase_stack : List Phase
  pub findings : List Finding
  pub summary : Option Text
  pub known_error : Option (Text × Text)
  pub interp_disabled : Bool

abbrev pub fresh : DriverState
fresh = record {
  phase_stack = [];
  findings = [];
  summary = none;
  known_error = none;
  interp_disabled = false;
}

pub record Drive : Type 0 where
  pub state : DriverState
  pub world : World

-- The value of a call of `SystemTime::now`, and the world after it.
abbrev pub now : Host → World → SystemTime
now h w = h.now w.clock

abbrev pub after_now : World → World
after_now w = record w { clock = suc w.clock }

unfoldable pub send : Event → World → World
send e w = record w { sent = snoc w.sent e }

abbrev pub stored : Host → Event → Option Store → Option Store
stored h e none = none
stored h e (some s) = some (insert_event h e s).1

-- The send and then the insertion, whose result is dropped. The wait task's `emit` runs beside the
-- driver's, so between the two steps of one there may be those of the other: the place of the
-- cancellation's row among the others is one of those that are possible. Driver/Emitting has all.
unfoldable pub emit : Host → Event → World → World
emit h e w = record w { sent = snoc w.sent e; store = stored h e w.store }

unfoldable pub update_snapshot : (Job → Job) → World → World
update_snapshot f w = record w { snapshot = f w.snapshot }

abbrev pub upserted : Host → Job → Option Store → Option Store
upserted h job none = none
upserted h job (some s) = some (upsert_job h job s).1

unfoldable pub persist_snapshot : Host → World → World
persist_snapshot h w = record w { store = upserted h w.snapshot w.store }
