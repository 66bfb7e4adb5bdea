-- ===== src/Driver/Wait.antt =====
-- src/runtime/wait.rs: the task that waits for the child, and kills it on cancellation or timeout.
use execra.Base.{Bool, true, false, List, [], snoc}
use execra.Driver.Verdict.{ExitStatus}

-- `std::io::Result<ExitStatus>`, as `child.wait()` gives it.
pub data Waited : Type 0 where
  status : ExitStatus → Waited
  io_error : Waited

pub record WaitOutcome : Type 0 where
  pub status : Waited
  pub timed_out : Bool

-- What the task does to the process group, or to the child alone where there is no group.
pub data Signal : Type 0 where
  group_terminate group_kill start_kill : Signal

-- Where the task stands: in the `select!`, in the grace period, or in the last `child.wait()`.
pub data Stage : Type 0 where
  selecting : Stage
  terminating : Stage
  killed : Bool → Stage
  reported : WaitOutcome → Stage

-- What the task wakes on.
pub data Wake : Type 0 where
  child_waited : Waited → Wake
  cancel_seen timeout_fired grace_expired : Wake

pub record WaitTask : Type 0 where
  pub stage : Stage
  pub has_timeout : Bool
  pub has_group : Bool
  pub signals : List Signal

abbrev pub start : Bool → Bool → WaitTask
start has_timeout has_group = record {
  stage = selecting;
  has_timeout = has_timeout;
  has_group = has_group;
  signals = [];
}

unfoldable pub terminate_child : Bool → Signal
terminate_child true = group_terminate
terminate_child false = start_kill

unfoldable pub kill_child : Bool → Signal
kill_child true = group_kill
kill_child false = start_kill

abbrev pub report : Waited → Bool → WaitTask → WaitTask
report r late t = record t { stage = reported (record { status = r; timed_out = late }) }

abbrev pub signal : Signal → Stage → WaitTask → WaitTask
signal s next t = record t { stage = next; signals = snoc t.signals s }

abbrev pub on_timeout : Bool → WaitTask → WaitTask
on_timeout true t = signal (kill_child t.has_group) (killed true) t
on_timeout false t = t

-- A wake that the task does not wait for where it stands changes nothing. `cancelled` tells whether
-- the token is cancelled, without which `cancel.cancelled()` does not resolve.
abbrev pub step_at : Stage → Bool → Wake → WaitTask → WaitTask
step_at selecting cancelled (child_waited r) t = report r false t
step_at selecting true cancel_seen t = signal (terminate_child t.has_group) terminating t
step_at selecting false cancel_seen t = t
step_at selecting cancelled timeout_fired t = on_timeout t.has_timeout t
step_at selecting cancelled grace_expired t = t
step_at terminating cancelled (child_waited r) t = report r false t
step_at terminating cancelled grace_expired t = signal (kill_child t.has_group) (killed false) t
step_at terminating cancelled cancel_seen t = t
step_at terminating cancelled timeout_fired t = t
step_at (killed late) cancelled (child_waited r) t = report r late t
step_at (killed late) cancelled cancel_seen t = t
step_at (killed late) cancelled timeout_fired t = t
step_at (killed late) cancelled grace_expired t = t
step_at (reported r) cancelled wake t = t

unfoldable pub step : Bool → Wake → WaitTask → WaitTask
step cancelled wake t = step_at t.stage cancelled wake t

-- The arms on cancellation send `Event::Cancelled` first.
abbrev pub emits_cancelled : Stage → Bool → Wake → Bool
emits_cancelled selecting true cancel_seen = true
emits_cancelled _ _ _ = false
