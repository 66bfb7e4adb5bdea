-- ===== src/ProcGroup/Handles.antt =====
-- The handle of the job object in src/proc_group.rs.
use execra.Base.{Bool, true, false, List, [], ◌∷◌, ◌++◌, ◌≡◌, refl, ap, ◌∙◌, if◌then◌else◌}
use execra.ProcGroup.{
  Answers, Call, assign_process, close_handle, create_job_object, set_information,
  terminate_job_object, killpg_sigkill, killpg_sigterm,
}
use execra.ProcGroup.Windows

-- Where a handle stands: not created; open; with the limit that closing it kills; with the child
-- assigned to it; closed; or used in another order.
pub data Handle : Type 0 where
  absent opened limited holding closed misused : Handle

abbrev pub on_set : Bool → Handle → Handle
on_set true opened = limited
on_set false opened = opened
on_set _ _ = misused

-- A child must not be assigned before the limit is set.
abbrev pub on_assign : Bool → Handle → Handle
on_assign true limited = holding
on_assign false limited = limited
on_assign _ _ = misused

abbrev pub on_create : Bool → Handle → Handle
on_create true absent = opened
on_create false absent = absent
on_create _ _ = misused

abbrev pub on_terminate : Handle → Handle
on_terminate holding = holding
on_terminate _ = misused

abbrev pub on_close : Handle → Handle
on_close opened = closed
on_close limited = closed
on_close holding = closed
on_close _ = misused

abbrev pub after_call : Call → Handle → Handle
after_call (create_job_object b) s = on_create b s
after_call (set_information b) s = on_set b s
after_call (assign_process b) s = on_assign b s
after_call terminate_job_object s = on_terminate s
after_call close_handle s = on_close s
after_call (killpg_sigterm g) s = s
after_call (killpg_sigkill g) s = s

abbrev pub after_calls : List Call → Handle → Handle
after_calls [] s = s
after_calls (c ∷ cs) s = after_calls cs (after_call c s)

-- What is done with a group before it is dropped.
pub data Use : Type 0 where
  terminates kills : Use

pub calls_of : List Use → List Call
unfolding Windows.terminate Windows.kill
calls_of [] = []
calls_of (terminates ∷ us) = Windows.terminate ++ calls_of us
calls_of (kills ∷ us) = Windows.kill ++ calls_of us

after_calls-append :
    (cs ds : List Call) (s : Handle) → after_calls (cs ++ ds) s ≡ after_calls ds (after_calls cs s)
after_calls-append [] ds s = refl
after_calls-append (c ∷ cs) ds s = after_calls-append cs ds (after_call c s)

uses_hold : (us : List Use) → after_calls (calls_of us) holding ≡ holding
unfolding calls_of Windows.terminate Windows.kill
uses_hold [] = refl
uses_hold (terminates ∷ us) = uses_hold us
uses_hold (kills ∷ us) = uses_hold us

-- A group's life: it is assigned, used if it was made, and dropped.
abbrev pub life : Bool × List Call → List Use → List Call
life (false, calls) us = calls
life (true, calls) us = calls ++ (calls_of us ++ Windows.drop)

-- A handle that was not created is never used; any other is closed.
abbrev pub end_of : Bool → Handle
end_of true = closed
end_of false = absent

abbrev IsClosed : Answers → List Use → Type 0
IsClosed a us =
    (after_calls (Windows.assign a).1 absent
      ≡ (if (Windows.assign a).0 then holding else end_of a.created))
    × (after_calls (life (Windows.assign a) us) absent ≡ end_of a.created)

used_and_dropped : (us : List Use) → after_calls (calls_of us ++ Windows.drop) holding ≡ closed
unfolding Windows.drop
used_and_dropped us =
    after_calls-append (calls_of us) Windows.drop holding
    ∙ ap (after_calls Windows.drop) (uses_hold us)

by_answer :
    (c l r s : Bool) (us : List Use)
    → IsClosed (record { created = c; limited = l; raw_handle = r; assigned = s }) us
unfolding Windows.assign
by_answer false l r s us = (refl, refl)
by_answer true false r s us = (refl, refl)
by_answer true true false s us = (refl, refl)
by_answer true true true false us = (refl, refl)
by_answer true true true true us = (refl, used_and_dropped us)

-- The job object of a child is never leaked, nor used or closed twice: whatever the system answers, the
-- child has a group exactly if its handle holds the child, and then the limit that kills it on
-- closing had been set before; and after any uses and the drop, or after the failure, the handle is
-- closed, if it was created at all.
pub life_closes :
    (a : Answers) (us : List Use)
    → let g = Windows.assign a in
      (after_calls g.1 absent ≡ (if g.0 then holding else end_of a.created))
      × (after_calls (life g us) absent ≡ end_of a.created)
life_closes a us = by_answer a.created a.limited a.raw_handle a.assigned us
