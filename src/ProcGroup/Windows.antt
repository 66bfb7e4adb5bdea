-- ===== src/ProcGroup/Windows.antt =====
-- `ProcessGroup` of src/proc_group.rs on Windows: a job object.
use execra.Base.{Bool, true, false, List, [], ◌∷◌, if◌then◌else◌}
use execra.ProcGroup.{
  Answers, Call, assign_process, close_handle, create_job_object, set_information,
  terminate_job_object,
}

-- Whether there is a group, and the calls that were made.
unfoldable pub assign : Answers → Bool × List Call
assign a =
    if a.created
    then if a.limited
      then if a.raw_handle
        then if a.assigned
          then (true, create_job_object true ∷ set_information true ∷ assign_process true ∷ [])
          else (
            false,
            create_job_object true
                ∷ set_information true
                ∷ assign_process false
                ∷ close_handle
                ∷ [],
          )
        else (false, create_job_object true ∷ set_information true ∷ close_handle ∷ [])
      else (false, create_job_object true ∷ set_information false ∷ close_handle ∷ [])
    else (false, create_job_object false ∷ [])

unfoldable pub kill : List Call
kill = terminate_job_object ∷ []

-- Graceful termination is forceful here.
unfoldable pub terminate : List Call
unfolding kill
terminate = kill

unfoldable pub drop : List Call
drop = close_handle ∷ []
