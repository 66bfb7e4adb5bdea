-- ===== src/ProcGroup/Tests.antt =====
-- A child that cannot be assigned, and one that is killed, and the theorem at them.
use execra.Base.{true, [], ◌∷◌, ◌≡◌}
use execra.ProcGroup.{Answers}
use execra.ProcGroup.Handles.{after_calls, absent, closed, kills, life, life_closes, terminates}
use execra.ProcGroup.Windows

abbrev willing : Answers
willing = record { created = true; limited = true; raw_handle = true; assigned = true }

life_closes_example :
    after_calls (life (Windows.assign willing) (terminates ∷ kills ∷ [])) absent ≡ closed
life_closes_example = (life_closes willing (terminates ∷ kills ∷ [])).1
