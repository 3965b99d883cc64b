-- ===== src/Tasking/Listing.antt =====
-- `tasking_list` of tasking.c.
use shad_os.Base.{ℕ, zero, suc, not, Option, none, some, List, [], ◌∷◌, ◌++◌, ◌==◌, if◌then◌else◌}
use shad_os.Base.Text.{codes}
use shad_os.Terminal.{Call, write_string, write_number}
use shad_os.Tasking.{TaskState, task_ready, task_running, task_terminated, Task, Tasking}

-- The texts of `state_name`; no other state is ever stored.
abbrev pub state_name : TaskState → List ℕ
state_name task_ready = codes "prete"
state_name task_running = codes "en cours"
state_name task_terminated = codes "terminee"

abbrev pub task_line : Task → List Call
task_line t =
    write_string (codes "  ")
    ∷ write_number t.pid
    ∷ write_string (codes "   ")
    ∷ write_string (state_name t.state)
    ∷ write_string (codes "\n")
    ∷ []

-- `do { ... } while (t != current_task);`
unfoldable pub list_loop : (fuel : ℕ) → (ℕ → Task) → (current t : ℕ) → Option (List Call)
list_loop zero m current t = none
list_loop (suc fuel) m current t =
    let rest = list_loop fuel m current (m t).next in
    if (m t).next == current
    then some (task_line (m t))
    else elim rest [ none ↦ none | some calls ↦ some (task_line (m t) ++ calls) ]

unfoldable pub tasking_list : (fuel : ℕ) → Tasking → Option (List Call)
tasking_list fuel s =
    if not s.ready
    then some (write_string (codes "Multitache non initialise.\n") ∷ [])
    else elim (list_loop fuel s.tasks s.current s.current) [
      | none ↦ none
      | some calls ↦ some (write_string (codes "PID  ETAT\n") ∷ calls)
    ]
