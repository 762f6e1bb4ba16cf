-- ===== src/Scheduler/Tests.antt =====
-- Runs of the scheduler, and the theorems about it at concrete tables.
use core_os.Base.{ℕ, ◌<◌, ◌≡◌, refl, true, false, List, [], ◌∷◌, Option, none, some, arith, get_or}
use core_os.Proc.Process.{Kernel, Task, boot_tables, ready, on_cpu, dead, max_tasks}
use core_os.Scheduler.{
  is_ready, is_runnable, pick, SwitchResult, switched, no_task, panics, leave_as, leave_task,
  enter_task, switch_to, next_task_switch, tick, try_switch,
}
use core_os.Scheduler.Turn.{IsValid, TurnOutcome, next_task_switch-TurnOutcome}
use core_os.Scheduler.Fair.{after_turns, after_turns_lem}

abbrev main_task : Task
main_task = record {
  rsp = 0;
  stack_base = 0x9000;
  state = on_cpu;
  id = 0;
  rsp_valid = true;
  pml4 = 0x1000;
}

abbrev other_task : Task
other_task = record {
  rsp = 0x5000;
  stack_base = 0x2000;
  state = ready;
  id = 1;
  rsp_valid = true;
  pml4 = 0x3000;
}

-- The main task runs; the task in slot 2 is dead, those in slots 3 and 5 wait.
abbrev slots : List (Option Task)
slots =
    some main_task
    ∷ none
    ∷ some (record other_task { state = dead })
    ∷ some other_task
    ∷ none
    ∷ some (record other_task { id = 3 })
    ∷ none
    ∷ none
    ∷ []

abbrev waiting : Kernel
waiting = record boot_tables { tasks = slots }

abbrev current_of : SwitchResult → ℕ
current_of (switched sw k) = k.current
current_of no_task = 100
current_of panics = 200

next_task_switch_run : current_of (next_task_switch waiting) ≡ 3
unfolding next_task_switch pick is_runnable is_ready boot_tables switch_to leave_task leave_as
    enter_task
next_task_switch_run = refl

tick_runs :
    (tick 20 true waiting ≡ no_task)
    × (current_of (tick 20 false waiting) ≡ 3)
    × (tick 21 false waiting ≡ no_task)
unfolding tick try_switch next_task_switch pick is_runnable is_ready boot_tables switch_to
    leave_task leave_as enter_task
tick_runs = (refl, refl, refl)

waiting-IsValid : IsValid waiting
unfolding boot_tables
waiting-IsValid = record { slots = refl; inside = omega arith }

waits : is_runnable (get_or waiting.tasks 5 none) ≡ true
unfolding is_runnable is_ready
waits = refl

next_task_switch-TurnOutcome_example : TurnOutcome waiting (next_task_switch waiting)
next_task_switch-TurnOutcome_example = next_task_switch-TurnOutcome waiting waiting-IsValid

after_turns_lem_example :
    (m : ℕ) × (m < max_tasks) × ((after_turns (λ i k. k) m waiting).current ≡ 5)
after_turns_lem_example =
    after_turns_lem (λ i k. k) 5 waiting (λ i k v w. (v, refl, w)) waiting-IsValid (omega arith)
      waits
