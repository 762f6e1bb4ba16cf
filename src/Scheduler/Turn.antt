-- ===== src/Scheduler/Turn.antt =====
-- What a switch does to the tables.
use core_os.Base.{
  ℕ, ◌+◌, ◌%◌, ◌≤◌, ◌<◌, ◌≡◌, refl, sym, ap, ◌∙◌, true, false, ◌&&◌, List, Option, none, some,
  arith, get_or, set, length, if◌then◌else◌, inl, inr, Bool-cases, dec_lt, ◌-◌, length-set, ==_iff,
  lt→ltb, get_or_past, get_or-set, ◌==◌,
}
use core_os.Proc.Process.{Kernel, Task, TaskState, ready, on_cpu, dead, max_tasks}
use core_os.Proc.Life.{task_slot_reaped}
use core_os.Scheduler.{
  is_ready, is_runnable, OldRsp, dead_rsp, rsp_of, Switch, SwitchResult, no_task, switched,
  leave_as, leave_task, enter_task, switch_to, next_task_switch,
}
use core_os.Scheduler.Pick.{runnable_at, Nearest, Picked, found, nothing, pick-Picked}

-- The table of tasks has its eight slots, and the current one is among them.
pub record IsValid (k : Kernel) : Type 0 where
  pub slots : length k.tasks ≡ max_tasks
  pub inside : k.current < max_tasks

abbrev pub task_at : Kernel → ℕ → Option Task
task_at k slot = get_or k.tasks slot none

-- What becomes of the task that is left: a dead one loses its slot, any other is ready, and can be
-- chosen again.
unfoldable pub left_when : Task → TaskState → Option Task
left_when t dead = none
left_when t ready = some (record t { rsp_valid = true })
left_when t on_cpu = some (record t { state = ready; rsp_valid = true })

unfoldable pub left_as : Option Task → Option Task
left_as none = none
left_as (some t) = left_when t t.state

-- The slot of a task after it was left, if it was the current one.
abbrev pub left_at : Kernel → ℕ → Option Task
left_at k g = if k.current == g then left_as (task_at k k.current) else task_at k g

-- Where the stack pointer of the task that is left is saved: a dead task's is given up.
unfoldable pub saved_when : ℕ → TaskState → OldRsp
saved_when slot dead = dead_rsp
saved_when slot ready = rsp_of slot
saved_when slot on_cpu = rsp_of slot

unfoldable pub saved_to : ℕ → Option Task → OldRsp
saved_to slot none = dead_rsp
saved_to slot (some t) = saved_when slot t.state

unfoldable pub taken : Option Task → Option Task
taken none = none
taken (some t) = some (record t { state = on_cpu })

task_slot_reaped_lem :
    (k : Kernel) (slot : ℕ)
    → ((task_slot_reaped k slot).tasks ≡ k.tasks) × ((task_slot_reaped k slot).current ≡ k.current)
unfolding task_slot_reaped
task_slot_reaped_lem k slot = ground arith

-- Leaving a task changes its slot only.
get_or-set_inside :
    (xs : List (Option Task)) (i j : ℕ) (v d : Option Task)
    → i < length xs
    → get_or (set xs i v) j d ≡ (if i == j then v else get_or xs j d)
get_or-set_inside xs i j v d l = ground (arith, get_or-set xs i j v d)

record Left (k : Kernel) (save : OldRsp) (u : Option Task) (r : OldRsp × Kernel) : Type 0 where
  saved : r.0 ≡ save
  current : r.1.current ≡ k.current
  slots : length r.1.tasks ≡ length k.tasks
  at : (g : ℕ) → task_at r.1 g ≡ (if k.current == g then u else task_at k g)

set_slot :
    (k : Kernel) (r : OldRsp × Kernel) (u : Option Task)
    → k.current < length k.tasks
    → r.1.current ≡ k.current
    → r.1.tasks ≡ set k.tasks k.current u
    → Left k r.0 u r
set_slot k r u l a b = record {
  saved = refl;
  current = a;
  slots = ap length b ∙ length-set k.tasks k.current u;
  at = λ g.
      ap (λ (ts : List (Option Task)). get_or ts g none) b
      ∙ get_or-set_inside k.tasks k.current g u none l;
}

leave_as-Left :
    (k : Kernel) (t : Task) (st : TaskState)
    → k.current < length k.tasks
    → Left k (saved_when k.current st) (left_when t st) (leave_as k k.current t st)
unfolding leave_as left_when saved_when
leave_as-Left k t dead l =
    let reaped = task_slot_reaped_lem k k.current in set_slot k _ none l reaped.1 (rw reaped.0 refl)
leave_as-Left k t ready l = set_slot k _ _ l refl refl
leave_as-Left k t on_cpu l = set_slot k _ _ l refl refl

leave_task-Left :
    (k : Kernel) (t : Option Task)
    → k.current < length k.tasks
    → task_at k k.current ≡ t
    → Left k (saved_to k.current t) (left_as t) (leave_task k k.current t)
unfolding leave_task left_as saved_to
leave_task-Left k none l h = record {
  saved = refl;
  current = refl;
  slots = refl;
  at = λ g. elim (Bool-cases (k.current == g)) [
    | inr other ↦ rw other refl
    | inl same ↦
        (let e : k.current ≡ g = (==_iff _ _).0 same in rw same (ap (task_at k) (sym e) ∙ h))
  ];
}
leave_task-Left k (some t) l h = leave_as-Left k t t.state l

-- What `next_task_switch` does when it finds a task.
pub record Turned (k : Kernel) (sw : Switch) (k1 : Kernel) : Type 0 where
  pub distance : ℕ
  pub lower : 1 ≤ distance
  pub upper : distance ≤ max_tasks
  pub next : k1.current ≡ (k.current + distance) % max_tasks
  pub runnable : is_runnable (task_at k k1.current) ≡ true
  pub nearest : (j : ℕ) → 1 ≤ j → j < distance → runnable_at k.tasks k.current j ≡ false
  pub saves : sw.old ≡ saved_to k.current (task_at k k.current)
  pub loads :
      (t : Task) → task_at k k1.current ≡ some t → (sw.next_rsp ≡ t.rsp) × (sw.next_pml4 ≡ t.pml4)
  pub entered : task_at k1 k1.current ≡ taken (left_at k k1.current)
  pub others : (g : ℕ) → (k1.current == g) ≡ false → task_at k1 g ≡ left_at k g
  pub valid : IsValid k1

pub data TurnOutcome (k : Kernel) : SwitchResult → Type 0 where
  turned : (sw : Switch) (k1 : Kernel) → Turned k sw k1 → TurnOutcome k (switched sw k1)
  idle : ((g : ℕ) → is_runnable (task_at k g) ≡ false) → TurnOutcome k no_task

-- A runnable task is not lost when the current one is left.
pub record Kept (t : Task) (r : Option Task) : Type 0 where
  pub still : Task
  pub is : r ≡ some still
  pub rsp : still.rsp ≡ t.rsp
  pub pml4 : still.pml4 ≡ t.pml4
  pub runnable : is_runnable (some still) ≡ true

left_when-Kept :
    (t : Task) (st : TaskState)
    → t.state ≡ st
    → is_ready st && t.rsp_valid ≡ true
    → Kept t (left_when t st)
unfolding left_when is_ready is_runnable
left_when-Kept t ready e h = record {
  still = record t { rsp_valid = true };
  is = refl;
  rsp = refl;
  pml4 = refl;
  runnable = rw e refl;
}
left_when-Kept t on_cpu e h = absurd (cc h)
left_when-Kept t dead e h = absurd (cc h)

pub left_at-Kept :
    (k : Kernel) (g : ℕ) (t : Task)
    → is_runnable (some t) ≡ true
    → task_at k g ≡ some t
    → Kept t (left_at k g)
unfolding is_runnable left_as
left_at-Kept k g t h e = elim (Bool-cases (k.current == g)) [
  | inr other ↦ rw other (record { still = t; is = e; rsp = refl; pml4 = refl; runnable = h })
  | inl same ↦ rw (same, ap (task_at k) ((==_iff _ _).0 same) ∙ e) (left_when-Kept t t.state refl h)
]

pub some_of :
    (t : Option Task)
    → is_runnable t ≡ true
    → (u : Task) × (t ≡ some u) × (is_runnable (some u) ≡ true)
unfolding is_runnable
some_of none h = absurd (cc h)
some_of (some u) h = (u, refl, h)

-- The switch to a slot that the search has found.
switch_to-Turned :
    (k : Kernel) (next : ℕ)
    → IsValid k
    → Nearest k.tasks k.current 1 max_tasks next
    → TurnOutcome k (switch_to k next)
unfolding switch_to enter_task taken
switch_to-Turned k next v d =
    let t = some_of (task_at k next) d.runnable in
    let left = leave_task-Left k (task_at k k.current) (omega (arith, v.slots, v.inside)) refl in
    let r = leave_task k k.current (task_at k k.current) in
    let kept = left_at-Kept k next t.0 t.2 t.1 in
    let size : next < length r.1.tasks = omega (arith, d.place, v.slots, left.slots) in
    let is : task_at r.1 next ≡ some kept.still = left.at next ∙ kept.is in
    rw (switch_to, is)
      (turned _ _ (record {
        distance = d.distance;
        lower = d.lower;
        upper = omega (arith, d.upper);
        next = d.place;
        runnable = d.runnable;
        nearest = d.nearest;
        saves = left.saved;
        loads = λ u e. (cc (kept.rsp, t.1, e), cc (kept.pml4, t.1, e));
        entered =
            get_or-set_inside r.1.tasks next next _ none size
            ∙ rw ((==_iff next next).1 refl) (sym (ap taken kept.is));
        others = λ g other. get_or-set_inside r.1.tasks next g _ none size ∙ rw other (left.at g);
        valid = record {
          slots = length-set r.1.tasks next _ ∙ left.slots ∙ v.slots;
          inside = omega (arith, d.place);
        };
      }))

is_runnable-none : is_runnable none ≡ false
unfolding is_runnable
is_runnable-none = refl

found_or_not :
    (k : Kernel) (r : Option ℕ)
    → IsValid k
    → Picked k.tasks k.current 1 max_tasks r
    → TurnOutcome k (elim r [ none ↦ no_task | some next ↦ switch_to k next ])
found_or_not k _ v (found next d) = switch_to-Turned k next v d
found_or_not k _ v (nothing d) = idle (λ g. elim (dec_lt g max_tasks) [
  | no far ↦ ap is_runnable (get_or_past k.tasks g none (omega (arith, v.slots))) ∙ is_runnable-none
  | yes near ↦
      (let i = (g + 8 - k.current - 1) % 8 + 1 in
        let place : (k.current + i) % max_tasks ≡ g = omega (arith, v.inside) in
        ap (λ h. is_runnable (task_at k h)) (sym place) ∙ d i (omega arith) (omega arith))
])

-- On tables with eight task slots and a current slot among them next_task_switch does not panic:
-- it changes nothing when no task can be chosen, and else runs the nearest one after the current
-- slot, loads its stack and page table, makes the task it leaves ready or gives up the slot of a
-- dead one, and changes no other task.
pub next_task_switch-TurnOutcome : (k : Kernel) → IsValid k → TurnOutcome k (next_task_switch k)
unfolding next_task_switch
next_task_switch-TurnOutcome k v =
    rw (next_task_switch, lt→ltb _ _ v.inside)
      (found_or_not k _ v (pick-Picked max_tasks 1 k.tasks k.current))
