-- ===== src/Sys/Futex.antt =====
-- Futexes and robust lists in kernel/src/syscall/process.rs. While a task waits the others run: a
-- waiting loop gets a list of turns, each with the tick at which it looks and what the others do
-- after that, if it waits on.
use core_os.Base.{
  ℕ, zero, suc, ◌+◌, ◌-◌, ◌*◌, ◌/◌, ◌%◌, ◌^◌, true, false, not, ◌&&◌, ◌||◌, List, [], ◌∷◌, Option,
  none, some, get_or, set, min, if◌then◌else◌, ◌==◌, ltb, leb, bit_and,
}
use core_os.Base.Words.{and_not_word}
use core_os.Proc.Process.{current_thread}
use core_os.Proc.Life.{find_thread_slot_by_tid}
use core_os.Mm.{
  SysResult, SysError, ok, err, again, invalid, fault, no_entry, no_mem, timed_out, unsupported,
  last_address,
}
use core_os.Usercopy.{
  UserMem, user_range_ok, copy_words_from_user, copy_words_to_user, copy_word_from_user,
  copy_word_to_user,
}
use core_os.Sys.{Sys, FutexWaiter, empty_waiter, put_thread}
use core_os.Sys.Kill.{Result, with_kernel}

abbrev pub futex_private_flag : ℕ
futex_private_flag = 128

abbrev pub futex_owner_died : ℕ
futex_owner_died = 0x4000_0000

abbrev pub futex_tid_mask : ℕ
futex_tid_mask = 0x3fff_ffff

abbrev pub robust_list_limit : ℕ
robust_list_limit = 64

-- The size of a `RobustListHead`: three words.
abbrev pub robust_head_size : ℕ
robust_head_size = 24

-- The loop of `futex_wake` with the number that it has woken. The test for `count` follows the
-- increment, so a `count` of 0 stops nothing.
unfoldable pub wake_waiters : ℕ → ℕ → ℕ → List FutexWaiter → ℕ × List FutexWaiter
wake_waiters addr count woke [] = (woke, [])
wake_waiters addr count woke (w ∷ ws) =
    let skipped = wake_waiters addr count woke ws in
    let rest = wake_waiters addr count (suc woke) ws in
    if not w.in_use || not (w.addr == addr)
    then (skipped.0, w ∷ skipped.1)
    else if suc woke == count
    then (suc woke, record w { in_use = false } ∷ ws)
    else (rest.0, record w { in_use = false } ∷ rest.1)

unfoldable pub futex_wake : Sys → ℕ → ℕ → Result
futex_wake s addr count =
    (let r = wake_waiters addr count 0 s.waiters in (ok r.0, record s { waiters = r.1 }))

-- `position(|waiter| !waiter.in_use)`, from `i` on.
unfoldable pub free_waiter : ℕ → List FutexWaiter → Option ℕ
free_waiter i [] = none
free_waiter i (w ∷ ws) = (let rest = free_waiter (suc i) ws in if w.in_use then rest else some i)

-- The loop of `futex_wait`: it has ended, or the turns have, and the task still waits.
pub data Waiting : Type 0 where
  still : Sys → Waiting
  done : SysResult → Sys → Waiting

pub record Turn : Type 0 where
  pub ticks : ℕ
  pub others : Sys → Sys

abbrev free_slot : Sys → ℕ → Sys
free_slot s slot = record s { waiters = set s.waiters slot empty_waiter }

-- One look of the waiting task, at the tick `now`; none where it goes on waiting.
unfoldable pub look : Sys → ℕ → ℕ → ℕ → Option ℕ → ℕ → Option Result
look s slot addr expected limit passed =
    if not (get_or s.waiters slot empty_waiter).in_use
    then some (ok 0, s)
    else elim (copy_word_from_user 4 s.mem addr) [
      | none ↦ some (err fault, s)
      | some current ↦
          (if not (current == expected) then some (err again, free_slot s slot) else elim limit [
            | none ↦ none
            | some l ↦ (if leb l passed then some (err timed_out, free_slot s slot) else none)
          ])
    ]

unfoldable pub wait_loop : List Turn → Sys → ℕ → ℕ → ℕ → Option ℕ → ℕ → Waiting
wait_loop [] s slot addr expected limit start = still s
wait_loop (turn ∷ turns) s slot addr expected limit start =
    let rest = wait_loop turns (turn.others s) slot addr expected limit start in
    elim (look s slot addr expected limit (turn.ticks - start)) [
      | none ↦ rest
      | some r ↦ done r.0 r.1
    ]

-- A duration in ticks of ten milliseconds: none for a negative one. The products and sums stop at
-- the last address.
unfoldable pub timeout_ticks : ℕ → ℕ → Option ℕ
timeout_ticks sec nsec =
    if ltb sec (2 ^ 63) && ltb nsec (2 ^ 63)
    then some (
        (min (min (sec * 1_000_000_000) last_address + nsec) last_address + 9_999_999) / 10_000_000)
    else none

-- The limit of `futex_wait`: none for a wait without one, or an error.
unfoldable pub wait_limit : UserMem → ℕ → Option (Option ℕ) × SysError
wait_limit m timeout_ptr =
    if timeout_ptr == 0 then (some none, fault) else elim (copy_words_from_user 2 m timeout_ptr) [
      | none ↦ (none, fault)
      | some ws ↦ elim (timeout_ticks (get_or ws 0 0) (get_or ws 1 0)) [
        | none ↦ (none, invalid)
        | some l ↦ (some (some l), fault)
      ]
    ]

unfoldable pub futex_wait : List Turn → Sys → ℕ → ℕ → ℕ → ℕ → Waiting
futex_wait turns s addr expected timeout_ptr start = elim (copy_word_from_user 4 s.mem addr) [
  | none ↦ done (err fault) s
  | some current ↦
      (if not (current == expected)
        then done (err again) s
        else (let limit = wait_limit s.mem timeout_ptr in
            elim limit.0 [
              | none ↦ done (err limit.1) s
              | some l ↦ elim (free_waiter 0 s.waiters) [
                | none ↦ done (err no_mem) s
                | some slot ↦
                    wait_loop turns
                      (record s {
                        waiters = set s.waiters slot (record { in_use = true; addr = addr });
                      })
                      slot addr expected l start
              ]
            ]))
]

-- The call, with the turns of a wait and the tick at which it starts.
unfoldable pub futex : List Turn → Sys → ℕ → ℕ → ℕ → ℕ → ℕ → Waiting
futex turns s addr futex_op val timeout_ptr start =
    if not (user_range_ok addr 4)
    then done (err fault) s
    else (let op = and_not_word 64 futex_op futex_private_flag in
        if op == 0
        then futex_wait turns s addr (val % 2 ^ 32) timeout_ptr start
        else if op == 1
        then (let r = futex_wake s addr val in done r.0 r.1)
        else done (err unsupported) s)

unfoldable pub wake_robust_futex : Sys → ℕ → ℕ → Sys
wake_robust_futex s addr tid = elim (copy_word_from_user 4 s.mem addr) [
  | none ↦ s
  | some word ↦
      (if not (bit_and word futex_tid_mask == tid)
        then s
        else (let updated =
              and_not_word 32 word futex_tid_mask
              + futex_owner_died
              - bit_and word futex_owner_died in
            elim (copy_word_to_user 4 s.mem addr updated) [
              | none ↦ (futex_wake s addr 1).1
              | some m ↦ (futex_wake (record s { mem = m }) addr 1).1
            ]))
]

-- The futex of a node; the offset is the bit pattern of a signed word.
unfoldable pub futex_of_node : ℕ → ℕ → ℕ
futex_of_node node offset =
    if ltb offset (2 ^ 63) then min (node + offset) last_address else node - (2 ^ 64 - offset)

-- The loop over the list, of at most `n` more nodes.
unfoldable pub walk_robust_list : ℕ → Sys → ℕ → ℕ → ℕ → ℕ → Sys
walk_robust_list zero s head_ptr offset tid node = s
walk_robust_list (suc n) s head_ptr offset tid node =
    if node == 0 || node == head_ptr
    then s
    else (let s1 = wake_robust_futex s (futex_of_node node offset) tid in
        elim (copy_words_from_user 1 s1.mem node) [
          | none ↦ s1
          | some ws ↦ walk_robust_list n s1 head_ptr offset tid (get_or ws 0 0)
        ])

unfoldable pub release_robust_list : Sys → Sys
release_robust_list s = elim (current_thread s.kernel) [
  | none ↦ s
  | some t ↦
      (if t.robust_list_head == 0 || not (t.robust_list_len == robust_head_size)
        then s
        else elim (copy_words_from_user 3 s.mem t.robust_list_head) [
          | none ↦ s
          | some head ↦
              (let tid = t.tid % 2 ^ 32 in
                let offset = get_or head 1 0 in
                let pending = get_or head 2 0 in
                let s1 =
                  walk_robust_list robust_list_limit s t.robust_list_head offset tid
                    (get_or head 0 0) in
                if pending == 0
                then s1
                else wake_robust_futex s1 (futex_of_node pending offset) tid)
        ])
]

unfoldable pub set_robust_list : Sys → ℕ → ℕ → Result
set_robust_list s head len =
    if head == 0
    then (err fault, s)
    else if not (len == robust_head_size)
    then (err invalid, s)
    else if not (user_range_ok head len)
    then (err fault, s)
    else elim (current_thread s.kernel) [
      | none ↦ (err invalid, s)
      | some t ↦ (
        ok 0,
        with_kernel s
            (put_thread s.kernel (record t { robust_list_head = head; robust_list_len = len })),
      )
    ]

unfoldable pub get_robust_list : Sys → ℕ → ℕ → ℕ → Result
get_robust_list s pid head_ptr len_ptr =
    if head_ptr == 0 || len_ptr == 0
    then (err fault, s)
    else (let slot : Option ℕ =
          if pid == 0
          then some s.kernel.current
          else find_thread_slot_by_tid pid s.kernel.threads 0 in
        elim slot [
          | none ↦ (err no_entry, s)
          | some i ↦ elim (get_or s.kernel.threads i none) [
            | none ↦ (err no_entry, s)
            | some t ↦ elim (copy_words_to_user s.mem head_ptr (t.robust_list_head ∷ [])) [
              | none ↦ (err fault, s)
              | some m ↦ elim (copy_words_to_user m len_ptr (t.robust_list_len ∷ [])) [
                | none ↦ (err fault, record s { mem = m })
                | some m1 ↦ (ok 0, record s { mem = m1 })
              ]
            ]
          ]
        ])
