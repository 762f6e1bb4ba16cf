-- ===== src/Sys/Robust.antt =====
-- What a leaving thread does to memory and waiters leaves the tables of the kernel alone.
use core_os.Base.{
  ℕ, zero, suc, ◌+◌, ◌≡◌, refl, ◌∙◌, not, ◌||◌, Option, none, some, get_or, ◌==◌, Bool-cases,
  Option-cases, inl, inr, bit_and, ◌-◌, ◌%◌, ◌^◌,
}
use core_os.Proc.Process.{current_thread}
use core_os.Base.Words.{and_not_word}
use core_os.Usercopy.{UserMem, copy_word_from_user, copy_word_to_user, copy_words_from_user}
use core_os.Sys.{Sys}
use core_os.Sys.Futex.{
  futex_wake, wake_robust_futex, futex_of_node, walk_robust_list, release_robust_list,
  futex_tid_mask, futex_owner_died, robust_list_limit, robust_head_size,
}
use core_os.Sys.Leave.{clear_child_tid_and_wake}

-- The robust list and the futexes are no part of the kernel's tables.
futex_wake-kernel : (s : Sys) (addr count : ℕ) → (futex_wake s addr count).1.kernel ≡ s.kernel
unfolding futex_wake
futex_wake-kernel s addr count = refl

wake_robust_futex-kernel :
    (s : Sys) (addr tid : ℕ) → (wake_robust_futex s addr tid).kernel ≡ s.kernel
unfolding wake_robust_futex
wake_robust_futex-kernel s addr tid = elim (Option-cases (copy_word_from_user 4 s.mem addr)) [
  | inl e ↦ rw (wake_robust_futex, e) refl
  | inr (word, e) ↦ elim (Bool-cases (bit_and word futex_tid_mask == tid)) [
    | inr f ↦ rw (wake_robust_futex, e, f) refl
    | inl f ↦
        rw (wake_robust_futex, e, f)
          (stored (
            copy_word_to_user 4 s.mem addr (
              and_not_word 32 word futex_tid_mask
              + futex_owner_died
              - bit_and word futex_owner_died)))
  ]
]
  where
    stored :
        (r : Option UserMem)
        → Sys.kernel (elim r [
          | none ↦ (futex_wake s addr 1).1
          | some m ↦ (futex_wake (record s { mem = m }) addr 1).1
        ])
          ≡ s.kernel
    stored none = futex_wake-kernel s addr 1
    stored (some m) = futex_wake-kernel (record s { mem = m }) addr 1

walk_robust_list-kernel :
    (n : ℕ) (s : Sys) (head offset tid node : ℕ)
    → (walk_robust_list n s head offset tid node).kernel ≡ s.kernel
unfolding walk_robust_list
walk_robust_list-kernel zero s head offset tid node = refl
walk_robust_list-kernel (suc n) s head offset tid node =
    elim (Bool-cases (node == 0 || node == head)) [
      | inl e ↦ rw (walk_robust_list, e) refl
      | inr e ↦
          (let s1 = wake_robust_futex s (futex_of_node node offset) tid in
            let same = wake_robust_futex-kernel s (futex_of_node node offset) tid in
            elim (Option-cases (copy_words_from_user 1 s1.mem node)) [
              | inl f ↦ rw (walk_robust_list, e, f) same
              | inr (ws, f) ↦
                  rw (walk_robust_list, e, f)
                    (walk_robust_list-kernel n s1 head offset tid (get_or ws 0 0) ∙ same)
            ])
    ]

release_robust_list-kernel : (s : Sys) → (release_robust_list s).kernel ≡ s.kernel
unfolding release_robust_list
release_robust_list-kernel s = elim (Option-cases (current_thread s.kernel)) [
  | inl e ↦ rw (release_robust_list, e) refl
  | inr (t, e) ↦
      elim (Bool-cases (t.robust_list_head == 0 || not (t.robust_list_len == robust_head_size))) [
        | inl f ↦ rw (release_robust_list, e, f) refl
        | inr f ↦ elim (Option-cases (copy_words_from_user 3 s.mem t.robust_list_head)) [
          | inl g ↦ rw (release_robust_list, e, f, g) refl
          | inr (head, g) ↦
              (let walked =
                  walk_robust_list-kernel robust_list_limit s t.robust_list_head (get_or head 1 0)
                    (t.tid % 2 ^ 32) (get_or head 0 0) in
                elim (Bool-cases (get_or head 2 0 == 0)) [
                  | inl a ↦ rw (release_robust_list, e, f, g, a) walked
                  | inr a ↦
                      rw (release_robust_list, e, f, g, a) (wake_robust_futex-kernel _ _ _ ∙ walked)
                ])
        ]
      ]
]

pub clear_child_tid_and_wake-kernel : (s : Sys) → (clear_child_tid_and_wake s).kernel ≡ s.kernel
unfolding clear_child_tid_and_wake
clear_child_tid_and_wake-kernel s =
    let s1 = release_robust_list s in
    let released = release_robust_list-kernel s in
    elim (Option-cases (current_thread s1.kernel)) [
      | inl e ↦ rw (clear_child_tid_and_wake, e) released
      | inr (t, e) ↦ elim (Bool-cases (t.clear_child_tid == 0)) [
        | inl f ↦ rw (clear_child_tid_and_wake, e, f) released
        | inr f ↦ elim (Option-cases (copy_word_to_user 4 s1.mem t.clear_child_tid 0)) [
          | inl g ↦
              rw (clear_child_tid_and_wake, e, f, g)
                (futex_wake-kernel s1 t.clear_child_tid 1 ∙ released)
          | inr (m, g) ↦
              rw (clear_child_tid_and_wake, e, f, g)
                (futex_wake-kernel (record s1 { mem = m }) t.clear_child_tid 1 ∙ released)
        ]
      ]
    ]
