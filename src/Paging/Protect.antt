-- ===== src/Paging/Protect.antt =====
-- `protect_page_in`: the permissions of a page are written anew.
use core_os.Base.{
  ℕ, ◌/◌, ◌%◌, ◌^◌, ◌≡◌, refl, sym, ◌∙◌, Bool, true, false, Option, some, arith, if◌then◌else◌, ◌⊎◌,
  inl, inr, Bool-cases,
}
use core_os.Pmm.{Memory}
use core_os.Paging.{
  Machine, slot, is_present, frame_of, pt_index, MapFlags, page_flags, clear_bit, set_bit,
  pte_writable, pte_user, pte_nx, pte_ptr, translate_page, protect_page_in,
}
use core_os.Paging.Entries.{write_same}
use core_os.Paging.Space.{Space}
use core_os.Paging.Leaf.{page_of}
use core_os.Paging.MapPage.{same_page, set_page-Space, set_page-here, set_page-elsewhere}
use core_os.Paging.Unmap.{
  NoPage, Entry, found, missing, pte_ptr-Entry, translate_page-Table, same_page-translate,
}

-- Two entries with one frame, both present or both absent.
abbrev SameFrame : ℕ → ℕ → Type 0
SameFrame e g = (g % 2 ≡ e % 2) × (g % 2 ^ 52 / 4096 ≡ e % 2 ^ 52 / 4096)

set_bit-SameFrame :
    (e : ℕ)
    → SameFrame e (set_bit e pte_writable)
      × SameFrame e (set_bit e pte_user)
      × SameFrame e (set_bit e pte_nx)
unfolding set_bit
set_bit-SameFrame e = (ground arith, ground arith, ground arith)

clear_bit-SameFrame :
    (e : ℕ)
    → SameFrame e (clear_bit e pte_writable)
      × SameFrame e (clear_bit e pte_user)
      × SameFrame e (clear_bit e pte_nx)
unfolding clear_bit
clear_bit-SameFrame e = (ground arith, ground arith, ground arith)

if-SameFrame :
    (b : Bool) (e x y : ℕ) → SameFrame e x → SameFrame e y → SameFrame e (if b then x else y)
if-SameFrame true e x y h k = h
if-SameFrame false e x y h k = k

SameFrame-trans : (e g x : ℕ) → SameFrame e g → SameFrame g x → SameFrame e x
SameFrame-trans e g x h k = (k.0 ∙ h.0, k.1 ∙ h.1)

SameFrame-refl : (e : ℕ) → SameFrame e e
SameFrame-refl e = (refl, refl)

page_flags-SameFrame : (e : ℕ) (flags : MapFlags) → SameFrame e (page_flags e flags)
unfolding page_flags
page_flags-SameFrame e flags =
    let w = if-SameFrame flags.writable e _ e (set_bit-SameFrame e).0 (SameFrame-refl e) in
    let u = if-SameFrame flags.user e _ _ (SameFrame-trans e _ _ w (set_bit-SameFrame _).1) w in
    if-SameFrame flags.executable e _ _ u (SameFrame-trans e _ _ u (set_bit-SameFrame _).2)

SameFrame-page_of : (e g : ℕ) → SameFrame e g → page_of g ≡ page_of e
unfolding is_present frame_of
SameFrame-page_of e g h = rw (h.0, h.1) refl

-- The permission bits leave the frame and the present bit alone.
pub page_flags-page_of :
    (e : ℕ) (flags : MapFlags)
    → page_of (page_flags (clear_bit (clear_bit (clear_bit e pte_writable) pte_user) pte_nx) flags)
      ≡ page_of e
page_flags-page_of e flags =
    let w = (clear_bit-SameFrame e).0 in
    let u = SameFrame-trans e _ _ w (clear_bit-SameFrame _).1 in
    let x = SameFrame-trans e _ _ u (clear_bit-SameFrame _).2 in
    SameFrame-page_of e _ (SameFrame-trans e _ _ x (page_flags-SameFrame _ flags))

-- The permission bits of an entry: writable, user and no-execute.
pub record Bits (e w u n : ℕ) : Type 0 where
  pub writable : e / pte_writable % 2 ≡ w
  pub user : e / pte_user % 2 ≡ u
  pub nx : e / pte_nx % 2 ≡ n

set_bit-Bits :
    (e w u n : ℕ)
    → Bits e w u n
    → Bits (set_bit e pte_writable) 1 u n
      × Bits (set_bit e pte_user) w 1 n
      × Bits (set_bit e pte_nx) w u 1
unfolding set_bit
set_bit-Bits e w u n h =
    let a = h.writable in
    let b = h.user in
    let c = h.nx in
    (
      record { writable = ground arith; user = ground arith; nx = ground arith },
      record { writable = ground arith; user = ground arith; nx = ground arith },
      record { writable = ground arith; user = ground arith; nx = ground arith },
    )

clear_bit-Bits :
    (e w u n : ℕ)
    → Bits e w u n
    → Bits (clear_bit e pte_writable) 0 u n
      × Bits (clear_bit e pte_user) w 0 n
      × Bits (clear_bit e pte_nx) w u 0
unfolding clear_bit
clear_bit-Bits e w u n h =
    let a = h.writable in
    let b = h.user in
    let c = h.nx in
    (
      record { writable = ground arith; user = ground arith; nx = ground arith },
      record { writable = ground arith; user = ground arith; nx = ground arith },
      record { writable = ground arith; user = ground arith; nx = ground arith },
    )

-- The entry has the three permissions that the flags say.
abbrev pub Permits : ℕ → MapFlags → Type 0
Permits e flags =
    Bits e (if flags.writable then 1 else 0) (if flags.user then 1 else 0)
      (if flags.executable then 0 else 1)

set_writable-Bits :
    (x : ℕ) (b : Bool)
    → Bits x 0 0 0
    → Bits (if b then set_bit x pte_writable else x) (if b then 1 else 0) 0 0
set_writable-Bits x true h = (set_bit-Bits x _ _ _ h).0
set_writable-Bits x false h = h

set_user-Bits :
    (x w : ℕ) (b : Bool)
    → Bits x w 0 0
    → Bits (if b then set_bit x pte_user else x) w (if b then 1 else 0) 0
set_user-Bits x w true h = (set_bit-Bits x _ _ _ h).1
set_user-Bits x w false h = h

set_nx-Bits :
    (x w u : ℕ) (b : Bool)
    → Bits x w u 0
    → Bits (if b then x else set_bit x pte_nx) w u (if b then 0 else 1)
set_nx-Bits x w u true h = h
set_nx-Bits x w u false h = (set_bit-Bits x _ _ _ h).2

protected-Permits :
    (e : ℕ) (flags : MapFlags)
    → Permits
        (page_flags (clear_bit (clear_bit (clear_bit e pte_writable) pte_user) pte_nx) flags)
        flags
unfolding page_flags
protected-Permits e flags =
    let bare0 = (clear_bit-Bits e _ _ _ (record { writable = refl; user = refl; nx = refl })).0 in
    let bare1 = (clear_bit-Bits _ _ _ _ bare0).1 in
    let bare = (clear_bit-Bits _ _ _ _ bare1).2 in
    set_nx-Bits _ _ _ flags.executable
      (set_user-Bits _ _ flags.user (set_writable-Bits _ flags.writable bare))

-- What `protect_page_in` does: no translation changes, and it says whether there is a page.
pub record ProtectOutcome (s : Machine) (root virt : ℕ) (flags : MapFlags) (r : Bool × Memory)
    : Type 0 where
  pub space : Space (record s { mem = r.1 }) root
  pub walks : (v : ℕ) → translate_page r.1 root v ≡ translate_page s.mem root v
  pub done :
      ((r.0 ≡ true)
        × ((f : ℕ) × (translate_page s.mem root virt ≡ some f))
        × ((a : ℕ) × (pte_ptr s.mem root virt ≡ some a) × Permits (r.1 a) flags))
      ⊎ ((r.0 ≡ false) × (r.1 ≡ s.mem) × NoPage s.mem root virt)

-- In an address space whose tables are all distinct, owned and made of entries that are 0 or
-- present, protect_page_in changes no translation; it says true and writes the permissions asked
-- for into the entry of a page that there is, and says false and changes nothing where the address
-- is untranslated or in a huge page.
pub protect_page_in-ProtectOutcome :
    (s : Machine) (root virt : ℕ) (flags : MapFlags)
    → Space s root
    → ProtectOutcome s root virt flags (protect_page_in root virt flags s.mem)
unfolding protect_page_in
protect_page_in-ProtectOutcome s root virt flags space =
    go (pte_ptr s.mem root virt) refl (pte_ptr-Entry s.mem root virt)
  where
    go :
        (r : Option ℕ)
        → pte_ptr s.mem root virt ≡ r
        → Entry s.mem root virt r
        → ProtectOutcome s root virt flags (protect_page_in root virt flags s.mem)
    go _ e (missing n) =
        rw (protect_page_in, e)
          (record { space = space; walks = λ v. refl; done = inr (refl, refl, n) })
    go _ e (found t here) = elim (Bool-cases (is_present (s.mem (slot t (pt_index virt))))) [
      | inr absent ↦
          rw (protect_page_in, e, absent)
            (record {
              space = space;
              walks = λ v. refl;
              done =
                  inr (
                    refl,
                    refl,
                    inl (translate_page-Table s.mem root virt t here ∙ rw absent refl),
                  );
            })
      | inl present ↦
          (let bare =
              clear_bit
                (clear_bit (clear_bit (s.mem (slot t (pt_index virt))) pte_writable) pte_user)
                pte_nx in
            let entry = page_flags bare flags in
            rw (protect_page_in, e, present)
              (record {
                space = set_page-Space s root virt t space here entry;
                walks = λ v. elim (Bool-cases (same_page v virt)) [
                  | inr other ↦ set_page-elsewhere s root virt t space here entry v other
                  | inl same ↦
                      set_page-here s root virt t space here entry v same
                      ∙ page_flags-page_of (s.mem (slot t (pt_index virt))) flags
                      ∙ sym (same_page-translate s.mem root virt t v here same)
                ];
                done = inl (
                  refl,
                  (
                    frame_of (s.mem (slot t (pt_index virt))),
                    translate_page-Table s.mem root virt t here ∙ rw present refl,
                  ),
                  (
                    slot t (pt_index virt),
                    e,
                    rw (write_same s.mem (slot t (pt_index virt)) entry)
                        (protected-Permits (s.mem (slot t (pt_index virt))) flags),
                  ),
                );
              }))
    ]
