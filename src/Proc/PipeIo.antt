-- ===== src/Proc/PipeIo.antt =====
-- Reading and writing pipes: `get_mut`, `peer_closed`, `write` and `read` of
-- kernel/src/proc/fd_pipe.rs.
use core_os.Base.{
  ℕ, zero, suc, ◌+◌, ◌-◌, ◌%◌, Bool, true, false, not, List, [], ◌∷◌, Option, none, some, get_or,
  set, if◌then◌else◌, ◌==◌, ltb,
}
use core_os.Proc.State.{FdTarget, Pipe, pipe_capacity}
use core_os.Proc.State
use core_os.Proc.Process.{Kernel}
use core_os.Proc.Tables.{pipe_at, pipe_used, put_pipe}
use core_os.Proc.Fd.{get_fd_target}

-- `get_mut`: the index of the pipe, and whether the descriptor is its read end.
pub pipe_of_target : Kernel → FdTarget → Option (ℕ × Bool)
pipe_of_target k State.empty = none
pipe_of_target k State.tty = none
pipe_of_target k State.null = none
pipe_of_target k State.zeroes = none
pipe_of_target k (State.stdio i) = none
pipe_of_target k (State.open_file i) = none
pipe_of_target k (State.pipe_read i) = if pipe_used k i then some (i, true) else none
pipe_of_target k (State.pipe_write i) = if pipe_used k i then some (i, false) else none

pub get_pipe : Kernel → ℕ → Option (ℕ × Bool)
get_pipe k fd = elim (get_fd_target k fd) [ none ↦ none | some t ↦ pipe_of_target k t ]

pub peer_closed : Kernel → ℕ → Option Bool
peer_closed k fd = elim (get_pipe k fd) [
  | none ↦ none
  | some end ↦
      (if end.1
        then some ((pipe_at k end.0).write_refs == 0)
        else some ((pipe_at k end.0).read_refs == 0))
]

-- One turn of the loop of `write`, and of the loop of `read`.
unfoldable pub push_byte : Pipe → ℕ → Pipe
push_byte p b = record p {
  buf = set p.buf p.write_pos b;
  write_pos = (p.write_pos + 1) % pipe_capacity;
  len = p.len + 1;
}

unfoldable pub pop_byte : Pipe → ℕ × Pipe
pop_byte p = (
  get_or p.buf p.read_pos 0,
  record p { read_pos = (p.read_pos + 1) % pipe_capacity; len = p.len - 1 },
)

-- The loop of `write` over the bytes that are left, with the number that it has written.
unfoldable pub fill : List ℕ → Pipe → ℕ × Pipe
unfolding push_byte
fill [] p = (0, p)
fill (b ∷ bs) p =
    let rest = fill bs (push_byte p b) in
    if ltb p.len pipe_capacity then (suc rest.0, rest.1) else (0, p)

-- The loop of `read`, with the bytes that it has stored.
unfoldable pub drain : ℕ → Pipe → List ℕ × Pipe
drain zero p = ([], p)
drain (suc n) p =
    let rest = drain n (pop_byte p).1 in
    if ltb 0 p.len then ((pop_byte p).0 ∷ rest.0, rest.1) else ([], p)

-- `write`
pub write_pipe : Kernel → ℕ → List ℕ → Option ℕ × Kernel
write_pipe k fd bytes = elim (get_pipe k fd) [
  | none ↦ (none, k)
  | some end ↦
      (if end.1 then (none, k) else if (pipe_at k end.0).read_refs == 0 then (some 0, k) else (
        some (fill bytes (pipe_at k end.0)).0,
        put_pipe k end.0 (fill bytes (pipe_at k end.0)).1,
      ))
]

-- The outcome of one turn of the outer loop of `read`, and of the whole loop.
pub data ReadStep : Type 0 where
  waits : ReadStep
  returns : Option (List ℕ) → Kernel → ReadStep

pub try_read : Kernel → ℕ → ℕ → ReadStep
try_read k fd count = elim (peer_closed k fd) [
  | none ↦ returns none k
  | some closed ↦ elim (get_pipe k fd) [
    | none ↦ returns none k
    | some end ↦
        (let p = pipe_at k end.0 in
          if not end.1
          then returns none k
          else if ltb 0 p.len
          then returns (some (drain count p).0) (put_pipe k end.0 (drain count p).1)
          else if closed
          then returns (some []) k
          else waits)
  ]
]

-- `read`, with what the other tasks do during each wait; `waits` while that does not end it.
pub read_pipe : List (Kernel → Kernel) → Kernel → ℕ → ℕ → ReadStep
read_pipe [] k fd count = try_read k fd count
read_pipe (event ∷ events) k fd count =
    let later = read_pipe events (event k) fd count in
    elim (try_read k fd count) [ waits ↦ later | returns bytes l ↦ returns bytes l ]
