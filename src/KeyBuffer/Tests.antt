-- ===== src/KeyBuffer/Tests.antt =====
-- Runs of the key buffer, and the refinement at a concrete state.
use core_os.Base.{◌≡◌, refl, List, [], ◌∷◌, none, some, replicate}
use core_os.KeyBuffer.{new, push, pop, is_empty, is_full, Op, put, get, run}
use core_os.KeyBuffer.Queue.{contents, new-IsValid, push-IsValid, run_queue, run_refines}

abbrev script : List Op
script = put b'l' ∷ get ∷ put b's' ∷ put 10 ∷ get ∷ get ∷ get ∷ []

run-new : run new script ≡ some b'l' ∷ some b's' ∷ some 10 ∷ none ∷ []
unfolding run new push pop is_empty is_full replicate
run-new = refl

run_refines_example : run (push new b'x') script ≡ run_queue (contents (push new b'x')) script
run_refines_example = run_refines script (push new b'x') (push-IsValid new b'x' new-IsValid)
