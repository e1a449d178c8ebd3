-- ===== src/Examples/Sequences.antt =====
-- A copy from a mapped file, a copy of the copy, and a write.
use cidl.Base.{List, [], ◌∷◌, true, Keeps, refl}
use cidl.Calls.{Call, copies, copies_traced, writes, run_calls}
use cidl.Calls.Safety.{IsSafe, run_calls-IsSafe}
use cidl.Examples.States.{overwritten, state}

abbrev calls : List Call
calls =
    copies 8202 20010 5
    ∷ copies_traced 3 12298 8202 5
    ∷ writes 12298 5 5 (overwritten state.bytes)
    ∷ []

run_calls-IsSafe_example : Keeps (IsSafe true) (run_calls true calls state)
run_calls-IsSafe_example = run_calls-IsSafe true calls state refl
