-- ===== src/Base/Exec.antt =====
-- Code that changes a state and may end the process: a failed `assert` exits with status 100, and
-- the other fatal errors exit with -1, which the parent sees as 255. A loop runs on fuel, and
-- `out_of_fuel` says that it was not enough.
use Prim.Native.Nat.{ℕ}
use mathlib.Core.Bool.{Bool, true, false}
use mathlib.Core.Option.{Option, none, some}

pub data Result (A : Type 0) : Type 0 where
  ok : A → Result A
  exit : ℕ → Result A
  out_of_fuel : Result A

abbrev pub Run : Type 0 → Type 0 → Type 0
Run S A = S → Result (A × S)

abbrev pub pure : {S A : Type 0} → A → Run S A
pure a s = ok (a, s)

abbrev pub and_then : {S A : Type 0} {B : Type 0} → Result (A × S) → (A → S → Result B) → Result B
and_then (ok (a, s)) k = k a s
and_then (exit n) k = exit n
and_then out_of_fuel k = out_of_fuel

infixl 5 ◌>>=◌ ◌>>◌
abbrev pub ◌>>=◌ : {S A B : Type 0} → Run S A → (A → Run S B) → Run S B
◌>>=◌ m k s = and_then (m s) k

abbrev pub ◌>>◌ : {S B : Type 0} → Run S (Unit {0}) → Run S B → Run S B
m >> k = m >>= λ _. k

abbrev pub get : {S : Type 0} → Run S S
get s = ok (s, s)

abbrev pub modify : {S : Type 0} → (S → S) → Run S (Unit {0})
modify f s = ok (tt, f s)

abbrev pub assert_failed : ℕ
assert_failed = 100

abbrev pub fatal : ℕ
fatal = 255

-- `assert(x)`
abbrev pub assert : {S : Type 0} → Bool → Run S (Unit {0})
assert true s = ok (tt, s)
assert false s = exit assert_failed

-- A run on a part of the state.
abbrev pub zoom : {S T A : Type 0} → (S → T) → (S → T → S) → Run T A → Run S A
zoom view put m s = and_then (m (view s)) λ a t. ok (a, put s t)

-- A value read from memory, or the status with which the process ends if it cannot be read.
abbrev pub or_exit : {S A : Type 0} → Option A → ℕ → Run S A
or_exit none n s = exit n
or_exit (some a) n s = ok (a, s)

-- An access through NULL ends the process by SIGSEGV.
abbrev pub segfault : ℕ
segfault = 139
