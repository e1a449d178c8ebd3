-- ===== src/Base/Outcomes.antt =====
-- What holds when a run ends: it does not run out of fuel, and if it returns, then in a state with
-- a given property.
use Prim.Native.Nat.{ℕ}
use mathlib.Core.Option.{Option, none, some}
use mathlib.Core.Bool.{Bool, true, false}
use cidl.Base.Tests.{if◌then◌else◌}
use cidl.Base.Exec.{Result, ok, exit, out_of_fuel, Run, and_then, zoom, or_exit, assert}

abbrev pub Ends : {S A : Type 0} → (S → Type 0) → Result (A × S) → Type 0
Ends P (ok (a, s)) = P s
Ends P (exit n) = Unit {0}
Ends P out_of_fuel = ⊥

pub Ends-and_then :
    {S T A B : Type 0} (P : S → Type 0) (Q : T → Type 0) (m : Result (A × S))
    (k : A → S → Result (B × T))
    → Ends P m
    → ((a : A) (s : S) → P s → Ends Q (k a s))
    → Ends Q (and_then m k)
Ends-and_then P Q (ok (a, s)) k e h = h a s e
Ends-and_then P Q (exit n) k e h = tt
Ends-and_then P Q out_of_fuel k e h = elim e [ ]

-- A run on a part of the state.
pub Ends-zoom :
    {S T A : Type 0} (P : T → Type 0) (Q : S → Type 0) (view : S → T) (put : S → T → S)
    (m : Run T A) (s : S)
    → Ends P (m (view s))
    → ((t : T) → P t → Q (put s t))
    → Ends Q (zoom view put m s)
Ends-zoom {S = S} {T = T} {A = A} P Q view put m s e h = by_result (m (view s)) e
  where
    by_result : (r : Result (A × T)) → Ends P r → Ends Q (and_then r λ a t. ok (a, put s t))
    by_result (ok (a, t)) e = h t e
    by_result (exit n) e = tt
    by_result out_of_fuel e = elim e [ ]

pub Ends-or_exit :
    {S A : Type 0} (P : S → Type 0) (o : Option A) (n : ℕ) (s : S) → P s → Ends P (or_exit o n s)
Ends-or_exit P none n s h = tt
Ends-or_exit P (some a) n s h = h

pub Ends-assert : {S : Type 0} (P : S → Type 0) (b : Bool) (s : S) → P s → Ends P (assert b s)
Ends-assert P true s h = h
Ends-assert P false s h = tt

pub Ends-if :
    {S A : Type 0} (P : S → Type 0) (b : Bool) (m n : Result (A × S))
    → Ends P m
    → Ends P n
    → Ends P (if b then m else n)
Ends-if P true m n h k = h
Ends-if P false m n h k = k

pub Ends-run_if :
    {S A : Type 0} (P : S → Type 0) (b : Bool) (m n : Run S A) (s : S)
    → Ends P (m s)
    → Ends P (n s)
    → Ends P ((if b then m else n) s)
Ends-run_if P true m n s h k = h
Ends-run_if P false m n s h k = k

-- The same of a run that need not end.
abbrev pub Keeps : {S A : Type 0} → (S → Type 0) → Result (A × S) → Type 0
Keeps P (ok (a, s)) = P s
Keeps P (exit n) = Unit {0}
Keeps P out_of_fuel = Unit {0}

pub Ends-Keeps : {S A : Type 0} (P : S → Type 0) (m : Result (A × S)) → Ends P m → Keeps P m
Ends-Keeps P (ok (a, s)) e = e
Ends-Keeps P (exit n) e = tt
Ends-Keeps P out_of_fuel e = tt

pub Keeps-and_then :
    {S T A B : Type 0} (P : S → Type 0) (Q : T → Type 0) (m : Result (A × S))
    (k : A → S → Result (B × T))
    → Keeps P m
    → ((a : A) (s : S) → P s → Keeps Q (k a s))
    → Keeps Q (and_then m k)
Keeps-and_then P Q (ok (a, s)) k e h = h a s e
Keeps-and_then P Q (exit n) k e h = tt
Keeps-and_then P Q out_of_fuel k e h = tt

pub Keeps-run_if :
    {S A : Type 0} (P : S → Type 0) (b : Bool) (m n : Run S A) (s : S)
    → Keeps P (m s)
    → Keeps P (n s)
    → Keeps P ((if b then m else n) s)
Keeps-run_if P true m n s h k = h
Keeps-run_if P false m n s h k = k

pub Keeps-zoom :
    {S T A : Type 0} (P : T → Type 0) (Q : S → Type 0) (view : S → T) (put : S → T → S)
    (m : Run T A) (s : S)
    → Keeps P (m (view s))
    → ((t : T) → P t → Q (put s t))
    → Keeps Q (zoom view put m s)
Keeps-zoom P Q view put m s e h = Keeps-and_then P Q (m (view s)) _ e (λ a t k. h t k)

pub Keeps-or_exit :
    {S A : Type 0} (P : S → Type 0) (o : Option A) (n : ℕ) (s : S) → P s → Keeps P (or_exit o n s)
Keeps-or_exit P none n s h = tt
Keeps-or_exit P (some a) n s h = h
