-- ===== src/Statistics/Timers.antt =====
-- What the timers of statistics.h count.
use cidl.Base.{
  ℕ, zero, suc, ◌+◌, ◌-◌, ◌*◌, ◌%◌, ◌<◌, ◌≤◌, ◌≡◌, ap, ◌∙◌, ◌==◌, if◌then◌else◌, List, [], ◌∷◌,
  word64, add64, sub64, arith, ltb, leb, ◌&&◌, Bool-cases, inl, inr,
}
use cidl.Statistics.{
  Timer, index, Timers, Timespec, initialize_timers, clear, end_timing, instrument_num,
}

-- The nanoseconds of a time.
abbrev pub nanoseconds : Timespec → ℕ
nanoseconds t = t.tv_sec * 1000000000 + t.tv_nsec

-- A span of time: both ends are proper times that do not overflow, the start first.
pub record IsSpan (start end : Timespec) : Type 0 where
  pub start_nsec : start.tv_nsec < 1000000000
  pub end_nsec : end.tv_nsec < 1000000000
  pub forward : nanoseconds start ≤ nanoseconds end
  pub small : nanoseconds end < word64

elapsed :
    (start end : Timespec)
    → IsSpan start end
    → add64 (sub64 end.tv_sec start.tv_sec * 1000000000 % word64) (sub64 end.tv_nsec start.tv_nsec)
      ≡ nanoseconds end - nanoseconds start
elapsed start end h = omega (arith, h.start_nsec, h.end_nsec, h.forward, h.small)

-- A timed piece of code.
pub record Timing : Type 0 where
  pub timer : Timer
  pub start : Timespec
  pub end : Timespec

abbrev pub AreSpans : List Timing → Type 0
AreSpans [] = Unit {0}
AreSpans (e ∷ es) = IsSpan e.start e.end × AreSpans es

-- The timings in turn.
abbrev pub run_timings : List Timing → Timers → Timers
run_timings [] t = t
run_timings (e ∷ es) t = run_timings es (end_timing e.timer e.start e.end t)

-- The nanoseconds that a timer has run for.
abbrev pub total : ℕ → List Timing → ℕ
total i [] = 0
total i (e ∷ es) =
    let rest = total i es in
    if i == index e.timer then nanoseconds e.end - nanoseconds e.start + rest else rest

clear-zero :
    (left i : ℕ) (t : Timers) (j : ℕ)
    → clear left i t j ≡ (if leb i j && ltb j (i + left) then 0 else t j)
unfolding clear
clear-zero zero i t j = ground arith
clear-zero (suc left) i t j =
    ground (arith, clear-zero left (i + 1) (λ k. if k == i then 0 else t k) j)

step :
    (i : ℕ) (e : Timing) (t : Timers)
    → IsSpan e.start e.end
    → end_timing e.timer e.start e.end t i
      ≡ (if i == index e.timer then add64 (t i) (nanoseconds e.end - nanoseconds e.start) else t i)
unfolding end_timing
step i e t h =
    ap (λ (k : ℕ). if i == index e.timer then add64 (t i) k else t i) (elapsed e.start e.end h)

runs-total :
    (i : ℕ) (es : List Timing) (t : Timers)
    → AreSpans es
    → t i < word64
    → run_timings es t i ≡ (t i + total i es) % word64
runs-total i [] t h small = omega (arith, small)
runs-total i (e ∷ es) t h small =
    let next = end_timing e.timer e.start e.end t in
    let moved = step i e t h.0 in
    elim (Bool-cases (i == index e.timer)) [
      | inl same ↦
          let at : next i ≡ add64 (t i) (nanoseconds e.end - nanoseconds e.start) =
            moved
            ∙ ap (λ b. if b then add64 (t i) (nanoseconds e.end - nanoseconds e.start) else t i)
                same in
          rw same (omega (arith, at, runs-total i es next h.1 (omega (arith, at))))
      | inr other ↦
          let at : next i ≡ t i =
            moved
            ∙ ap (λ b. if b then add64 (t i) (nanoseconds e.end - nanoseconds e.start) else t i)
                other in
          rw other (omega (arith, at, runs-total i es next h.1 (omega (arith, at, small))))
    ]

-- After INITIALIZE_TIMERS and any sequence of timings with proper times, each timer holds, modulo 2^64,
-- the sum of the nanoseconds of its own timings.
pub run_timings-total :
    (es : List Timing) (t : Timers) (i : ℕ)
    → i < instrument_num
    → AreSpans es
    → run_timings es (initialize_timers t) i ≡ total i es % word64
unfolding initialize_timers
run_timings-total es t i h spans =
    let start : initialize_timers t i ≡ 0 = clear-zero instrument_num 0 t i ∙ ground (arith, h) in
    omega (arith, start, runs-total i es (initialize_timers t) spans (omega (arith, start)))
