-- ===== src/Addr/Init.antt =====
-- The page globals that `init` of awn.c computes from `getpagesize()`.
use native.Mathlib.Nat.{pow-suc, one-le-pow}
use cidl.Base.{
  ℕ, zero, suc, ◌+◌, ◌-◌, ◌/◌, ◌^◌, ◌<◌, ◌≡◌, Option, none, some, arith, ◌==◌, if◌then◌else◌,
  word64,
}
use mathlib.Core.Option

pub record PageGlobals : Type 0 where
  pub size : ℕ
  pub num_shift : ℕ
  pub off_mask : ℕ
  pub num_mask : ℕ

-- `while(tmp){ PAGENUMSHIFT++; tmp >>=1; }` on fuel; `none` means that the fuel ran out.
shift_loop : ℕ → (tmp shift : ℕ) → Option ℕ
shift_loop zero tmp shift = none
shift_loop (suc fuel) tmp shift =
    let rest = shift_loop fuel (tmp / 2) (shift + 1) in if tmp == 0 then some shift else rest

-- `PAGENUMMASK` is the complement, `~PAGEOFFMASK`, of 64 bits.
pub init_pages : (fuel page_size : ℕ) → Option PageGlobals
unfolding shift_loop
init_pages fuel page_size =
    Option.map
      (λ shift. record {
        size = page_size;
        num_shift = shift;
        off_mask = 2 ^ shift - 1;
        num_mask = word64 - 1 - (2 ^ shift - 1);
      })
      (shift_loop fuel (page_size - 1) 0)

ones_half : (k : ℕ) → (2 ^ suc k - 1) / 2 ≡ 2 ^ k - 1
ones_half k = omega (arith, pow-suc 2 k, one-le-pow k 2)

shift_loop_ones :
    (k fuel shift : ℕ) → k < fuel → shift_loop fuel (2 ^ k - 1) shift ≡ some (shift + k)
unfolding shift_loop
shift_loop_ones zero zero shift h = elim h [ ]
shift_loop_ones zero (suc fuel) shift h = ground arith
shift_loop_ones (suc k) zero shift h = elim h [ ]
shift_loop_ones (suc k) (suc fuel) shift h =
    ground (arith, pow-suc 2 k, one-le-pow k 2, ones_half k, shift_loop_ones k fuel (shift + 1))

-- For a page of 2^k bytes and more than k rounds of fuel, the loop of `init` ends, the shift that
-- it finds is k, the offset mask has the k low bits, and the page mask has the others.
pub init_pages-pow :
    (k fuel : ℕ)
    → k < fuel
    → init_pages fuel (2 ^ k)
      ≡ some (record {
        size = 2 ^ k;
        num_shift = k;
        off_mask = 2 ^ k - 1;
        num_mask = word64 - 1 - (2 ^ k - 1);
      })
unfolding init_pages
init_pages-pow k fuel h = rw (shift_loop_ones k fuel 0 h) (ground arith)
