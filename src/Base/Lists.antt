-- ===== src/Base/Lists.antt =====
-- Lists of numbers, and their length as a native number.
use Prim.Native.Nat.{ℕ, suc, ◌+◌, ◌<◌}
use mathlib.Core.Path.{◌≡◌, refl}
use mathlib.Core.Bool.{Bool, true, false, ◌||◌}
use mathlib.Core.List.{List, [], ◌∷◌, ◌++◌, reverse, reverse_aux}
use native.Mathlib.Omega.{arith}
use cidl.Base.Tests.{◌==◌, if◌then◌else◌}

module _ {ℓ} {A : Type ℓ} where
  abbrev pub length : List A → ℕ
  length [] = 0
  length (x ∷ xs) = suc (length xs)

  pub length-append : (xs ys : List A) → length (xs ++ ys) ≡ length xs + length ys
  length-append [] ys = omega arith
  length-append (x ∷ xs) ys = omega (arith, length-append xs ys)

-- Whether a number is in a list.
abbrev pub has : ℕ → List ℕ → Bool
has a [] = false
has a (x ∷ xs) = (x == a) || has a xs

-- The list less the first occurrence of a number.
abbrev pub erase : ℕ → List ℕ → List ℕ
erase a [] = []
erase a (x ∷ xs) = if x == a then xs else x ∷ erase a xs

abbrev pub Distinct : List ℕ → Type 0
Distinct [] = Unit {0}
Distinct (x ∷ xs) = (has x xs ≡ false) × Distinct xs

abbrev pub AllBelow : ℕ → List ℕ → Type 0
AllBelow n [] = Unit {0}
AllBelow n (x ∷ xs) = (x < n) × AllBelow n xs

pub has-erase : (a b : ℕ) (xs : List ℕ) → has a xs ≡ false → has a (erase b xs) ≡ false
has-erase a b [] h = refl
has-erase a b (x ∷ xs) h = ground (arith, has-erase a b xs)

pub has-erase_self : (a : ℕ) (xs : List ℕ) → Distinct xs → has a (erase a xs) ≡ false
has-erase_self a [] d = refl
has-erase_self a (x ∷ xs) d = ground (arith, has-erase_self a xs d.1)

pub erase-Distinct : (a : ℕ) (xs : List ℕ) → Distinct xs → Distinct (erase a xs)
erase-Distinct a [] d = tt
erase-Distinct a (x ∷ xs) d = ground (arith, erase-Distinct a xs d.1, has-erase x a xs d.0)

length-reverse_aux :
    {A : Type 0} (xs ys : List A) → length (reverse_aux xs ys) ≡ length xs + length ys
length-reverse_aux [] ys = omega arith
length-reverse_aux (x ∷ xs) ys = omega (arith, length-reverse_aux xs (x ∷ ys))

pub length-reverse : {A : Type 0} (xs : List A) → length (reverse xs) ≡ length xs
length-reverse xs = omega (arith, length-reverse_aux xs [])

-- The list less the first occurrence of each of some numbers.
abbrev pub erase_all : List ℕ → List ℕ → List ℕ
erase_all [] xs = xs
erase_all (a ∷ gone) xs = erase_all gone (erase a xs)

pub has-erase_other : (a b : ℕ) (xs : List ℕ) → (b == a) ≡ false → has a (erase b xs) ≡ has a xs
has-erase_other a b [] h = refl
has-erase_other a b (x ∷ xs) h = ground (arith, has-erase_other a b xs)

pub length-erase : (a : ℕ) (xs : List ℕ) → has a xs ≡ true → length (erase a xs) + 1 ≡ length xs
length-erase a [] h = cc
length-erase a (x ∷ xs) h = ground (arith, length-erase a xs)

pub erase-AllBelow : (a n : ℕ) (xs : List ℕ) → AllBelow n xs → AllBelow n (erase a xs)
erase-AllBelow a n [] h = tt
erase-AllBelow a n (x ∷ xs) h = ground (arith, erase-AllBelow a n xs h.1)

pub AllBelow-mono : (m n : ℕ) (xs : List ℕ) → m < suc n → AllBelow m xs → AllBelow n xs
AllBelow-mono m n [] le h = tt
AllBelow-mono m n (x ∷ xs) le h = (omega arith, AllBelow-mono m n xs le h.1)

pub lt_of_has : (a n : ℕ) (xs : List ℕ) → AllBelow n xs → has a xs ≡ true → a < n
lt_of_has a n [] h m = cc
lt_of_has a n (x ∷ xs) h m = ground (arith, lt_of_has a n xs h.1)

pub not-has_of_below : (a n : ℕ) (xs : List ℕ) → AllBelow n xs → n < suc a → has a xs ≡ false
not-has_of_below a n [] h m = refl
not-has_of_below a n (x ∷ xs) h m = ground (arith, not-has_of_below a n xs h.1)
