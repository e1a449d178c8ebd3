-- ===== src/Dump/RoundTrip.antt =====
-- The memory is read back from the text that `printMem` prints.
use cidl.Base.{
  ℕ, zero, suc, ◌+◌, ◌-◌, ◌*◌, ◌/◌, ◌%◌, ◌<◌, ◌≡◌, refl, ap, ◌∙◌, ◌==◌, ◌||◌, false, Bool, ltb,
  if◌then◌else◌, List, [], ◌∷◌, arith,
}
use cidl.Addr.{Ptr}
use cidl.Dump.{Text, hex_digit, hex, pair, line, print_lines, print_mem}

abbrev digit_of : ℕ → ℕ
digit_of c = if ltb c b'a' then c - b'0' else c - b'a' + 10

abbrev is_space : ℕ → Bool
is_space c = c == b' ' || c == b'\n'

-- The bytes of a text of pairs of hexadecimal digits.
pub read_hex : Text → List ℕ
read_hex [] = []
read_hex (c ∷ []) = []
read_hex (c ∷ d ∷ rest) =
    let skipped = read_hex (d ∷ rest) in
    let read = (digit_of c * 16 + digit_of d) ∷ read_hex rest in
    if is_space c then skipped else read

-- The bytes from an address on.
abbrev pub bytes_from : (Ptr → ℕ) → Ptr → ℕ → List ℕ
bytes_from bytes a zero = []
bytes_from bytes a (suc n) = bytes a ∷ bytes_from bytes (a + 1) n

digit-hex : (d : ℕ) → d < 16 → (digit_of (hex_digit d) ≡ d) × (is_space (hex_digit d) ≡ false)
digit-hex d h = (ground (arith, h), ground (arith, h))

read_hex-hex : (b : ℕ) (rest : Text) → b < 256 → read_hex (hex b rest) ≡ b ∷ read_hex rest
unfolding read_hex
read_hex-hex b rest h =
    let high = digit-hex (b / 16) (omega (arith, h)) in
    let low = digit-hex (b % 16) (omega arith) in
    rw (high.1, high.0, low.0) (ap (λ (x : ℕ). x ∷ read_hex rest) (omega arith))

read_hex-newline : (rest : Text) → read_hex (b'\n' ∷ rest) ≡ read_hex rest
unfolding read_hex
read_hex-newline [] = refl
read_hex-newline (c ∷ rest) = refl

module _ (bytes : Ptr → ℕ) (small : (a : Ptr) → bytes a < 256) where
  read_hex-pair :
      (id : Ptr) (rest : Text)
      → read_hex (pair bytes id rest) ≡ bytes id ∷ bytes (id + 1) ∷ read_hex rest
  read_hex-pair id rest =
      read_hex-hex (bytes id) _ (small id)
      ∙ ap (λ l. bytes id ∷ l) (read_hex-hex (bytes (id + 1)) rest (small (id + 1)))

  read_hex-next :
      (id : Ptr) (rest : Text)
      → read_hex (b' ' ∷ pair bytes id rest) ≡ bytes id ∷ bytes (id + 1) ∷ read_hex rest
  unfolding read_hex
  read_hex-next id rest = read_hex-pair id rest

  next_two :
      (id : Ptr) (k : ℕ) (xs ys : List ℕ)
      → xs ≡ ys
      → bytes (id + k) ∷ bytes (id + k + 1) ∷ xs ≡ bytes (id + k) ∷ bytes (id + (k + 1)) ∷ ys
  next_two id k xs ys e =
      ground (arith, e, ap bytes {x = id + k + 1} {y = id + (k + 1)} (omega arith))

  abbrev block : Ptr → List ℕ → List ℕ
  block id rest =
      bytes id
      ∷ bytes (id + 1)
      ∷ bytes (id + 2)
      ∷ bytes (id + 3)
      ∷ bytes (id + 4)
      ∷ bytes (id + 5)
      ∷ bytes (id + 6)
      ∷ bytes (id + 7)
      ∷ bytes (id + 8)
      ∷ bytes (id + 9)
      ∷ bytes (id + 10)
      ∷ bytes (id + 11)
      ∷ bytes (id + 12)
      ∷ bytes (id + 13)
      ∷ bytes (id + 14)
      ∷ bytes (id + 15)
      ∷ rest

  bytes_from-block :
      (id : Ptr) (n : ℕ) → block id (bytes_from bytes (id + 16) n) ≡ bytes_from bytes id (16 + n)
  bytes_from-block id n = ground arith

  two :
      (id : Ptr) (k : ℕ) (rest : Text) (ys : List ℕ)
      → read_hex rest ≡ ys
      → read_hex (b' ' ∷ pair bytes (id + k) rest) ≡ bytes (id + k) ∷ bytes (id + (k + 1)) ∷ ys
  two id k rest ys e = read_hex-next (id + k) rest ∙ next_two id k (read_hex rest) ys e

  read_hex-line :
      (id : Ptr) (rest : Text) → read_hex (line bytes id rest) ≡ block id (read_hex rest)
  read_hex-line id rest =
      read_hex-pair id _
      ∙ ap (λ l. bytes id ∷ bytes (id + 1) ∷ l)
          (two id 2 _ _ (
            two id 4 _ _ (
              two id 6 _ _ (
                two id 8 _ _
                  (two id 10 _ _ (two id 12 _ _ (two id 14 _ _ (read_hex-newline rest))))))))

  read_hex-print_lines :
      (mem : Ptr) (left i : ℕ)
      → read_hex (print_lines bytes mem left i) ≡ bytes_from bytes (mem + 16 * i) (16 * left)
  unfolding print_lines read_hex
  read_hex-print_lines mem zero i = ground arith
  read_hex-print_lines mem (suc left) i =
      read_hex-line (mem + 16 * i) (print_lines bytes mem left (i + 1))
      ∙ ap (block (mem + 16 * i)) (
          read_hex-print_lines mem left (i + 1)
          ∙ ap (λ (a : Ptr). bytes_from bytes a (16 * left)) (omega arith))
      ∙ bytes_from-block (mem + 16 * i) (16 * left)
      ∙ ap (bytes_from bytes (mem + 16 * i)) {x = 16 + 16 * left} {y = 16 * suc left} (omega arith)

  -- While every byte is below 256, the text of `printMem` gives back the bytes of its lines, 16 for each.
  pub read_hex-print_mem :
      (mem : Ptr) (line_nr : ℕ)
      → read_hex (print_mem bytes mem line_nr) ≡ bytes_from bytes mem (16 * line_nr)
  unfolding print_mem
  read_hex-print_mem mem line_nr =
      read_hex-print_lines mem line_nr 0
      ∙ ap (λ (a : Ptr). bytes_from bytes a (16 * line_nr)) (omega arith)
