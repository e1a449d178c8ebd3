-- ===== src/Dump.antt =====
-- `printMem` of debug.c, which prints memory as hexadecimal digits, less the prefix that MSG puts before
-- each line.
pub mod RoundTrip
use cidl.Base.{ℕ, zero, suc, ◌+◌, ◌-◌, ◌*◌, ◌/◌, ◌%◌, ltb, if◌then◌else◌, List, [], ◌∷◌, ◌++◌}
use cidl.Addr.{Ptr}

abbrev pub Text : Type 0
Text = List ℕ

abbrev pub hex_digit : ℕ → ℕ
hex_digit d = if ltb d 10 then b'0' + d else b'a' + (d - 10)

-- `%02x` of a byte, before a text.
abbrev pub hex : ℕ → Text → Text
hex b rest = hex_digit (b / 16) ∷ hex_digit (b % 16) ∷ rest

-- Two bytes, and what follows them.
abbrev pub pair : (Ptr → ℕ) → Ptr → Text → Text
pair bytes id rest = hex (bytes id) (hex (bytes (id + 1)) rest)

-- A line of 16 bytes.
abbrev pub line : (Ptr → ℕ) → (id : Ptr) → Text → Text
line bytes id rest = pair bytes id (
    b' '
    ∷ pair bytes (id + 2) (
        b' '
        ∷ pair bytes (id + 4) (
            b' '
            ∷ pair bytes (id + 6) (
                b' '
                ∷ pair bytes (id + 8) (
                    b' '
                    ∷ pair bytes (id + 10) (
                        b' '
                        ∷ pair bytes (id + 12) (b' ' ∷ pair bytes (id + 14) (b'\n' ∷ rest))))))))

-- The loop, by the lines left.
pub print_lines : (Ptr → ℕ) → (mem : Ptr) → (left i : ℕ) → Text
print_lines bytes mem zero i = []
print_lines bytes mem (suc left) i = line bytes (mem + 16 * i) (print_lines bytes mem left (i + 1))

unfoldable pub print_mem : (Ptr → ℕ) → (mem : Ptr) → (line_nr : ℕ) → Text
unfolding print_lines
print_mem bytes mem line_nr = print_lines bytes mem line_nr 0
