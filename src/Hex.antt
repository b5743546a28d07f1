-- ===== src/Hex.antt =====
-- `hex_to_bin`, pairing/src/lib.rs: hexadecimal text to binary text. A text is the list of its
-- codes; a panic is `none`.
pub mod Bits
pub mod Text
use aws_dpid.Prelude.{ℕ, ◌||◌, ◌==◌, if◌then◌else◌, Option, none, some, List, [], ◌∷◌, ◌++◌}

-- The digits that one character pushes.
unfoldable pub nibble : ℕ → List ℕ
nibble c =
    if c == b'0'
    then b'0' ∷ b'0' ∷ b'0' ∷ b'0' ∷ []
    else if c == b'1'
    then b'0' ∷ b'0' ∷ b'0' ∷ b'1' ∷ []
    else if c == b'2'
    then b'0' ∷ b'0' ∷ b'1' ∷ b'0' ∷ []
    else if c == b'3'
    then b'0' ∷ b'0' ∷ b'1' ∷ b'1' ∷ []
    else if c == b'4'
    then b'0' ∷ b'1' ∷ b'0' ∷ b'0' ∷ []
    else if c == b'5'
    then b'0' ∷ b'1' ∷ b'0' ∷ b'1' ∷ []
    else if c == b'6'
    then b'0' ∷ b'1' ∷ b'1' ∷ b'0' ∷ []
    else if c == b'7'
    then b'0' ∷ b'1' ∷ b'1' ∷ b'1' ∷ []
    else if c == b'8'
    then b'1' ∷ b'0' ∷ b'0' ∷ b'0' ∷ []
    else if c == b'9'
    then b'1' ∷ b'0' ∷ b'0' ∷ b'1' ∷ []
    else if c == b'A' || c == b'a'
    then b'1' ∷ b'0' ∷ b'1' ∷ b'0' ∷ []
    else if c == b'B' || c == b'b'
    then b'1' ∷ b'0' ∷ b'1' ∷ b'1' ∷ []
    else if c == b'C' || c == b'c'
    then b'1' ∷ b'1' ∷ b'0' ∷ b'0' ∷ []
    else if c == b'D' || c == b'd'
    then b'1' ∷ b'1' ∷ b'0' ∷ b'1' ∷ []
    else if c == b'E' || c == b'e'
    then b'1' ∷ b'1' ∷ b'1' ∷ b'0' ∷ []
    else if c == b'F' || c == b'f'
    then b'1' ∷ b'1' ∷ b'1' ∷ b'1' ∷ []
    else []

unfoldable pub push_nibbles : List ℕ → List ℕ
unfolding nibble
push_nibbles [] = []
push_nibbles (c ∷ searchstr) = nibble c ++ push_nibbles searchstr

-- The text after a `0x` at the beginning; the code looks at the second character only.
unfoldable pub hex_to_bin : List ℕ → Option (List ℕ)
unfolding push_nibbles
hex_to_bin [] = none
hex_to_bin (c ∷ []) = none
hex_to_bin (c ∷ d ∷ rest) = some (push_nibbles (if d == b'x' then rest else c ∷ d ∷ rest))
