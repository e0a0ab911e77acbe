-- ===== src/Prelude/Letters.antt =====
-- Texts read and written by characters: case, search, numbers in decimal and in base 16. Case is
-- that of ASCII: the modelled code compares the result with texts that no other letter folds to.
use Prim.Native.Char.{Char, code}
use Prim.Native.String.{String, char_at, count, ◌++◌}
use Prim.Native.Nat.{ℕ, zero, suc, ◌+◌, ◌-◌, ◌*◌, ◌/◌, ◌%◌}
use mathlib.Core.Bool.{Bool, true, false, ◌&&◌, ◌||◌}
use wiredraft.Prelude.Tests.{leb, ltb, ◌==◌, nat_eq, string_eq, if◌then◌else◌}

unfoldable pub lower_char : Char → Char
lower_char c =
    if leb 65 (code c) && leb (code c) 90
    then char_at "abcdefghijklmnopqrstuvwxyz" (code c - 65)
    else c

unfoldable pub upper_char : Char → Char
upper_char c =
    if leb 97 (code c) && leb (code c) 122
    then char_at "ABCDEFGHIJKLMNOPQRSTUVWXYZ" (code c - 97)
    else c

unfoldable pub to_lower : String → String
unfolding lower_char
to_lower String.[] = ""
to_lower (String.◌∷◌ c s) = String.◌∷◌ (lower_char c) (to_lower s)

unfoldable pub to_upper : String → String
unfolding upper_char
to_upper String.[] = ""
to_upper (String.◌∷◌ c s) = String.◌∷◌ (upper_char c) (to_upper s)

unfoldable pub starts_with : String → String → Bool
starts_with String.[] s = true
starts_with (String.◌∷◌ c p) String.[] = false
starts_with (String.◌∷◌ c p) (String.◌∷◌ d s) =
    let rest = starts_with p s in code c == code d && rest

unfoldable pub includes : String → String → Bool
unfolding starts_with
includes p String.[] = p == ""
includes p (String.◌∷◌ c s) = let rest = includes p s in starts_with p (String.◌∷◌ c s) || rest

unfoldable pub take_chars : ℕ → String → String
take_chars zero s = ""
take_chars (suc n) String.[] = ""
take_chars (suc n) (String.◌∷◌ c s) = String.◌∷◌ c (take_chars n s)

unfoldable pub drop_chars : ℕ → String → String
drop_chars zero s = s
drop_chars (suc n) String.[] = ""
drop_chars (suc n) (String.◌∷◌ c s) = drop_chars n s

-- The digits of a number before a text; every round takes one digit off, so a fuel above the number
-- is enough.
unfoldable pub digits : ℕ → ℕ → ℕ → String → String
digits base zero n rest = rest
digits base (suc fuel) n rest =
    let written = String.◌∷◌ (char_at "0123456789abcdef" (n % base)) rest in
    let more = digits base fuel (n / base) written in if ltb n base then written else more

unfoldable pub decimal : ℕ → String
unfolding digits
decimal n = digits 10 (suc n) n ""

unfoldable pub hex : ℕ → String
unfolding digits
hex n = digits 16 (suc n) n ""

unfoldable pub zeros : ℕ → String
zeros zero = ""
zeros (suc n) = "0" ++ zeros n

-- `padStart(width, "0")`
unfoldable pub pad_start : ℕ → String → String
unfolding zeros
pad_start width s = zeros (width - count s) ++ s

unfoldable pub hex_value : Char → ℕ
hex_value c =
    if leb (code c) 57 then code c - 48 else if leb (code c) 70 then code c - 55 else code c - 87

-- `BigInt("0x" + s)`
unfoldable pub parse_hex : ℕ → String → ℕ
unfolding hex_value
parse_hex n String.[] = n
parse_hex n (String.◌∷◌ c s) = parse_hex (n * 16 + hex_value c) s
