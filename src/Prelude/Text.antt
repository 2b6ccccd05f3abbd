-- ===== src/Prelude/Text.antt =====
-- Python's `str.strip`, slicing from the left and truth of a text, over the characters.
use Prim.Native.Nat.{ℕ, zero, suc, ◌/◌, ◌%◌}
use Prim.Native.Char.{code}
use Prim.Native.String.{String}
use mathlib.Core.Path.{◌≡◌, refl}
use mathlib.Core.Bool.{Bool, true, false, ◌&&◌, ◌||◌}
use text.Mathlib.Text.{◌==◌ as text_eq}
use room_reserve.Prelude.Tests.{ltb, leb, ◌==◌, if◌then◌else◌}

abbrev pub same_text : String → String → Bool
same_text = text_eq

-- The characters for which `str.isspace` is true, which `strip()` removes.
abbrev pub is_space : ℕ → Bool
is_space c =
    (leb 9 c && leb c 13)
    || (leb 28 c && leb c 32)
    || (c == 0x85)
    || (c == 0xa0)
    || (c == 0x1680)
    || (leb 0x2000 c && leb c 0x200a)
    || (c == 0x2028)
    || (c == 0x2029)
    || (c == 0x202f)
    || (c == 0x205f)
    || (c == 0x3000)

abbrev pub is_blank : String → Bool
is_blank String.[] = true
is_blank (String.◌∷◌ c s) = false

-- `not s.strip()`
abbrev pub is_spaces : String → Bool
is_spaces String.[] = true
is_spaces (String.◌∷◌ c s) = is_space (code c) && is_spaces s

unfoldable pub lstrip : String → String
lstrip String.[] = String.[]
lstrip (String.◌∷◌ c s) = if is_space (code c) then lstrip s else String.◌∷◌ c s

unfoldable pub rstrip : String → String
rstrip String.[] = String.[]
rstrip (String.◌∷◌ c s) =
    let rest = rstrip s in
    if is_space (code c) && is_blank rest then String.[] else String.◌∷◌ c rest

unfoldable pub strip : String → String
unfolding lstrip rstrip
strip s = rstrip (lstrip s)

-- `s[:n]`
unfoldable pub take_text : ℕ → String → String
take_text zero s = String.[]
take_text (suc n) String.[] = String.[]
take_text (suc n) (String.◌∷◌ c s) = String.◌∷◌ c (take_text n s)

strip_test : strip "  a b \n" ≡ "a b"
unfolding strip
strip_test = refl

-- The rest of `" ".join(s.split())` behind a word: white space ends it.
words_after : Bool → String → String
words_after gap String.[] = String.[]
words_after gap (String.◌∷◌ c s) =
    let gapped = words_after true s in
    let rest = String.◌∷◌ c (words_after false s) in
    if is_space (code c) then gapped else (if gap then String.◌∷◌ " " rest else rest)

-- `" ".join(s.split())`
unfoldable pub squeeze : String → String
unfolding words_after lstrip
squeeze s = words_after false (lstrip s)

squeeze_test : squeeze "  a \r\n b " ≡ "a b"
unfolding squeeze
squeeze_test = refl

-- The digits from the first one on: the one at the given place is put in front.
digit : String → ℕ → String → String
digit String.[] n s = s
digit (String.◌∷◌ c cs) zero s = String.◌∷◌ c s
digit (String.◌∷◌ c cs) (suc n) s = digit cs n s

-- `str(n)` of a number below 10 ^ fuel, in front of a text.
unfoldable pub decimal_before : ℕ → ℕ → String → String
unfolding digit
decimal_before zero n s = s
decimal_before (suc fuel) n s =
    let rest = decimal_before fuel (n / 10) (digit "0123456789" (n % 10) s) in
    if ltb n 10 then digit "0123456789" n s else rest

-- Twenty digits hold every number of the database.
abbrev pub decimal : ℕ → String
decimal n = decimal_before 20 n ""

unfoldable pub append_text : String → String → String
append_text String.[] t = t
append_text (String.◌∷◌ c s) t = String.◌∷◌ c (append_text s t)

decimal_test : append_text (decimal 0) (decimal 305) ≡ "0305"
unfolding decimal_before append_text
decimal_test = refl
