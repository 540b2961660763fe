-- ===== src/Base/Texts.antt =====
-- Texts: equality, decimal numerals, and the few string operations that the program uses.
use Prim.Native.Nat.{ℕ, zero, suc, ◌/◌, ◌%◌}
use Prim.Native.String.{String, ◌++◌ as ◌<>◌}
use Prim.Native.String.compare
use mathlib.Core.Path.{◌≡◌, refl}
use mathlib.Core.Bool.{Bool, true, false, not, ◌&&◌}
use mathlib.Core.List.{List, [], ◌∷◌}
use Prim.Native.Char.{Char, code}
use mathlib.Core.Option.{Option, none, some}
use text.Mathlib.Text
use haul.Base.Tests.{◌==◌, if◌then◌else◌}
use haul.Base.Lists.{any}

abbrev pub str_eq : String → String → Bool
str_eq s t = Text.◌==◌ s t

-- Whether a text is truthy in JavaScript.
abbrev pub truthy : String → Bool
truthy s = not (str_eq s "")

-- The truth of an optional text: absent and empty are both false.
abbrev pub truthy? : Option String → Bool
truthy? none = false
truthy? (some s) = truthy s

abbrev pub digit : ℕ → String
digit d =
    if d == 0
    then "0"
    else if d == 1
    then "1"
    else if d == 2
    then "2"
    else if d == 3
    then "3"
    else if d == 4
    then "4"
    else if d == 5
    then "5"
    else if d == 6
    then "6"
    else if d == 7
    then "7"
    else if d == 8
    then "8"
    else "9"

show_loop : ℕ → ℕ → String → String
show_loop zero n acc = acc
show_loop (suc fuel) n acc =
    let more = show_loop fuel (n / 10) (digit (n % 10) <> acc) in
    if n / 10 == 0 then digit (n % 10) <> acc else more

-- `String(n)` and `${n}`: the decimal numeral. A number has fewer digits than its value plus one.
unfoldable pub show_nat : ℕ → String
unfolding show_loop
show_nat n = show_loop (suc n) n ""

-- What `charCodeAt` gives at each position, for a text of the basic plane.
abbrev pub code_units : String → List ℕ
code_units String.[] = []
code_units (String.◌∷◌ letter rest) = code letter ∷ code_units rest

-- Whether no text occurs twice.
abbrev pub distinct : List String → Bool
distinct [] = true
distinct (s ∷ ss) = not (any (str_eq s) ss) && distinct ss

pub truthy-cons : (c : Char) (s : String) → truthy (String.◌∷◌ c s) ≡ true
truthy-cons c s = rw (compare.cons-nil c s) refl

-- `s.slice(0, n)`
unfoldable pub first_chars : ℕ → String → String
first_chars zero s = ""
first_chars (suc n) String.[] = ""
first_chars (suc n) (String.◌∷◌ c s) = String.◌∷◌ c (first_chars n s)
