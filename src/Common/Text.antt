-- ===== src/Common/Text.antt =====
-- The string methods that the program calls. A `String` is its code points: of the comparisons
-- made here none turns on whether a character takes one UTF-16 unit or two.
use Prim.Native.Char.{code}
use Prim.Native.Nat.{ℕ, zero, suc, ◌-◌, ◌/◌, ◌%◌}
use Prim.Native.String.{String, [], ◌∷◌, ◌++◌, slice}
use mathlib.Core.Path.{◌≡◌, refl}
use mathlib.Core.Bool.{Bool, true, false, ◌&&◌, ◌||◌}
use mathlib.Core.List.{List}
use text.Mathlib.Text.{◌==◌, starts_with}
use codex_mcp_ui.Common.Tests.{if◌then◌else◌, leb, ltb, nat_eq}

-- WhiteSpace and LineTerminator of the language's specification.
is_space : ℕ → Bool
is_space n =
    (leb 9 n && leb n 13)
    || nat_eq n 32
    || nat_eq n 0xa0
    || nat_eq n 0x1680
    || (leb 0x2000 n && leb n 0x200a)
    || nat_eq n 0x2028
    || nat_eq n 0x2029
    || nat_eq n 0x202f
    || nat_eq n 0x205f
    || nat_eq n 0x3000
    || nat_eq n 0xfeff

trim_start : String → String
unfolding is_space
trim_start [] = []
trim_start (c ∷ s) = let rest = trim_start s in if is_space (code c) then rest else c ∷ s

trim_end : String → String
unfolding is_space
trim_end [] = []
trim_end (c ∷ s) = let rest = trim_end s in if is_space (code c) && rest == "" then "" else c ∷ rest

unfoldable pub trim : String → String
unfolding trim_start trim_end
trim s = trim_end (trim_start s)

lower_letter : ℕ → String
lower_letter i = slice "abcdefghijklmnopqrstuvwxyz" i (suc i)

-- `s.toLowerCase()` for the letters of ASCII and the Kelvin sign. Every other letter whose lower
-- case differs maps to text outside ASCII, which no caller compares with.
unfoldable pub to_lower : String → String
unfolding lower_letter
to_lower [] = []
to_lower (c ∷ s) =
    let rest = to_lower s in
    if leb 65 (code c) && leb (code c) 90
    then lower_letter (code c - 65) ++ rest
    else if nat_eq (code c) 0x212a
    then "k" ++ rest
    else c ∷ rest

to_lower_test : to_lower "FaiLed_Z1" ≡ "failed_z1"
unfolding to_lower
to_lower_test = refl

unfoldable pub includes : String → String → Bool
includes [] t = starts_with [] t
includes (c ∷ s) t = starts_with (c ∷ s) t || includes s t

-- A template of two pieces.
abbrev pub append : String → String → String
append s t = s ++ t

unfoldable pub join : List String → String → String
join List.[] sep = ""
join (List.◌∷◌ s List.[]) sep = s
join (List.◌∷◌ s (List.◌∷◌ t ss)) sep = s ++ (sep ++ join (List.◌∷◌ t ss) sep)

-- One digit of a decimal numeral.
digit : ℕ → String
digit zero = "0"
digit (suc zero) = "1"
digit (suc (suc zero)) = "2"
digit (suc (suc (suc zero))) = "3"
digit (suc (suc (suc (suc zero)))) = "4"
digit (suc (suc (suc (suc (suc zero))))) = "5"
digit (suc (suc (suc (suc (suc (suc zero)))))) = "6"
digit (suc (suc (suc (suc (suc (suc (suc zero))))))) = "7"
digit (suc (suc (suc (suc (suc (suc (suc (suc zero)))))))) = "8"
digit _ = "9"

-- `String(n)` for a number that is a natural; a number has at most as many digits as its value,
-- and one.
decimal_from : ℕ → ℕ → String
unfolding digit
decimal_from zero n = ""
decimal_from (suc fuel) n =
    let more = decimal_from fuel (n / 10) in if ltb n 10 then digit n else more ++ digit (n % 10)

unfoldable pub decimal : ℕ → String
unfolding decimal_from
decimal n = decimal_from (suc n) n

trim_test : trim "  a b \t" ≡ "a b"
unfolding trim
trim_test = refl

includes_test : (includes "it failed" "fail" ≡ true) × (includes "ok" "fail" ≡ false)
unfolding includes
includes_test = (refl, refl)

decimal_test : decimal 1203 ≡ "1203"
unfolding decimal
decimal_test = refl
