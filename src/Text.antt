-- ===== src/Text.antt =====
-- strings.EqualFold, strings.ToLower and the decimal printing of Go's standard library, on the
-- ASCII texts (addresses, keys) they are used on.
use Prim.Native.Char.{Char, code}
use Prim.Native.String.{String, [], ◌∷◌, ◌++◌}
use falari.Prelude.{
  zero, suc, ltb, ◌/◌, ◌%◌, ℕ, ◌+◌, Bool, true, false, ◌&&◌, List, leb, ◌==◌, if◌then◌else◌,
}

abbrev pub codes : String → List ℕ
codes [] = List.[]
codes (c ∷ s) = List.◌∷◌ (code c) (codes s)

-- 'A' to 'Z' become 'a' to 'z'.
unfoldable pub to_lower : ℕ → ℕ
to_lower c = if leb b'A' c && leb c b'Z' then c + 32 else c

unfoldable pub same_folded : List ℕ → List ℕ → Bool
same_folded List.[] List.[] = true
same_folded List.[] (List.◌∷◌ y ys) = false
same_folded (List.◌∷◌ x xs) List.[] = false
same_folded (List.◌∷◌ x xs) (List.◌∷◌ y ys) = to_lower x == to_lower y && same_folded xs ys

unfoldable pub equal_fold : String → String → Bool
equal_fold a b = same_folded (codes a) (codes b)

-- The character of the second text that stands where the first has the given one, if it has.
translate : String → String → Char → Char
translate [] targets c = c
translate (◌∷◌ u us) [] c = c
translate (◌∷◌ u us) (◌∷◌ l ls) c =
    let later = translate us ls c in if code c == code u then l else later

unfoldable pub lower_case : String → String
unfolding translate
lower_case [] = []
lower_case (◌∷◌ c s) =
    ◌∷◌ (translate "ABCDEFGHIJKLMNOPQRSTUVWXYZ" "abcdefghijklmnopqrstuvwxyz" c) (lower_case s)

-- The decimal digits of a number, as fmt.Sprintf prints it.
digit : ℕ → String
digit d =
    if d == 0
    then "0"
    else if d == 1
    then "1"
    else if d == 2
    then "2"
    else if d == 3
    then "3"
    else if d == 4
    then "4"
    else if d == 5
    then "5"
    else if d == 6
    then "6"
    else if d == 7
    then "7"
    else if d == 8
    then "8"
    else "9"

print_digits : ℕ → ℕ → String
print_digits zero n = ""
print_digits (suc fuel) n =
    let rest = print_digits fuel (n / 10) in if ltb n 10 then digit n else rest ++ digit (n % 10)

-- A number has fewer digits than one more than itself.
unfoldable pub decimal : ℕ → String
unfolding digit print_digits
decimal n = print_digits (n + 1) n
