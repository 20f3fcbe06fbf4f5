-- ===== src/Base/Text/Numbers.antt =====
-- Numbers in texts: `strconv.ParseInt` with base 10 and 64 bits, and `%d` of a natural number.
use Prim.Native.String.{◌++◌ as append}
use rdsync.Base.Text.{codes, str_eq}
use Prim.Native.Nat.{ℕ, zero, suc, ◌+◌, ◌-◌, ◌*◌, ◌/◌, ◌%◌, ◌^◌}
use Prim.Native.String.{String, slice}
use mathlib.Core.Path.{◌≡◌, refl, sym}
use mathlib.Core.Bool.{Bool, true, false, ◌&&◌}
use mathlib.Core.Option.{some_inj, Option, none, some}
use mathlib.Core.List.{List, [], ◌∷◌}
use rdsync.Base.Tests.{ltb, leb, ◌==◌, if◌then◌else◌}
use rdsync.Base.Int.{ℤ, pos, negsuc}

-- The digits after those that make `n`.
digits_from : ℕ → List ℕ → Option ℕ
digits_from n [] = some n
digits_from n (d ∷ ds) = if leb 48 d && leb d 57 then digits_from (n * 10 + (d - 48)) ds else none

-- At least one digit.
digits : List ℕ → Option ℕ
digits [] = none
digits (d ∷ ds) = digits_from 0 (d ∷ ds)

abbrev negated : ℕ → ℤ
negated zero = pos 0
negated (suc n) = negsuc n

-- A number out of range is the nearest one in range, with an error.
in_range : Bool → Option ℕ → ℤ × Option String
in_range negative none = (pos 0, some "invalid syntax")
in_range true (some n) =
    if leb n (2 ^ 63) then (negated n, none) else (negated (2 ^ 63), some "value out of range")
in_range false (some n) =
    if ltb n (2 ^ 63) then (pos n, none) else (pos (2 ^ 63 - 1), some "value out of range")

signed : List ℕ → ℤ × Option String
unfolding digits_from digits in_range
signed [] = (pos 0, some "invalid syntax")
signed (c ∷ cs) =
    if c == 45
    then in_range true (digits cs)
    else if c == 43
    then in_range false (digits cs)
    else in_range false (digits (c ∷ cs))

-- The value, and the error's message where there is one.
unfoldable pub parse_int : String → ℤ × Option String
unfolding signed
parse_int s = signed (codes s)

abbrev digit : ℕ → String
digit n = slice "0123456789" n (n + 1)

decimal_from : ℕ → ℕ → String
decimal_from zero n = ""
decimal_from (suc f) n =
    let front = decimal_from f (n / 10) in
    if ltb n 10 then digit n else append front (digit (n % 10))

-- A number has fewer digits than its successor.
unfoldable pub decimal : ℕ → String
unfolding decimal_from
decimal n = decimal_from (suc n) n

said : (x m : String) → str_eq x "" ≡ false → some x ≡ some m → str_eq m "" ≡ false
said x m h e = rw (sym (some_inj.0 e)) h

abbrev error_of : ℤ × Option String → Option String
error_of p = p.1

out_of_range_said :
    (b : Bool) (x y : ℤ) (m : String)
    → error_of (if b then (x, none) else (y, some "value out of range")) ≡ some m
    → str_eq m "" ≡ false
out_of_range_said true x y m e = cc
out_of_range_said false x y m e = said "value out of range" m refl e

in_range_said :
    (b : Bool) (o : Option ℕ) (m : String) → (in_range b o).1 ≡ some m → str_eq m "" ≡ false
unfolding in_range
in_range_said true none m e = said "invalid syntax" m refl e
in_range_said false none m e = said "invalid syntax" m refl e
in_range_said true (some n) m e = out_of_range_said (leb n (2 ^ 63)) _ _ m e
in_range_said false (some n) m e = out_of_range_said (ltb n (2 ^ 63)) _ _ m e

signed_said : (cs : List ℕ) (m : String) → (signed cs).1 ≡ some m → str_eq m "" ≡ false
unfolding signed
signed_said [] m e = said "invalid syntax" m refl e
signed_said (c ∷ cs) m e = by_sign (c == 45) (c == 43) e
  where
    by_sign :
        (minus plus : Bool)
        → error_of (
            if minus
            then in_range true (digits cs)
            else if plus
            then in_range false (digits cs)
            else in_range false (digits (c ∷ cs)))
          ≡ some m
        → str_eq m "" ≡ false
    by_sign true plus h = in_range_said true (digits cs) m h
    by_sign false true h = in_range_said false (digits cs) m h
    by_sign false false h = in_range_said false (digits (c ∷ cs)) m h

-- An error has a message.
pub parse_int_said : (s m : String) → (parse_int s).1 ≡ some m → str_eq m "" ≡ false
unfolding parse_int
parse_int_said s m e = signed_said (codes s) m e

parses : parse_int "-120" ≡ (negsuc 119, none)
unfolding parse_int
parses = refl

too_great : parse_int "9223372036854775808" ≡ (pos (2 ^ 63 - 1), some "value out of range")
unfolding parse_int
too_great = refl

shows : decimal 120 ≡ "120"
unfolding decimal
shows = refl
