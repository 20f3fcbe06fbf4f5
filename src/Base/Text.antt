-- ===== src/Base/Text.antt =====
-- Texts: equality, membership in a list of texts (`slices.Contains`), and `sort.Strings`.
pub mod Order
pub mod Numbers
use Prim.Native.Nat.{ℕ, suc}
use Prim.Native.Char.{code}
use Prim.Native.String.{String}
use mathlib.Core.Path.{◌≡◌, refl}
use mathlib.Core.Bool.{Bool, true, false, ◌&&◌, ◌||◌}
use mathlib.Core.List.{List, [], ◌∷◌}
use native.Mathlib.Omega.{arith}
pub use text.Mathlib.Text.{◌==◌ as str_eq}
pub use text.Mathlib.TextEquality.{eq_iff}
use rdsync.Base.Tests.{ltb, ◌==◌, if◌then◌else◌}
use rdsync.Base.Lists.{length}

pub str_eq_refl : (s : String) → str_eq s s ≡ true
str_eq_refl s = (eq_iff s s).1 refl

abbrev pub contains : List String → String → Bool
contains [] a = false
contains (x ∷ xs) a = str_eq x a || contains xs a

abbrev pub codes : String → List ℕ
codes String.[] = []
codes (String.◌∷◌ c s) = code c ∷ codes s

-- The lexicographic order. By code points it is the order by UTF-8 bytes, which is Go's.
leb_codes : List ℕ → List ℕ → Bool
leb_codes [] ys = true
leb_codes (x ∷ xs) [] = false
leb_codes (x ∷ xs) (y ∷ ys) = ltb x y || (x == y && leb_codes xs ys)

unfoldable pub leb_text : String → String → Bool
unfolding leb_codes
leb_text s t = leb_codes (codes s) (codes t)

unfoldable pub insert_sorted : String → List String → List String
insert_sorted a [] = a ∷ []
insert_sorted a (x ∷ xs) = if leb_text a x then a ∷ x ∷ xs else x ∷ insert_sorted a xs

-- `sort.Strings`, which returns the same texts in order.
unfoldable pub sort_strings : List String → List String
unfolding insert_sorted
sort_strings [] = []
sort_strings (x ∷ xs) = insert_sorted x (sort_strings xs)

abbrev pub IsSorted : List String → Type 0
IsSorted [] = Unit
IsSorted (x ∷ []) = Unit
IsSorted (x ∷ y ∷ r) = (leb_text x y ≡ true) × IsSorted (y ∷ r)

leb_codes_total : (xs ys : List ℕ) → leb_codes xs ys ≡ false → leb_codes ys xs ≡ true
unfolding leb_codes
leb_codes_total [] ys h = cc
leb_codes_total (x ∷ xs) [] h = refl
leb_codes_total (x ∷ xs) (y ∷ ys) h = ground (arith, leb_codes_total xs ys)

leb_text_total : (s t : String) → leb_text s t ≡ false → leb_text t s ≡ true
unfolding leb_text
leb_text_total s t h = leb_codes_total (codes s) (codes t) h

insert_sorted-IsSorted :
    (a : String) (xs : List String) → IsSorted xs → IsSorted (insert_sorted a xs)
unfolding insert_sorted
insert_sorted-IsSorted a [] h = tt
insert_sorted-IsSorted a (x ∷ []) h = ground (arith, leb_text_total a x)
insert_sorted-IsSorted a (x ∷ y ∷ r) h =
    ground (arith, leb_text_total a x, leb_text_total a y, insert_sorted-IsSorted a (y ∷ r) h.1)

pub sort_strings-IsSorted : (xs : List String) → IsSorted (sort_strings xs)
unfolding sort_strings
sort_strings-IsSorted [] = tt
sort_strings-IsSorted (x ∷ xs) =
    insert_sorted-IsSorted x (sort_strings xs) (sort_strings-IsSorted xs)

contains-insert_sorted :
    (a : String) (xs : List String) (b : String)
    → contains (insert_sorted a xs) b ≡ (str_eq a b || contains xs b)
unfolding insert_sorted
contains-insert_sorted a [] b = refl
contains-insert_sorted a (x ∷ xs) b = ground (arith, contains-insert_sorted a xs b)

pub contains-sort_strings :
    (xs : List String) (b : String) → contains (sort_strings xs) b ≡ contains xs b
unfolding sort_strings
contains-sort_strings [] b = refl
contains-sort_strings (x ∷ xs) b =
    ground (arith, contains-insert_sorted x (sort_strings xs) b, contains-sort_strings xs b)

length-insert_sorted :
    (a : String) (xs : List String) → length (insert_sorted a xs) ≡ suc (length xs)
unfolding insert_sorted
length-insert_sorted a [] = refl
length-insert_sorted a (x ∷ xs) = ground (arith, length-insert_sorted a xs)

pub length-sort_strings : (xs : List String) → length (sort_strings xs) ≡ length xs
unfolding sort_strings
length-sort_strings [] = refl
length-sort_strings (x ∷ xs) =
    ground (arith, length-insert_sorted x (sort_strings xs), length-sort_strings xs)
