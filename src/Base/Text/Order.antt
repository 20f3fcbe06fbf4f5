-- ===== src/Base/Text/Order.antt =====
-- `sort.Strings` forgets the order of its input: permuted lists sort to one list.
use Prim.Native.Nat.{ℕ}
use Prim.Native.String.{String}
use mathlib.Core.Path.{◌≡◌, refl, ◌∙◌, ap₂}
use mathlib.Core.Bool.{true}
use mathlib.Core.List.{List, [], ◌∷◌, Permᴰ}
use native.Mathlib.Omega.{arith}
use text.Mathlib.TextEquality.{Char-path}
use rdsync.Base.Text.{codes, leb_codes, leb_text, insert_sorted, sort_strings, leb_text_total}

leb_codes_antisym : (xs ys : List ℕ) → leb_codes xs ys ≡ true → leb_codes ys xs ≡ true → xs ≡ ys
unfolding leb_codes
leb_codes_antisym [] [] h k = refl
leb_codes_antisym [] (y ∷ ys) h k = cc
leb_codes_antisym (x ∷ xs) [] h k = cc
leb_codes_antisym (x ∷ xs) (y ∷ ys) h k = ground (arith, leb_codes_antisym xs ys)

leb_codes_trans :
    (xs ys zs : List ℕ) → leb_codes xs ys ≡ true → leb_codes ys zs ≡ true → leb_codes xs zs ≡ true
unfolding leb_codes
leb_codes_trans [] ys zs h k = refl
leb_codes_trans (x ∷ xs) [] zs h k = cc
leb_codes_trans (x ∷ xs) (y ∷ ys) [] h k = cc
leb_codes_trans (x ∷ xs) (y ∷ ys) (z ∷ zs) h k = ground (arith, leb_codes_trans xs ys zs)

codes-injective : (s t : String) → codes s ≡ codes t → s ≡ t
codes-injective String.[] String.[] h = refl
codes-injective String.[] (String.◌∷◌ d t) h = cc
codes-injective (String.◌∷◌ c s) String.[] h = cc
codes-injective (String.◌∷◌ c s) (String.◌∷◌ d t) h =
    ap₂ String.◌∷◌ (Char-path c d (cc)) (codes-injective s t (cc))

leb_text_antisym : (s t : String) → leb_text s t ≡ true → leb_text t s ≡ true → s ≡ t
unfolding leb_text
leb_text_antisym s t h k = codes-injective s t (leb_codes_antisym (codes s) (codes t) h k)

leb_text_trans : (s t u : String) → leb_text s t ≡ true → leb_text t u ≡ true → leb_text s u ≡ true
unfolding leb_text
leb_text_trans s t u h k = leb_codes_trans (codes s) (codes t) (codes u) h k

insert_sorted_comm :
    (a b : String) (xs : List String)
    → insert_sorted a (insert_sorted b xs) ≡ insert_sorted b (insert_sorted a xs)
unfolding insert_sorted
insert_sorted_comm a b [] = ground (arith, leb_text_total a b, leb_text_antisym a b)
insert_sorted_comm a b (x ∷ xs) = ground (
  arith,
  leb_text_total a b,
  leb_text_antisym a b,
  leb_text_trans a b x,
  leb_text_trans b a x,
  insert_sorted_comm a b xs,
)

pub sort_strings-Permᴰ : {xs ys : List String} → Permᴰ xs ys → sort_strings xs ≡ sort_strings ys
unfolding sort_strings
sort_strings-Permᴰ Permᴰ.nil = refl
sort_strings-Permᴰ (Permᴰ.cons e p) = ap₂ insert_sorted e (sort_strings-Permᴰ p)
sort_strings-Permᴰ (Permᴰ.swap {a = a} {b = b} {l = l} e f) =
    cc (insert_sorted_comm a b (sort_strings l))
sort_strings-Permᴰ (Permᴰ.trans p q) = sort_strings-Permᴰ p ∙ sort_strings-Permᴰ q
