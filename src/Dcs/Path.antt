-- ===== src/Dcs/Path.antt =====
-- internal/dcs/zk.go: `buildFullPath`, the path of a node below the namespace.
use rdsync.Base.{
  ℕ, ◌==◌, String, Bool, true, not, ◌&&◌, Option, none, some, List, [], ◌∷◌, ◌++◌, ◌≡◌, refl, ap,
  arith, if◌then◌else◌,
}
use rdsync.Base.Text.{codes}

-- The separator's character.
abbrev pub sep : ℕ
sep = 47

-- A separator after a separator is left out; `before` is the character before.
unfoldable pub squeeze : ℕ → List ℕ → List ℕ
squeeze before [] = []
squeeze before (c ∷ cs) =
    let rest = squeeze c cs in if c == sep && before == sep then rest else c ∷ rest

-- One separator at the end is left out.
unfoldable pub without_last : List ℕ → List ℕ
without_last [] = []
without_last (c ∷ []) = if c == sep then [] else c ∷ []
without_last (c ∷ d ∷ cs) = c ∷ without_last (d ∷ cs)

-- res[j-1], where there is no character, is a panic.
abbrev pub if_some : List ℕ → Option (List ℕ)
if_some [] = none
if_some (c ∷ cs) = some (without_last (c ∷ cs))

-- JoinPath of the namespace and the path; nothing comes before the first character.
unfoldable pub build_full_path : String → String → Option (List ℕ)
build_full_path namespace path = if_some (squeeze 0 (codes namespace ++ sep ∷ codes path))

-- No two separators in a row.
has_no_double : ℕ → List ℕ → Bool
has_no_double before [] = true
has_no_double before (c ∷ cs) = not (c == sep && before == sep) && has_no_double c cs

-- Nor one at the end.
abbrev pub is_clean : ℕ → List ℕ → Bool
is_clean before [] = not (before == sep)
is_clean before (c ∷ cs) = not (c == sep && before == sep) && is_clean c cs

squeezed : (b : ℕ) (xs : List ℕ) → has_no_double b (squeeze b xs) ≡ true
unfolding squeeze has_no_double
squeezed b [] = refl
squeezed b (c ∷ cs) = ground (arith, squeezed c cs)

cleaned :
    (b c : ℕ) (cs : List ℕ)
    → has_no_double b (c ∷ cs) ≡ true
    → is_clean b (without_last (c ∷ cs)) ≡ true
unfolding without_last has_no_double
cleaned b c [] h = ground (arith, h)
cleaned b c (d ∷ cs) h = ground (arith, h, cleaned c d cs)

-- The first character stays.
kept : (xs ys : List ℕ) → (c : ℕ) × (cs : List ℕ) × (squeeze 0 (xs ++ sep ∷ ys) ≡ c ∷ cs)
unfolding squeeze
kept [] ys = (sep, squeeze sep ys, refl)
kept (x ∷ xs) ys = (x, squeeze x (xs ++ sep ∷ ys), ground arith)

-- `buildFullPath` does not panic, and in the path that it gives no two separators stand in a row and
-- none stands at the end.
pub build_full_path_clean :
    (namespace path : String)
    → (full : List ℕ) × (build_full_path namespace path ≡ some full) × (is_clean 0 full ≡ true)
unfolding build_full_path
build_full_path_clean namespace path =
    let (c, cs, e) = kept (codes namespace) (codes path) in
    (
      without_last (c ∷ cs),
      ap if_some e,
      cleaned 0 c cs (rw⁻¹ e (squeezed 0 (codes namespace ++ sep ∷ codes path))),
    )
