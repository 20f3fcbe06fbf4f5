-- ===== src/Valkey/Cluster.antt =====
-- internal/valkey/node.go: `IsClusterMajorityAlive`, `HasClusterSlots` and `IsClusterNodeAlone`, on the
-- text that CLUSTER NODES returns.
pub mod Majority
use rdsync.Base.{
  ℕ, suc, ltb, leb, ◌+◌, ◌/◌, ◌==◌, String, Bool, true, false, not, ◌&&◌, ◌||◌, List, [], ◌∷◌,
  length, if◌then◌else◌,
}
use rdsync.Base.Text.{codes}

-- A text's characters.
abbrev pub Chars : Type 0
Chars = List ℕ

abbrev pub push : ℕ → List Chars → List Chars
push c [] = (c ∷ []) ∷ []
push c (w ∷ ws) = (c ∷ w) ∷ ws

-- strings.Split, for a separator of one character.
unfoldable pub split : ℕ → Chars → List Chars
split sep [] = [] ∷ []
split sep (c ∷ cs) = let rest = split sep cs in if c == sep then [] ∷ rest else push c rest

unfoldable pub has_prefix : Chars → Chars → Bool
has_prefix [] w = true
has_prefix (p ∷ ps) [] = false
has_prefix (p ∷ ps) (c ∷ cs) = p == c && has_prefix ps cs

-- strings.Contains
unfoldable pub contains_part : Chars → Chars → Bool
contains_part p [] = has_prefix p []
contains_part p (c ∷ cs) = has_prefix p (c ∷ cs) || contains_part p cs

-- The line has a third word, its flags, which contains this.
abbrev pub flagged : String → List Chars → Bool
flagged name (a ∷ b ∷ flags ∷ rest) = contains_part (codes name) flags
flagged name _ = false

-- The words of each line.
unfoldable pub lines_of : String → List (List Chars)
lines_of text = words (split 10 (codes text))
  where
    words : List Chars → List (List Chars)
    words [] = []
    words (l ∷ ls) = split 32 l ∷ words ls

-- totalMasters and failedMasters
unfoldable pub count_masters : List (List Chars) → ℕ × ℕ
count_masters [] = (0, 0)
count_masters (l ∷ ls) =
    let (total, failed) = count_masters ls in
    if flagged "master" l
    then (if flagged "fail" l then (suc total, suc failed) else (suc total, failed))
    else (total, failed)

abbrev pub is_majority : ℕ × ℕ → Bool
is_majority (total, failed) = ltb failed (total / 2 + 1)

unfoldable pub is_cluster_majority_alive : String → Bool
is_cluster_majority_alive text = is_majority (count_masters (lines_of text))

-- The first line that is the node's own tells.
unfoldable pub has_slots : List (List Chars) → Bool
has_slots [] = false
has_slots (l ∷ ls) = if flagged "myself" l then ltb 8 (length l) else has_slots ls

unfoldable pub has_cluster_slots : String → Bool
has_cluster_slots text = has_slots (lines_of text)

-- unicode.IsSpace
abbrev pub is_space : ℕ → Bool
is_space c =
    (leb 9 c && leb c 13)
    || c == 32
    || c == 133
    || c == 160
    || c == 5760
    || (leb 8192 c && leb c 8202)
    || c == 8232
    || c == 8233
    || c == 8239
    || c == 8287
    || c == 12288

-- len(strings.TrimSpace(line)) > 0
unfoldable pub has_text : Chars → Bool
has_text [] = false
has_text (c ∷ cs) = not (is_space c) || has_text cs

unfoldable pub count_texts : List Chars → ℕ
count_texts [] = 0
count_texts (l ∷ ls) = let n = count_texts ls in if has_text l then suc n else n

unfoldable pub is_cluster_node_alone : String → Bool
is_cluster_node_alone text = count_texts (split 10 (codes text)) == 1
