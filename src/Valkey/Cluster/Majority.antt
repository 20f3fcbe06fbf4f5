-- ===== src/Valkey/Cluster/Majority.antt =====
-- When a cluster counts as having a majority.
use rdsync.Base.{ℕ, suc, not, ◌&&◌, List, [], ◌∷◌, if◌then◌else◌}
use rdsync.Valkey.Cluster.{Chars, flagged}

-- How many lines are those of masters that have failed, and of masters that have not.
abbrev pub failed_masters : List (List Chars) → ℕ
failed_masters [] = 0
failed_masters (l ∷ ls) =
    let n = failed_masters ls in if flagged "master" l && flagged "fail" l then suc n else n

abbrev pub live_masters : List (List Chars) → ℕ
live_masters [] = 0
live_masters (l ∷ ls) =
    let n = live_masters ls in if flagged "master" l && not (flagged "fail" l) then suc n else n
