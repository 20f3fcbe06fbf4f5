-- ===== src/Lag/Recent.antt =====
-- `findMostRecentNode` finds the greatest offset.
use mathlib.Core.Path.{subst}
use rdsync.Base.{
  String, ◌≡◌, refl, sym, false, ◌⊎◌, inl, inr, true, some, [], ◌∷◌, arith, if◌then◌else◌,
}
use rdsync.Base.Int.{ℤ, pos, ◌≤ℤ◌, ◌<ℤ◌, ltb_ℤ}
use rdsync.Types.{HostState, ShardState}
use rdsync.Lag.{get_offset, most_recent_from, find_most_recent_node}

-- The state of the shard has the host, with this offset.
abbrev pub HasOffset : String → ℤ → ShardState → Type 0
HasOffset host best [] = ⊥
HasOffset host best ((h, s) ∷ rest) =
    ((h ≡ host) × (get_offset (some s) ≡ best)) ⊎ HasOffset host best rest

abbrev pub AllAtMost : ℤ → ShardState → Type 0
AllAtMost best [] = Unit
AllAtMost best ((h, s) ∷ rest) = (get_offset (some s) ≤ℤ best) × AllAtMost best rest

-- What the loop returns when it is entered with `host` and `best`.
abbrev Found : String → ℤ → ShardState → String → Type 0
Found host best state r =
    (top : ℤ) × (best ≤ℤ top)
    × AllAtMost top state
    × (((r ≡ host) × (top ≡ best)) ⊎ ((best <ℤ top) × HasOffset r top state))

module _ (h host r : String) (s : HostState) (best : ℤ) (rest : ShardState) where
  Found-later :
      ltb_ℤ best (get_offset (some s)) ≡ true
      → Found h (get_offset (some s)) rest r
      → Found host best ((h, s) ∷ rest) r
  Found-later later (top, le, all, at) =
      let later_lt : best <ℤ get_offset (some s) = ground arith in
      elim at [
        | inl e ↦ (
          top,
          omega arith,
          (le, all),
          inr (subst (λ t. best <ℤ t) (sym e.1) later_lt, inl (sym e.0, sym e.1)),
        )
        | inr p ↦ (top, omega arith, (le, all), inr (omega arith, inr p.1))
      ]

  Found-earlier :
      ltb_ℤ best (get_offset (some s)) ≡ false
      → Found host best rest r
      → Found host best ((h, s) ∷ rest) r
  Found-earlier earlier (top, le, all, at) =
      let earlier_le : get_offset (some s) ≤ℤ best = ground arith in
      elim at [
        | inl e ↦ (top, le, (omega arith, all), inl e)
        | inr p ↦ (top, le, (omega arith, all), inr (p.0, inr p.1))
      ]

most_recent_from-Found :
    (host : String) (best : ℤ) (state : ShardState)
    → Found host best state (most_recent_from host best state)
unfolding most_recent_from
most_recent_from-Found host best [] = (best, omega arith, tt, inl (refl, refl))
most_recent_from-Found host best ((h, s) ∷ rest) =
    let offset = get_offset (some s) in
    (elim (ltb_ℤ best offset)
        as (λ b.
          ltb_ℤ best offset ≡ b
          → Found host best ((h, s) ∷ rest)
              (most_recent_from (if b then h else host) (if b then offset else best) rest)) [
                | true ↦ λ later.
                    Found-later h host _ s best rest later (most_recent_from-Found h offset rest)
                | false ↦ λ earlier.
                    Found-earlier h host _ s best rest earlier
                      (most_recent_from-Found host best rest)
              ])
      refl

-- The most recent host has the greatest offset of the shard and that offset is positive; only if no
-- host has a positive offset is there no such host, and the name returned is empty.
pub find_most_recent_node_max :
    (state : ShardState)
    → let host = find_most_recent_node state in
      ((host ≡ "") × AllAtMost (pos 0) state)
      ⊎ ((top : ℤ) × (pos 0 <ℤ top) × HasOffset host top state × AllAtMost top state)
unfolding find_most_recent_node
find_most_recent_node_max state =
    let (top, le, all, at) = most_recent_from-Found "" (pos 0) state in
    elim at [
      | inl e ↦ inl (e.0, subst (λ t. AllAtMost t state) e.1 all)
      | inr r ↦ inr (top, r.0, r.1, all)
    ]
