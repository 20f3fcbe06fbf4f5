-- ===== src/Lag/Desirable.antt =====
-- `getMostDesirableNode` chooses by priority, then by offset, within the hosts that may be chosen.
use mathlib.Core.Path.{subst}
use text.Mathlib.Text.{starts_with}
use rdsync.Base.{
  String, str_eq_refl, eq_iff, contains, ◌≡◌, refl, sym, ◌∙◌, ap, ◌⊎◌, inl, inr, true, false,
  Option, some, List, [], ◌∷◌, All, Result, ok, arith, >>=-eq-ok,
}
use rdsync.Base.Int.{ℤ, pos, ◌≤ℤ◌, ◌<ℤ◌}
use rdsync.Base.Hosts
use rdsync.Types.{HostState, ShardState}
use rdsync.Lag.{
  get_offset, is_partial_sync_possible, get_node_configuration, find_most_recent_node, recent_nodes,
  Best, better, choose_from, no_best, choose, candidates, get_most_desirable_node,
}

-- Priority `q` with offset `o` is no reason to prefer a host to one with `p` and `top`.
abbrev pub Dominated : ℤ → ℤ → ℤ → ℤ → Type 0
Dominated q o p top = (q <ℤ p) ⊎ ((q ≤ℤ p) × (o ≤ℤ top))

Dominated-trans :
    (q o p t p' t' : ℤ) → Dominated q o p t → Dominated p t p' t' → Dominated q o p' t'
Dominated-trans q o p t p' t' h k = grind arith

-- What one round of the second loop leaves: the new best dominates the old one and the host.
better-Dominated :
    (b : Best) (h : String) (p o : ℤ)
    → let b' = better b h p o in
      Dominated b.priority b.offset b'.priority b'.offset × Dominated p o b'.priority b'.offset
unfolding better
better-Dominated b h p o = ground arith

better_source :
    (b : Best) (h : String) (p o : ℤ)
    → (better b h p o ≡ b) ⊎ (better b h p o ≡ record { host = h; priority = p; offset = o })
unfolding better
better_source b h p o = ground arith

abbrev pub offset_of : ShardState → String → ℤ
offset_of state h = get_offset (Hosts.get state h)

-- No host of the list has a configured priority and an offset that beat `p` and `top`.
abbrev pub NoBetter : (String → Result ℤ) → ShardState → List String → ℤ → ℤ → Type 0
NoBetter answer state hs p top =
    All
      (λ c.
        (q : ℤ) → get_node_configuration (answer c) ≡ ok q → Dominated q (offset_of state c) p top)
      hs

-- The host is one of the list, with its configured priority and its offset.
abbrev IsOneOf : (String → Result ℤ) → ShardState → List String → Best → Type 0
IsOneOf answer state hs b =
    (contains hs b.host ≡ true)
    × (get_node_configuration (answer b.host) ≡ ok b.priority)
    × (b.offset ≡ offset_of state b.host)

module _ (answer : String → Result ℤ) (state : ShardState) where
  IsOneOf-cons :
      (h : String) (hs : List String) (b : Best)
      → IsOneOf answer state hs b
      → IsOneOf answer state (h ∷ hs) b
  IsOneOf-cons h hs b k = ground arith

  IsOneOf-picked :
      (h : String) (hs : List String) (p : ℤ)
      → get_node_configuration (answer h) ≡ ok p
      → IsOneOf answer state
          (h ∷ hs)
          (record { host = h; priority = p; offset = offset_of state h })
  IsOneOf-picked h hs p known = (ground (arith, str_eq_refl h), known, refl)

  choose_from_best :
      (b b' : Best) (hs : List String)
      → choose_from answer state b hs ≡ ok b'
      → Dominated b.priority b.offset b'.priority b'.offset
        × NoBetter answer state hs b'.priority b'.offset
        × ((b' ≡ b) ⊎ IsOneOf answer state hs b')
  unfolding choose_from
  choose_from_best b b' [] e =
      let e' : b ≡ b' = cc in
      (
        subst (λ (x : Best). Dominated b.priority b.offset x.priority x.offset) e'
            (inr (omega arith)),
        tt,
        inl (sym e'),
      )
  choose_from_best b b' (h ∷ hs) e =
      let (p, known, rest) = >>=-eq-ok (get_node_configuration (answer h)) _ e in
      let o = offset_of state h in
      let (dom, none_better, source) = choose_from_best (better b h p o) b' hs rest in
      let (d, d') = better-Dominated b h p o in
      (
        Dominated-trans b.priority b.offset _ _ b'.priority b'.offset d dom,
        (
          (λ q k.
              let same : p ≡ q = cc in
              subst (λ r. Dominated r o b'.priority b'.offset) same
                (Dominated-trans p o _ _ b'.priority b'.offset d' dom)),
          none_better,
        ),
        elim source [
          | inl kept ↦ elim (better_source b h p o) [
            | inl old ↦ inl (kept ∙ old)
            | inr new ↦ inr (
                subst (IsOneOf answer state (h ∷ hs)) (sym (kept ∙ new))
                  (IsOneOf-picked h hs p known))
          ]
          | inr later ↦ inr (IsOneOf-cons h hs b' later)
        ],
      )

  choose_best :
      (hs : List String) (host : String)
      → choose answer state hs ≡ ok host
      → ((host ≡ "") × NoBetter answer state hs (pos 0) (pos 0))
        ⊎ ((p : ℤ) × (contains hs host ≡ true)
            × (get_node_configuration (answer host) ≡ ok p)
            × NoBetter answer state hs p (offset_of state host))
  unfolding choose
  choose_best [] host e = cc
  choose_best (h ∷ hs) host e =
      let (b, chosen, rest) = >>=-eq-ok (choose_from answer state no_best (h ∷ hs)) _ e in
      let named : b.host ≡ host = cc in
      let (dom, none_better, source) = choose_from_best no_best b (h ∷ hs) chosen in
      elim source [
        | inl e' ↦ inl (
          sym named ∙ ap (λ (x : Best). x.host) e',
          subst (λ (x : Best). NoBetter answer state (h ∷ hs) x.priority x.offset) e' none_better,
        )
        | inr (listed, known, at) ↦ inr (
            subst
              (λ x.
                (p : ℤ) × (contains (h ∷ hs) x ≡ true)
                × (get_node_configuration (answer x) ≡ ok p)
                × NoBetter answer state (h ∷ hs) p (offset_of state x))
              named
              (
                b.priority,
                listed,
                known,
                subst (NoBetter answer state (h ∷ hs) b.priority) at none_better,
              ))
      ]

-- When a host is chosen, it is a candidate, with a configured priority, and no candidate has a
-- higher priority, nor the same priority and a greater offset. An empty name is returned instead
-- only if no candidate has a positive priority, nor priority 0 and a positive offset.
pub get_most_desirable_node_best :
    (answer : String → Result ℤ) (state : ShardState) (from host : String)
    → get_most_desirable_node answer state from ≡ ok host
    → ((host ≡ "") × NoBetter answer state (candidates state from) (pos 0) (pos 0))
      ⊎ ((p : ℤ) × (contains (candidates state from) host ≡ true)
          × (get_node_configuration (answer host) ≡ ok p)
          × NoBetter answer state (candidates state from) p (offset_of state host))
unfolding get_most_desirable_node
get_most_desirable_node_best answer state from host e =
    choose_best answer state (candidates state from) host e

-- The host is in the state of the shard, with this state.
abbrev pub HasHost : String → HostState → ShardState → Type 0
HasHost host s [] = ⊥
HasHost host s ((h, t) ∷ rest) = ((h ≡ host) × (t ≡ s)) ⊎ HasHost host s rest

module _ (recent : String) (recent_state : Option HostState) (from host : String) where
  -- What the loop asks of a host that it keeps.
  abbrev IsKept : String → HostState → Type 0
  IsKept h s =
      (starts_with h from ≡ false)
      × ((h ≡ recent) ⊎ (is_partial_sync_possible (some s) recent_state ≡ true))

  first_or_later :
      (h : String) (s : HostState) (rest : ShardState)
      → contains (recent_nodes recent recent_state from ((h, s) ∷ rest)) host ≡ true
      → ((h ≡ host) × IsKept h s)
        ⊎ (contains (recent_nodes recent recent_state from rest) host ≡ true)
  unfolding recent_nodes
  first_or_later h s rest c = ground (arith, eq_iff h host, eq_iff h recent)

  recent_nodes_are :
      (state : ShardState)
      → contains (recent_nodes recent recent_state from state) host ≡ true
      → (s : HostState) × HasHost host s state × IsKept host s
  recent_nodes_are [] c = unfold recent_nodes in cc
  recent_nodes_are ((h, t) ∷ rest) c = elim (first_or_later h t rest c) [
    | inl (same, kept) ↦ (t, inl (same, refl), subst (λ x. IsKept x t) same kept)
    | inr later ↦ let (s, at, kept) = recent_nodes_are rest later in (s, inr at, kept)
  ]

-- Each candidate is a host of the shard whose name does not begin with the host to switch from, and
-- is the most recent host or can resume from it.
pub candidates_are :
    (state : ShardState) (from host : String)
    → contains (candidates state from) host ≡ true
    → let recent = find_most_recent_node state in
      (s : HostState) × HasHost host s state
      × (starts_with host from ≡ false)
      × ((host ≡ recent) ⊎ (is_partial_sync_possible (some s) (Hosts.get state recent) ≡ true))
candidates_are state from host c =
    let recent = find_most_recent_node state in
    let (s, at, (new, kept)) = recent_nodes_are recent (Hosts.get state recent) from host state c in
    (s, at, new, kept)
