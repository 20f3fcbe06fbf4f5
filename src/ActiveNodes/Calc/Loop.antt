-- ===== src/ActiveNodes/Calc/Loop.antt =====
-- Which hosts the second loop of `calcActiveNodes` appends.
use mathlib.Core.Path.{subst}
use rdsync.Base.{
  String, str_eq, str_eq_refl, eq_iff, contains, ◌≡◌, refl, inl, inr, Bool, true, false, Bool-cases,
  Option, none, some, Option-cases, List, [], ◌∷◌, HostMap, arith, if◌then◌else◌,
}
use rdsync.Base.Hosts
use rdsync.Base.Hosts.{keys, get-put, get-delete}
use rdsync.Types.{Time, HostState, ShardState}
use rdsync.ActiveNodes.Calc.{Calc, decide, set_time, cons_if, visit, calc_loop}

-- The hosts of a map are distinct.
abbrev pub Distinct : ShardState → Type 0
Distinct [] = Unit
Distinct ((h, s) ∷ rest) = (contains (keys rest) h ≡ false) × Distinct rest

-- What the second loop decides of a host with this state.
unfoldable pub is_kept : Calc → ShardState → String → HostState → Option Time → Bool
is_kept c dcs host node fail =
    if str_eq host c.master
    then false
    else elim (Hosts.get dcs host) [ none ↦ false | some d ↦ (decide c host node d fail).active ]

abbrev pub is_chosen : Calc → ShardState → ShardState → HostMap Time → String → Bool
is_chosen c state dcs fails host = elim (Hosts.get state host) [
  | none ↦ false
  | some node ↦ is_kept c dcs host node (Hosts.get fails host)
]

get-set_time :
    (m : HostMap Time) (k : String) (t : Option Time) (j : String)
    → Hosts.get (set_time m k t) j ≡ (if str_eq k j then t else Hosts.get m j)
get-set_time m k none j = get-delete m k j
get-set_time m k (some t) j = get-put m k t j

get_absent : (m : ShardState) (h : String) → contains (keys m) h ≡ false → Hosts.get m h ≡ none
unfolding Hosts.get
get_absent [] h c = refl
get_absent ((j, s) ∷ m) h c = ground (arith, get_absent m h)

module _ (c : Calc) (dcs : ShardState) where
  visit_kept :
      (h : String) (s : HostState) (fails fails₁ : HostMap Time) (b : Bool)
      → visit c dcs h s fails ≡ some (b, fails₁)
      → b ≡ is_kept c dcs h s (Hosts.get fails h)
  unfolding visit is_kept
  visit_kept h s fails fails₁ b e = ground arith

  -- A visit changes the time of failure of its own host alone.
  visit_other :
      (h : String) (s : HostState) (fails fails₁ : HostMap Time) (b : Bool) (host : String)
      → visit c dcs h s fails ≡ some (b, fails₁)
      → str_eq h host ≡ false
      → Hosts.get fails₁ host ≡ Hosts.get fails host
  unfolding visit
  visit_other h s fails fails₁ b host e other = elim (Option-cases (Hosts.get dcs h)) [
    | inl missing ↦ ground arith
    | inr (d, there) ↦
        ground (arith, get-set_time fails h (decide c h s d (Hosts.get fails h)).fail_time host)
  ]

  -- The parts of a loop that does not panic.
  calc_loop_parts :
      (h : String) (s : HostState) (rest : ShardState) (fails fails' : HostMap Time)
      (xs : List String)
      → calc_loop c dcs ((h, s) ∷ rest) fails ≡ some (xs, fails')
      → (b : Bool) × (fails₁ : HostMap Time) × (ys : List String) × (visit c dcs h s fails
          ≡ some (b, fails₁))
        × (calc_loop c dcs rest fails₁ ≡ some (ys, fails'))
        × (xs ≡ cons_if b h ys)
  unfolding calc_loop
  calc_loop_parts h s rest fails fails' xs e = elim (Option-cases (visit c dcs h s fails)) [
    | inl panics ↦ ground arith
    | inr ((b, fails₁), there) ↦ elim (Option-cases (calc_loop c dcs rest fails₁)) [
      | inl panics ↦ ground arith
      | inr ((ys, fails₂), tail) ↦ (b, fails₁, ys, there, ground arith, ground arith)
    ]
  ]

  -- The two cases of the induction: the host is the first of the map, or it is not.
  contains_first :
      (h : String) (s : HostState) (rest : ShardState) (fails fails₁ : HostMap Time) (b : Bool)
      (ys : List String)
      → contains (keys rest) h ≡ false
      → b ≡ is_kept c dcs h s (Hosts.get fails h)
      → contains ys h ≡ is_chosen c rest dcs fails₁ h
      → contains (cons_if b h ys) h ≡ is_chosen c ((h, s) ∷ rest) dcs fails h
  unfolding Hosts.get
  contains_first h s rest fails fails₁ true ys absent kept later =
      ground (arith, str_eq_refl h, get_absent rest h)
  contains_first h s rest fails fails₁ false ys absent kept later =
      ground (arith, str_eq_refl h, get_absent rest h)

  contains_other :
      (h host : String) (s : HostState) (rest : ShardState) (fails fails₁ : HostMap Time) (b : Bool)
      (ys : List String)
      → str_eq h host ≡ false
      → Hosts.get fails₁ host ≡ Hosts.get fails host
      → contains ys host ≡ is_chosen c rest dcs fails₁ host
      → contains (cons_if b h ys) host ≡ is_chosen c ((h, s) ∷ rest) dcs fails host
  unfolding Hosts.get
  contains_other h host s rest fails fails₁ true ys other unmoved later = ground arith
  contains_other h host s rest fails fails₁ false ys other unmoved later = ground arith

  pub calc_loop-contains :
      (state : ShardState) (fails fails' : HostMap Time) (xs : List String) (host : String)
      → Distinct state
      → calc_loop c dcs state fails ≡ some (xs, fails')
      → contains xs host ≡ is_chosen c state dcs fails host
  calc_loop-contains [] fails fails' xs host d e = unfold calc_loop Hosts.get in ground arith
  calc_loop-contains ((h, s) ∷ rest) fails fails' xs host d e =
      let (b, fails₁, ys, seen, tail, made) = calc_loop_parts h s rest fails fails' xs e in
      let kept = visit_kept h s fails fails₁ b seen in
      rw made (elim (Bool-cases (str_eq h host)) [
        | inl same ↦
            subst (λ x. contains (cons_if b h ys) x ≡ is_chosen c ((h, s) ∷ rest) dcs fails x)
              ((eq_iff h host).0 same)
              (contains_first h s rest fails fails₁ b ys d.0 kept
                (calc_loop-contains rest fails₁ fails' ys h d.1 tail))
        | inr other ↦
            contains_other h host s rest fails fails₁ b ys other
              (visit_other h s fails fails₁ b host seen other)
              (calc_loop-contains rest fails₁ fails' ys host d.1 tail)
      ])
