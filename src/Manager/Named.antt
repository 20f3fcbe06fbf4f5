-- ===== src/Manager/Named.antt =====
-- The master by which the manager's turn goes on is the one that the DCS has named or stored.
use mathlib.Core.Path.{subst}
use rdsync.Base.{
  String, str_eq, true, false, not, some, Result, ok, err, not_found, exists, malformed, failed,
  ◌≡◌, refl, arith,
}
use rdsync.Types.{ShardState}
use rdsync.Actions.{Act, Call, Reply, Done, Settings}
use rdsync.Actions.Hoare.{Rules, Keeps, Keeps-ret, Keeps-raise, Keeps->>=, Keeps-handle}
use rdsync.Actions.Steps.{Keeps-if, after_call, after_or_fail}
use rdsync.Actions.Only.{Only-Keeps, Only-mono}
use rdsync.Kinds.{is_steady}
use rdsync.Kinds.Steady.{IsSteady}
use rdsync.Kinds.Slots.{asks_slots, get_master_host-AsksSlots}
use rdsync.Master.Current.{
  get_master_host, store_master, ensure_current_master, all_stable, validated, recorded, current_of,
  get_current_master,
}
use rdsync.Manager.Lock.{Held, hear, Holds, manager_rules, steady_allowed, is_plain, plain-Keeps}

-- The hosts have been read, with these states; the master and the active nodes may still be read.
abbrev pub Reads : ShardState → Held → Type 0
Reads st k = Holds k × (k.taking ≡ false) × (k.taken ≡ true) × (k.states ≡ st) × (k.settled ≡ false)

-- And this is the master.
abbrev pub Names : ShardState → Result String → Held → Type 0
Names st (ok m) t = Reads st t × (t.master ≡ some m)
Names st (err e) t = Holds t

pub Reads-steady :
    (st : ShardState) (s : Held) (call : Call) (r : Reply call)
    → is_steady call ≡ true
    → Reads st s
    → Reads st (hear s call r)
Reads-steady st s call r p h = ground arith

module _ (c : Settings) (st : ShardState) where
  abbrev R : Rules
  R = manager_rules c

  pub steady-Reads :
      {A : Type 0} {m : Act A} {k : Held}
      → Reads st k
      → IsSteady m
      → Keeps R m k (λ r t. Reads st t)
  steady-Reads =
      Only-Keeps is_steady R tt (λ t. Reads st t) (λ s call p h. steady_allowed c s s call p h.0)
        (Reads-steady st)

  search_lem : (k : Held) → Holds k → Keeps R (get_master_host c st) k (λ r t. t ≡ k)
  search_lem k holds =
      plain-Keeps c holds
        (Only-mono asks_slots is_plain (λ call e. ground arith) (get_master_host-AsksSlots c st))

  named :
      (m : String) (r : Done) (k : Held)
      → r ≡ ok tt
      → k.settled ≡ false
      → (hear k (Call.set_master_node m) r).master ≡ some m
  named m (ok u) k good early = ground arith
  named m (err e) k good early = absurd (ground arith)

  store_lem : (m : String) (k : Held) → Reads st k → Keeps R (store_master m) k (Names st)
  unfolding store_master
  store_lem m k h =
      Keeps-if R (str_eq m "") (λ e. Keeps-raise R h.0)
        (λ e.
          after_call R (Call.set_master_node m) (λ e. h.0)
            (λ r _.
              (let h' = Reads-steady st k (Call.set_master_node m) r refl h in
                after_or_fail R _ r (λ e. h'.0)
                  (λ u good. Keeps-ret R (h', named m r k good h.4)))))

  ensure_lem : (k : Held) → Reads st k → Keeps R (ensure_current_master c st) k (Names st)
  unfolding ensure_current_master
  ensure_lem k h =
      Keeps->>= R (search_lem k h.0) (λ m t same. rw same (store_lem m k h))
        (λ e t same. rw same h.0)

  validated_lem :
      (m : String) (r : Result String) (k : Held)
      → Reads st k
      → k.master ≡ some m
      → Keeps R (validated c st m r) k (Names st)
  unfolding validated
  validated_lem m (err e) k h is = Keeps-ret R (h, is)
  validated_lem m (ok host) k h is =
      Keeps-if R _
        (λ e. Keeps-if R (all_stable st) (λ stable. ensure_lem k h) (λ e. Keeps-ret R (h, is)))
        (λ e. Keeps-ret R (h, is))

  current_of_lem :
      (m : String) (k : Held)
      → Reads st k
      → (not (str_eq m "") ≡ true → k.master ≡ some m)
      → Keeps R (current_of c st m) k (Names st)
  unfolding current_of
  current_of_lem m k h is =
      Keeps-if R (not (str_eq m ""))
        (λ e.
          Keeps->>= R {f = validated c st m} {P = λ r t. t ≡ k}
            (Keeps-handle R (search_lem k h.0) (λ r t same. Keeps-ret R same))
            (λ r t same. rw same (validated_lem m r k h (is e))) (λ e t same. rw same h.0))
        (λ e. ensure_lem k h)

  no_name : (m : String) → "" ≡ m → not (str_eq m "") ≡ true → ⊥
  no_name m is = subst (λ x. not (str_eq x "") ≡ true → ⊥) is (λ e. cc)

  said :
      (r : Reply Call.get_master_node) (m : String) (k : Held)
      → k.settled ≡ false
      → recorded r ≡ ok m
      → not (str_eq m "") ≡ true
      → (hear k Call.get_master_node r).master ≡ some m
  said (ok s) m k early e there = ground arith
  said (err not_found) m k early e there = absurd (no_name m (ground arith) there)
  said (err exists) m k early e there = absurd (ground arith)
  said (err malformed) m k early e there = absurd (ground arith)
  said (err (failed x)) m k early e there = absurd (ground arith)

  pub current_master_lem : (k : Held) → Reads st k → Keeps R (get_current_master c st) k (Names st)
  unfolding get_current_master
  current_master_lem k h =
      after_call R Call.get_master_node (λ e. cc)
        (λ r _.
          (let h' = Reads-steady st k Call.get_master_node r refl h in
            after_or_fail R _ (recorded r) (λ e. h'.0)
              (λ m e. current_of_lem m _ h' (said r m k h.4 e))))
