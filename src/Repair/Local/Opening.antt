-- ===== src/Repair/Local/Opening.antt =====
-- The repair of the local node as a whole, as far as it opens the node.
use rdsync.Kinds.Local.{tend_online-IsTending, note_state-IsKilling, hold_replica-IsTending}
use rdsync.Kinds.{is_killing, is_tending}
use rdsync.Actions.Steps.{after_call, Keeps-if}
use rdsync.Actions.Only.{only_rules, Only-mono, Only}
use rdsync.Replication.Close.{clear_diverge_time}
use rdsync.Kinds.Tending.{IsTending}
use rdsync.Actions.Hoare.{Keeps-mono, Keeps->>=, Keeps-ret, Keeps, Rules}
use rdsync.Repair.Local.{
  note_state, repair_local_node, get_num_replicas_to_write, if_set, if_online, hold_replica,
  may_open, tend_offline, raise_for, Return, unless_returned, go_online, forget_fail_time,
  prepare_open, raise_quorum,
}
use rdsync.Base.{
  ap, ℕ, ◌==◌, ltb, String, str_eq, Bool, true, false, not, Option, none, some, List, ◌∷◌, length,
  Result, ok, err, ◌≡◌, inl, inr, refl, ◌∙◌, arith,
}
use rdsync.Base.Hosts
use rdsync.Types.{HostState, ShardState}
use rdsync.Actions.{bind, Call, Act, Settings, Done}
use rdsync.Repair.Local.Opens.{
  Opened, nothing_opened, see, IsCurrent, Waits, open_rules, is_plain, is_closed, plain_part,
  closed_part, get_shard_state_lem, Read, read_lem, Decides, if_active_lem, promote_alone_lem,
}

module _ (c : Settings) (master : String) where
  abbrev R : Rules
  R = open_rules c master

  tending_part :
      {A : Type 0} {m : Act A} {k : Opened}
      → IsTending m
      → Keeps R m k (λ r t. t.offline ≡ k.offline)
  tending_part h = closed_part c master (Only-mono is_tending is_closed (λ asked e. ground arith) h)

  held_lem :
      (paused : Bool) (s : HostState) (k : Opened)
      → k.offline ≡ some (c.hostname, true)
      → str_eq master c.hostname ≡ false
      → Keeps R (hold_replica c master paused s) k (Decides c master)
  held_lem paused s k off other =
      Keeps-mono R (decided) (tending_part (hold_replica-IsTending c master paused s))
    where
      decided : (r : Result Return) (t : Opened) → t.offline ≡ k.offline → Decides c master r t
      decided (ok none) t e = (e ∙ off, λ here. cc)
      decided (ok (some b)) t e = tt
      decided (err x) t e = tt

  may_open_lem :
      (paused : Bool) (st : ShardState) (o : Option HostState) (k : Opened)
      → k.offline ≡ some (c.hostname, true)
      → k.states ≡ st
      → Hosts.get st c.hostname ≡ o
      → Keeps R (may_open c master paused st o) k (Decides c master)
  unfolding may_open
  may_open_lem paused st none k off seen is = Keeps-ret R tt
  may_open_lem paused st (some s) k off seen is =
      Keeps-if R (str_eq master c.hostname)
        (λ here.
          Keeps-if R (not (length st == 1))
            (λ more.
              Keeps->>= R (read_lem c master k)
                (λ r t read. if_active_lem c master s st r k t read off seen is)
                (λ e t h. absurd h))
            (λ one. promote_alone_lem c master s st k off (rw seen (ground arith))))
        (λ other. held_lem paused s k off other)

  -- The node may be opened.
  abbrev Prepared : Result Return → Opened → Type 0
  Prepared (ok none) t =
      (t.offline ≡ some (c.hostname, true))
      × (str_eq master c.hostname ≡ true → IsCurrent c master t × Waits c t)
  Prepared (ok (some b)) t = Unit {0}
  Prepared (err e) t = Unit {0}

  later :
      (active : List String) (k : Opened)
      → IsCurrent c master k
      → IsCurrent c master (record k { listed = active ∷ k.listed })
  later active k (inl one) = inl one
  later active k (inr (hs, is, e)) = inr (hs, inr is, e)

  if_set_lem :
      (e : Done) (rewrite : Done) (active : List String) (rest : List (List String)) (k : Opened)
      → k.offline ≡ some (c.hostname, true)
      → IsCurrent c master k
      → k.listed ≡ active ∷ rest
      → Keeps R
          (if_set e)
          (see k
            (Call.set_num_quorum_replicas c.hostname (get_num_replicas_to_write active))
            (e, rewrite))
          Prepared
  unfolding if_set
  if_set_lem (err e) rewrite active rest k off current is = Keeps-ret R tt
  if_set_lem (ok _) rewrite active rest k off current is =
      Keeps-ret R (off, λ _. (current, (active, rest, _, is, refl, omega arith)))

  raise_lem :
      (active : List String) (rest : List (List String)) (r : Result ℕ) (k : Opened)
      → k.offline ≡ some (c.hostname, true)
      → IsCurrent c master k
      → k.listed ≡ active ∷ rest
      → Keeps R
          (raise_quorum c active r)
          (see k (Call.get_num_quorum_replicas c.hostname) r)
          Prepared
  unfolding raise_quorum
  raise_lem active rest (err e) k off current is = Keeps-ret R tt
  raise_lem active rest (ok n) k off current is =
      Keeps-if R (ltb n (get_num_replicas_to_write active))
        (λ less.
          after_call R (Call.set_num_quorum_replicas c.hostname _) tt
            (λ (e, rewrite) _. if_set_lem e rewrite active rest _ off current is))
        (λ enough. Keeps-ret R (off, λ _. (current, (active, rest, n, is, refl, ground arith))))

  raise_for_lem :
      (r : Result (List String)) (k t : Opened)
      → k.offline ≡ some (c.hostname, true)
      → IsCurrent c master k
      → Read c master k r t
      → Keeps R (raise_for c r) t Prepared
  unfolding raise_for
  raise_for_lem (err e) k t off current read = Keeps-ret R tt
  raise_for_lem (ok active) k t off current read = rw read (
      after_call R (Call.get_num_quorum_replicas c.hostname) tt
        (λ r _. raise_lem active k.listed r _ off (later active k current) refl))

  prepare_lem :
      (k : Opened)
      → k.offline ≡ some (c.hostname, true)
      → (str_eq master c.hostname ≡ true → IsCurrent c master k)
      → Keeps R (prepare_open c master) k Prepared
  unfolding prepare_open
  prepare_lem k off current =
      Keeps-if R (str_eq master c.hostname)
        (λ here.
          Keeps->>= R (read_lem c master k)
            (λ r t read. raise_for_lem r k t off (current here) read) (λ e t h. absurd h))
        (λ other. Keeps-ret R (off, λ here. cc))

  abbrev Any : {A : Type 0} → Result A → Opened → Type 0
  Any r t = Unit {0}

  clear_plain : Only is_plain clear_diverge_time
  unfolding clear_diverge_time
  clear_plain = search (only_rules) depth 10

  is_none : (p : Return) (w : Opened) → p ≡ none → Prepared (ok p) w → Prepared (ok none) w
  is_none none w e h = h
  is_none (some b) w e h = cc

  if_online_plain : (r : Done) → Only is_plain (if_online r)
  unfolding if_online
  if_online_plain (ok _) = search (only_rules, clear_plain) depth 8
  if_online_plain (err e) = search (only_rules)

  online_lem : (k : Opened) → Prepared (ok none) k → Keeps R (go_online c) k Any
  unfolding go_online
  online_lem k (off, ready) =
      after_call R (Call.set_online c.hostname) (refl, off, ready) (λ r _. told r)
    where
      told : (r : Done) → Keeps R (if_online r) k Any
      told r = Keeps-mono R (λ q t h. tt) (plain_part c master (if_online_plain r))

  forget_plain : Only is_plain (forget_fail_time c.hostname)
  unfolding forget_fail_time
  forget_plain = search (only_rules) depth 10

  unless_lem :
      (o : Return) (m : Act Bool) (k : Opened)
      → (o ≡ none → Keeps R m k Any)
      → Keeps R (unless_returned o m) k Any
  unfolding unless_returned
  unless_lem none m k h = h refl
  unless_lem (some b) m k h = Keeps-ret R tt

  opened :
      (o : Return) (u : Opened)
      → o ≡ none
      → Decides c master (ok o) u
      → Keeps R
          (bind
            (forget_fail_time c.hostname)
            (λ _. bind (prepare_open c master) (λ p. unless_returned p (go_online c))))
          u
          Any
  opened none u e (off', current) =
      Keeps->>= R (plain_part c master forget_plain)
        (λ _ v same.
          Keeps->>= R (prepare_lem v (rw same off') (rw same current))
            (λ p w prepared. unless_lem p _ w (λ e. online_lem w (is_none p w e prepared)))
            (λ x w h. tt))
        (λ x v h. tt)
  opened (some b) u e h = cc

  offline_lem :
      (paused : Bool) (k : Opened)
      → k.offline ≡ some (c.hostname, true)
      → Keeps R (tend_offline c master paused) k Any
  unfolding tend_offline
  offline_lem paused k off =
      Keeps->>= R (get_shard_state_lem c master k)
        (λ st t same.
          Keeps->>= R (may_open_lem paused st _ t (rw same off) (rw same refl) refl)
            (λ o u decided. unless_lem o _ u (λ e. opened o u e decided)) (λ x u h. tt))
        (λ x t h. tt)

-- The repair of the local node sets that node online alone, only after it has been read as offline.
-- Where the local node is the master, it is set online only when it is the only host or no active
-- host was ahead of it in replication, and when it is known to wait for at least half as many
-- replicas as the DCS has last listed active nodes.
pub repair_local_node-Keeps :
    (c : Settings) (master : String)
    → Keeps (open_rules c master) (repair_local_node c master) nothing_opened (λ r t. Unit {0})
unfolding repair_local_node
repair_local_node-Keeps c master = after_call R (Call.get_state c.hostname) tt (λ n _.
    Keeps->>= R (closed_part c master (noted n.is_offline n.failure))
      (λ _ t same.
        Keeps-if R n.is_offline
          (λ off.
            offline_lem c master n.is_repl_paused t (same ∙ ap (λ b. some (c.hostname, b)) off))
          (λ on.
            Keeps-mono R (λ r u h. tt)
              (tending_part c master (tend_online-IsTending c master n.info))))
      (λ e t h. tt))
  where
    R : Rules
    R = open_rules c master

    noted : (b : Bool) (o : Option String) → Only is_closed (note_state c b o)
    noted b o =
        Only-mono is_killing is_closed (λ asked e. ground arith) (note_state-IsKilling c b o)
