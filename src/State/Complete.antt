-- ===== src/State/Complete.antt =====
-- A host's state without an error, as a whole.
use mathlib.Core.Option.{some_inj}
use mathlib.Core.Path.{subst}
use rdsync.State.{
  with_error, has_failed, is_empty, number, field, read_role, state_of, read_replication,
  get_host_state, read_all, go_on, Done, stop, read_ip, check_lookup, read_config, Answers,
}
use rdsync.Base.{
  ◌&&◌, if◌then◌else◌, String, str_eq, false, Option, none, some, Result, ok, err, HostMap, ◌≡◌,
  refl, sym,
}
use rdsync.Base.Int.{ℤ}
use rdsync.Base.Hosts
use rdsync.Base.Text.Numbers.{parse_int}
use rdsync.Types.{HostState, ReplicaState}
use rdsync.State.Fields.{IsClean, Ends, WhenClean, after_field, after_number, after_role, regroup}

-- The field of INFO is there, and is this number.
abbrev pub HasNumber : HostMap String → String → ℤ → Type 0
HasNumber info name n =
    (v : String) × (Hosts.get info name ≡ some v) × ((parse_int v).0 ≡ n) × ((parse_int v).1 ≡ none)

-- What INFO says of the server's replication.
pub record HasFields (info : HostMap String) (run_id id id2 : String) (offset second start size : ℤ)
    : Type 0 where
  pub run_id_read : Hosts.get info "run_id" ≡ some run_id
  pub id_read : Hosts.get info "master_replid" ≡ some id
  pub id2_read : Hosts.get info "master_replid2" ≡ some id2
  pub offset_read : HasNumber info "master_repl_offset" offset
  pub second_read : HasNumber info "second_repl_offset" second
  pub start_read : HasNumber info "repl_backlog_first_byte_offset" start
  pub size_read : HasNumber info "repl_backlog_histlen" size

abbrev pub FieldsOf : HostMap String → HostState → Type 0
FieldsOf info t =
    HasFields info t.run_id t.replication_id t.replication_id2 t.master_replication_offset
      t.second_replication_offset t.replication_backlog_start t.replication_backlog_size

-- The state says what INFO and the configuration say.
pub record IsRead (a : Answers) (t : HostState) : Type 0 where
  pub fields_read : FieldsOf a.state.info t
  pub role_read :
      (role : String) × (Hosts.get a.state.info "role" ≡ some role)
      × (t.is_master ≡ str_eq role "master")
  pub replica_read : t.is_master ≡ false → (rs : ReplicaState) × (t.replica_state ≡ some rs)
  pub ping_read : (t.ping_ok ≡ a.ping_ok) × (t.ping_stable ≡ a.ping_stable)
  pub config_read :
      (t.is_read_only ≡ a.state.is_read_only)
      × (t.is_offline ≡ a.state.is_offline)
      × (t.is_repl_paused ≡ a.state.is_repl_paused)
      × (t.min_replicas_to_write ≡ a.state.min_replicas_to_write)

module _ (a : Answers) where
  abbrev W : HostState → Type 0
  W = IsRead a

  relabel : {u : HostState} (x y : String) → W u → W (record u { ip = x; error = y })
  relabel x y w = record {
    fields_read = w.fields_read;
    role_read = w.role_read;
    replica_read = w.replica_read;
    ping_read = w.ping_read;
    config_read = w.config_read;
  }

  -- What the configuration says is set last, with the address.
  config_lem :
      (t : HostState) (done : Done) (ip : Result String)
      → W (record t {
        min_replicas_to_write = a.state.min_replicas_to_write;
        is_read_only = a.state.is_read_only;
        is_offline = a.state.is_offline;
        is_repl_paused = a.state.is_repl_paused;
      })
      → Ends (WhenClean W) (read_config a.state done ip t)
  unfolding read_config check_lookup read_ip stop
  config_lem t (ok _) (ok x) h = λ clean. relabel x _ h
  config_lem t (ok _) (err e) h = λ clean. relabel _ _ h
  config_lem t (err e) ip h = λ clean. relabel _ _ h

  role_lem :
      (t : HostState)
      → FieldsOf a.state.info t
      → (t.ping_ok ≡ a.ping_ok) × (t.ping_stable ≡ a.ping_stable)
      → Ends
          (WhenClean W)
          (go_on (λ _. read_config a.state a.refreshed a.address) (read_role a.state.info t))
  role_lem t fields ping =
      after_role W a.state.info _ t
        (λ xs is. config_lem _ a.refreshed a.address (record {
          fields_read = fields;
          role_read = ("master", is, refl);
          replica_read = λ e. cc;
          ping_read = ping;
          config_read = (refl, refl, refl, refl);
        }))
        (λ role rs is other. config_lem _ a.refreshed a.address (record {
          fields_read = fields;
          role_read = (role, is, sym other);
          replica_read = λ e. (rs, refl);
          ping_read = ping;
          config_read = (refl, refl, refl, refl);
        }))

  all_lem : (s : HostState) → Ends (WhenClean W) (read_all a s)
  unfolding read_all read_replication
  all_lem s = regroup W _ _ (field i "run_id" _ _) (
      after_field W i "run_id" _ _ _ refl (λ x e1. regroup W _ _ (field i "master_replid" _ _) (
        after_field W i "master_replid" _ _ _ refl (λ y e2.
          regroup W _ _ (field i "master_replid2" _ _) (
            after_field W i "master_replid2" _ _ _ refl (λ z e3.
              regroup W _ _ (number _ i "master_repl_offset" _ _) (
                after_number W _ i "master_repl_offset" _ _ _ refl (λ v1 n1 f1.
                  regroup W _ _ (number _ i "second_repl_offset" _ _) (
                    after_number W _ i "second_repl_offset" _ _ _ refl (λ v2 n2 f2.
                      regroup W _ _ (number _ i "repl_backlog_first_byte_offset" _ _) (
                        after_number W _ i "repl_backlog_first_byte_offset" _ _ _ refl (λ v3 n3 f3.
                          after_number W _ i "repl_backlog_histlen" _ _ _ refl (λ v4 n4 f4.
                            role_lem _
                              (record {
                                run_id_read = e1;
                                id_read = e2;
                                id2_read = e3;
                                offset_read = (v1, n1, refl, f1);
                                second_read = (v2, n2, refl, f2);
                                start_read = (v3, n3, refl, f3);
                                size_read = (v4, n4, refl, f4);
                              })
                              (refl, refl))))))))))))))
    where
      i : HostMap String
      i = a.state.info

-- What `getHostState` returns without an error, where `GetState` gave none, is complete: it has the
-- run id, the replication ids, the offsets and the backlog that INFO gives, each of them there and
-- well-formed; it is a master's state exactly when INFO says so, and otherwise has a replica's
-- state; and the ping and the flags are what the node and its configuration say.
pub get_host_state-IsRead :
    (first : HostState) (a : Answers) (t : HostState)
    → a.state.failure ≡ none
    → get_host_state first a ≡ some t
    → IsClean t
    → IsRead a t
unfolding get_host_state
get_host_state-IsRead first a t good is clean = answered a.state.failure good is
  where
    ended :
        (o : Option (HostState × Option (Unit {0})))
        → Ends (WhenClean (IsRead a)) o
        → state_of o ≡ some t
        → IsRead a t
    ended none h e = cc
    ended (some (s, r)) h e = subst (IsRead a) (some_inj.0 e) (h (rw (some_inj.0 e) clean))

    answered :
        (failure : Option String)
        → failure ≡ none
        → (if has_failed failure && is_empty a.state.info
            then some (with_error failure first)
            else state_of (read_all a (with_error failure first)))
          ≡ some t
        → IsRead a t
    answered none e is' = ended (read_all a first) (all_lem a first) is'
    answered (some m) e is' = cc
