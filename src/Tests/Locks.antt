-- ===== src/Tests/Locks.antt =====
-- A lock in a ZooKeeper of one server, which has a node for each lock.
use rdsync.Base.Text.{codes}
use rdsync.Dcs.Path.{build_full_path_clean, is_clean, without_last, squeeze, build_full_path}
use rdsync.Base.{ℕ, List, String, Bool, true, false, Option, none, some, [], HostMap, ◌≡◌, refl}
use rdsync.Base.Hosts
use rdsync.Dcs.Lock.{
  LockOwner, Got, got, no_node, Created, created, node_exists, Requests, ask_lock,
}
use rdsync.Dcs.Lock.Held.{Nodes}
use rdsync.Dcs.Lock.Own.{Moment, opened, after_asked, after_stored, after_told}

-- The data of each node, and whether it is this session's.
abbrev Tree : Type 0
Tree = HostMap (LockOwner × Bool)

abbrev owner_of : Option (LockOwner × Bool) → Option LockOwner
owner_of none = none
owner_of (some (o, b)) = some o

abbrev is_own : Option (LockOwner × Bool) → Bool
is_own none = false
is_own (some (o, b)) = b

abbrev to_got : Option LockOwner → Got
to_got none = no_node
to_got (some o) = got (some o)

abbrev created_in : String → LockOwner → Tree → Option LockOwner → Created × Tree
created_in p o s none = (created, Hosts.put s p (o, true))
created_in p o s (some x) = (node_exists, s)

abbrev zookeeper : Requests Tree
zookeeper = record {
  get = λ p s. (to_got (owner_of (Hosts.get s p)), s);
  create = λ p o s. created_in p o s (owner_of (Hosts.get s p));
  delete = λ p s. (true, Hosts.delete s p);
}

abbrev nodes_of : Nodes Tree
nodes_of = record {
  owner = λ s q. owner_of (Hosts.get s q);
  owns = λ s q. is_own (Hosts.get s q) ≡ true;
}

abbrev self : LockOwner
self = record { hostname = "b"; pid = 7 }

-- A connection that has its session and has had the lock.
abbrev connected : Moment
connected = after_told true opened

abbrev nodes : Tree
nodes = (ask_lock zookeeper self "manager" []).1

abbrev waiting : Moment
waiting = after_asked "manager" (ask_lock zookeeper self "manager" []).0 connected

abbrev locked : Moment
locked = after_stored "manager" 2 waiting

-- /rdsync/shard and /lock/, joined.
shard_lock : build_full_path "/rdsync//shard" "/lock/" ≡ some (codes "/rdsync/shard/lock")
unfolding build_full_path squeeze without_last
shard_lock = refl

build_full_path_clean_example :
    (full : List ℕ) × (build_full_path "/rdsync//shard" "/lock/" ≡ some full)
    × (is_clean 0 full ≡ true)
build_full_path_clean_example = build_full_path_clean "/rdsync//shard" "/lock/"
