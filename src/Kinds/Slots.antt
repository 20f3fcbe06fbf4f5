-- ===== src/Kinds/Slots.antt =====
-- The search for the master among the hosts' states asks for nothing but the slots of hosts.
use rdsync.Master.Current.{the_only, among, get_master_host, with_slots, master_among}
use rdsync.Base.{String, Bool, true, false, List, [], ◌∷◌}
use rdsync.Types.{ShardState, AppMode, mode_sentinel, mode_cluster}
use rdsync.Actions.{Call, Act, Settings}
use rdsync.Actions.Only.{Only->>=, Only, only_rules}

abbrev pub asks_slots : Call → Bool
asks_slots (Call.has_cluster_slots h) = true
asks_slots c = false

abbrev AsksSlots : {A : Type 0} → Act A → Type 0
AsksSlots m = Only asks_slots m

with_slots-AsksSlots : (hs : List String) → AsksSlots (with_slots hs)
unfolding with_slots
with_slots-AsksSlots [] = search (only_rules)
with_slots-AsksSlots (h ∷ hs) = Only->>= asks_slots (search (only_rules)) (λ r.
    Only->>= asks_slots (search (only_rules))
      (λ slots. Only->>= asks_slots (with_slots-AsksSlots hs) (λ rest. search (only_rules))))

the_only-AsksSlots : (hs : List String) → AsksSlots (the_only hs)
unfolding the_only
the_only-AsksSlots [] = search (only_rules)
the_only-AsksSlots (h ∷ []) = search (only_rules)
the_only-AsksSlots (h ∷ h' ∷ hs) = search (only_rules)

among-AsksSlots : (mode : AppMode) (hs : List String) → AsksSlots (among mode hs)
unfolding among
among-AsksSlots mode_sentinel hs = search (only_rules)
among-AsksSlots mode_cluster hs =
    search (only_rules, with_slots-AsksSlots, the_only-AsksSlots) depth 8

master_among-AsksSlots : (mode : AppMode) (hs : List String) → AsksSlots (master_among mode hs)
unfolding master_among
master_among-AsksSlots mode [] = search (only_rules)
master_among-AsksSlots mode (h ∷ []) = search (only_rules)
master_among-AsksSlots mode (h ∷ h' ∷ hs) = search (only_rules, among-AsksSlots)

pub get_master_host-AsksSlots :
    (c : Settings) (state : ShardState) → AsksSlots (get_master_host c state)
unfolding get_master_host
get_master_host-AsksSlots c state = search (only_rules, master_among-AsksSlots)
