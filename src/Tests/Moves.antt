-- ===== src/Tests/Moves.antt =====
-- The transition of the active nodes on a master and a DCS that never fail.
use rdsync.Base.{String, List, [], ◌∷◌, ok}
use rdsync.Actions.{Call, Reply}
use rdsync.ActiveNodes.Transition.Run.{View}
use rdsync.ActiveNodes.Update.Served.{text_of}
use rdsync.Tests.Servers.{options, answer}

abbrev serve : (c : Call) → View → Reply c × View
serve (Call.get_ips h) v = ([], v)
serve (Call.get_quorum_replicas h) v = (ok v.quorum, v)
serve (Call.set_quorum_replicas h x) v = ((ok tt, ok tt), record v { quorum = x })
serve (Call.set_num_quorum_replicas h n) v = ((ok tt, ok tt), record v { num = n })
serve (Call.set_active_nodes xs) v = (ok tt, record v { active = xs })
serve c v = ((answer c []).0, v)

abbrev no_ips : String → List String
no_ips h = []

abbrev one : List String
one = "a" ∷ []

abbrev text : List String → String
text = text_of options "a" no_ips
