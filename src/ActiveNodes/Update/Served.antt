-- ===== src/ActiveNodes/Update/Served.antt =====
-- The transition of `updateActiveNodes` on a master and a DCS that do what they document.
use rdsync.Base.{ℕ, String, str_eq, List, [], ◌∷◌, ◌++◌, Result, ok, ◌≡◌, ◌⊎◌, if◌then◌else◌}
use rdsync.Base.Text.{sort_strings}
use rdsync.Actions.{Call, Reply, Settings, Done}
use rdsync.ActiveNodes.Transition.Run.{View}
use rdsync.ActiveNodes.Update.{with_port, with_ports, join_words}

-- A change that was made, or that was not and is no success.
abbrev IsChange : {R S : Type 0} → (S → View) → (View → View) → (R → Done) → S → R × S → Type 0
IsChange view f result s (r, t) =
    (view t ≡ f (view s)) ⊎ ((view t ≡ view s) × ((u : Unit {0}) → result r ≡ ok u → ⊥))

-- What the master and the DCS document: the addresses of a host are known, the text of the quorum
-- replicas is returned as it is, and a setting that is made with success has been made.
pub record Serves {S : Type 0} (answer : (c : Call) → S → Reply c × S) (master : String)
    (ips : String → List String) (view : S → View) : Type 0 where
  pub asks_ips : (h : String) (s : S) → answer (Call.get_ips h) s ≡ (ips h, s)
  pub asks_quorum :
      (s : S)
      → (view (answer (Call.get_quorum_replicas master) s).1 ≡ view s)
        × ((q : String)
            → (answer (Call.get_quorum_replicas master) s).0 ≡ ok q
            → q ≡ (view s).quorum)
  pub sets_quorum :
      (x : String) (s : S)
      → IsChange view
          (λ v. record v { quorum = x })
          (λ r. r.0)
          s
          (answer (Call.set_quorum_replicas master x) s)
  pub sets_num :
      (n : ℕ) (s : S)
      → IsChange view
          (λ v. record v { num = n })
          (λ r. r.0)
          s
          (answer (Call.set_num_quorum_replicas master n) s)
  pub sets_active :
      (xs : List String) (s : S)
      → IsChange view
          (λ v. record v { active = xs })
          (λ r. r)
          s
          (answer (Call.set_active_nodes xs) s)

-- host:port of the nodes but the master, and of their addresses, as the master is told.
abbrev ports_of : Settings → String → (String → List String) → List String → List String
ports_of c master ips [] = []
ports_of c master ips (h ∷ hs) =
    let rest = ports_of c master ips hs in
    if str_eq h master then rest else with_port c h ∷ with_ports c (ips h) ++ rest

abbrev pub text_of : Settings → String → (String → List String) → List String → String
text_of c master ips xs = join_words (sort_strings (ports_of c master ips xs))

module _ {S : Type 0} (answer : (c : Call) → S → Reply c × S) (c : Settings) (master : String)
    (ips : String → List String) (view : S → View) (serves : Serves answer master ips view) where
  abbrev Changed : (View → View) → S → Result (Unit {0}) × S → Type 0
  Changed f s r = IsChange view f (λ x. x) s r
