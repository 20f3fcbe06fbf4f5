-- ===== src/Switchover/Promotes.antt =====
-- The fifth phase of a switchover promotes a host only when all is ready for it.
use rdsync.Base.{All, contains, true, ◌≡◌, ◌∙◌, String, List, arith}
use rdsync.Types.{ShardState, Switchover, SwitchoverProgress}
use rdsync.Actions.{Call, Act, Settings}
use rdsync.Actions.Hoare.{Rules, Keeps, Keeps->>=}
use rdsync.Actions.Steps.{after_call, after_or_fail, after_found}
use rdsync.Switchover.Promotion.{promotion}
use rdsync.Switchover.Known.{Known, promotion_rules, ◌⊑◌}
use rdsync.Switchover.Mild.{
  IsMild, IsMild-Keeps, store_progress-IsMild, wait_unless_auto-IsMild, turn_before-IsMild,
}
use rdsync.Switchover.Stopped.{IsStopped, All-mono}
use rdsync.Switchover.Ready.{IsReady-mono, promote_turns_lem}
use rdsync.Switchover.Prepared.{
  settle_lem, prepare_lem, set_known, set_stopped, pill_seen, pill_same,
}

as_then :
    (hs xs ys : List String)
    → xs ≡ ys
    → All (λ h. contains ys h ≡ true) hs
    → All (λ h. contains xs h ≡ true) hs
as_then hs xs ys e h = rw e h

module _ (c : Settings) (active : List String) (old : String) where
  abbrev R : Rules
  R = promotion_rules c active old

  -- The fifth phase keeps to the rules, from facts where the alive nodes are read-only.
  pub promotion_lem :
      (state : ShardState) (alive : List String) (sw : Switchover) (p : SwitchoverProgress)
      (k : Known)
      → IsStopped c active old alive k
      → Keeps R (promotion c state alive sw p old) k (λ r t. Unit {0})
  unfolding promotion
  promotion_lem state alive sw p k (enough, among, stopped) =
      Keeps->>= R (mild (store_progress-IsMild sw _))
        (λ _ k₁ h₁.
          after_call R (Call.set_master_node p.new_master) (λ h e. ground arith)
            (λ r _.
              after_or_fail R _ r (λ e. tt)
                (λ u set.
                  after_call R Call.get_poison_pill (λ h e. ground arith)
                    (λ r' _.
                      after_found R r' (λ e. tt)
                        (λ o link _.
                          Keeps->>= R
                            (settle_lem c active old o _
                              (λ q e. pill_seen c active old q _ r' (link q e)))
                            (λ _ k₂ ((m₂, g₂), f₂).
                              Keeps->>= R (mild (wait_unless_auto-IsMild c sw))
                                (λ _ k₃ h₃.
                                  Keeps->>= R (prepare_lem c active old alive p.new_master k₃)
                                    (λ _ k₄ ((m₄, g₄), f₄, n₄).
                                      Keeps->>= R
                                        (mild (turn_before-IsMild c state alive p.new_master))
                                        (λ _ k₅ h₅.
                                          after_call R Call.now (λ h e. ground arith)
                                            (λ start _.
                                              after_call R Call.now (λ h e. ground arith)
                                                (λ force _.
                                                  promote_turns_lem c active old p.new_master _
                                                    start force state k₅
                                                    (IsReady-mono c active old _ k₄ k₅ h₅ record {
                                                      alive = alive;
                                                      enough = enough;
                                                      among = among;
                                                      read_only_then =
                                                          as_then alive _ _
                                                            (g₄
                                                            ∙ h₃.same_stopped
                                                            ∙ g₂
                                                            ∙ (pill_same c active old _ r').1
                                                            ∙ set_stopped c active old p.new_master
                                                            k₁ r u set)
                                                            (All-mono c active old alive k k₁
                                                            h₁.more_read_only stopped);
                                                      is_set =
                                                          m₄
                                                          ∙ h₃.same_master
                                                          ∙ m₂
                                                          ∙ (pill_same c active old _ r').0
                                                          ∙ set_known c active old p.new_master k₁ r
                                                            u set;
                                                      is_fenced = f₄ ∙ h₃.still_fenced f₂;
                                                      waits = n₄;
                                                    }))))
                                        (λ e t h. tt))
                                    (λ e t h. tt))
                                (λ e t h. tt))
                            (λ e t h. tt))))))
        (λ e t h. tt)
    where
      mild : {A : Type 0} {m : Act A} {s : Known} → IsMild m → Keeps R m s (λ r t. s ⊑ t)
      mild {m = m} {s = s} h = IsMild-Keeps c active old m s h
