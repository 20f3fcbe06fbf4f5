-- ===== src/Master/Ends.antt =====
-- The wait for a replica to catch up ends, as the clock goes on.
use rdsync.Base.{ℕ, suc, zero, ◌+◌, ◌*◌, ◌/◌, ◌≤◌, ◌<◌, String, Bool, true, false, not, ◌≡◌, arith}
use rdsync.Base.Int.{pos_part}
use rdsync.Types.{Time, Duration}
use rdsync.Replication.{second}
use rdsync.Actions.{Act, Call, Reply, Settings, is_before, a_second}
use rdsync.Actions.Hoare.{Rules, Keeps, Keeps-ret}
use rdsync.Actions.Steps.{Keeps-if, after_call, after_raise_if}
use rdsync.Master.{catchup_turns, wait_for_catchup}

-- The time that the clock has reached at least.
abbrev reached : Time → (c : Call) → Reply c → Time
reached k Call.now t = t
reached k (Call.sleep d) r = k + pos_part d
reached k c r = k

-- The clock does not go back, and goes on during a sleep for as long as that.
abbrev Shows : Time → (c : Call) → Reply c → Type 0
Shows k Call.now t = k ≤ t
Shows k c r = Unit {0}

abbrev pub clock_rules : Rules
clock_rules = record {
  Facts = Time;
  track = reached;
  Possible = Shows;
  Allowed = λ k c. Unit {0};
  Endless = ⊥;
}

before_deadline :
    (t start : Time) (d : Duration) → is_before t start d ≡ true → t < start + pos_part d
before_deadline t start d h = ground arith

is_true : (b : Bool) → not b ≡ false → b ≡ true
is_true b h = ground arith

enough_turns : (start n : ℕ) → start + n ≤ start + suc (n / second) * second
enough_turns start n = omega arith

module _ (c : Settings) (host master : String) where
  abbrev Ends : Act (Unit {0}) → Time → Type 0
  Ends m k = Keeps clock_rules m k (λ r t. Unit {0})

  -- One turn of the loop, which goes on only before the deadline.
  one_turn :
      (n : ℕ) (start k : Time)
      → ((t : Time)
          → k ≤ t
          → t < start + pos_part c.wait_catchup_timeout
          → Ends (catchup_turns c host master n start) (t + second))
      → Ends (catchup_turns c host master (suc n) start) k
  unfolding catchup_turns
  one_turn n start k rest = after_call R Call.now tt (λ t later.
      after_raise_if R _ _ (λ e. tt)
        (λ early. after_call R (Call.host_state master) tt (λ ms _.
          after_raise_if R _ _ (λ e. tt)
            (λ _. after_call R (Call.host_state host) tt (λ s _.
              after_raise_if R _ _ (λ e. tt)
                (λ _.
                  Keeps-if R _ (λ e. Keeps-ret R tt)
                    (λ e.
                      after_call R (Call.sleep a_second) tt
                        (λ _ _. rest t later (before_deadline t start _ (is_true _ early))))))))))
    where
      R : Rules
      R = clock_rules

  catchup_turns_lem :
      (n : ℕ) (start k : Time)
      → start + pos_part c.wait_catchup_timeout ≤ k + n * second
      → Ends (catchup_turns c host master (suc n) start) k
  catchup_turns_lem zero start k enough =
      one_turn zero start k (λ t later early. absurd (omega arith))
  catchup_turns_lem (suc n) start k enough =
      one_turn (suc n) start k
        (λ t later early. catchup_turns_lem n start (t + second) (omega arith))

-- While the clock does not go back, and goes on during each sleep for as long as that, the wait for
-- a replica to catch up ends: its loop has turns enough for the timeout.
pub wait_for_catchup-Keeps :
    (c : Settings) (host master : String) (k : Time)
    → Keeps clock_rules (wait_for_catchup c host master) k (λ r t. Unit {0})
unfolding wait_for_catchup
wait_for_catchup-Keeps c host master k =
    after_raise_if clock_rules _ _ (λ e. tt)
      (λ _. after_call clock_rules Call.now tt (λ start later.
        catchup_turns_lem c host master _ start start
          (enough_turns start (pos_part c.wait_catchup_timeout))))
