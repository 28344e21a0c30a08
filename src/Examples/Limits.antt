-- ===== src/Examples/Limits.antt =====
-- Two businesses, and a limit of two transfers in an hour and three in a day.
use payflow_backend.Common.{◌≡◌, refl, none, some, List, [], ◌∷◌, arith}
use payflow_backend.Limits.Velocity.{
  TransferVelocityConfig, an_hour, a_day, limit_velocity, decide, cleanup, clean_all,
}
use payflow_backend.Limits.Velocity.Windows.{IsLimited}
use payflow_backend.Limits.Velocity.History.{Event, log_run, log_step, log_run-IsLimited}

abbrev small_limits : TransferVelocityConfig
small_limits = record { max_per_hour = 2; max_per_day = 3 }

abbrev traffic : List Event
traffic =
    Event.requested (some 7) 1
    ∷ Event.requested (some 8) 2
    ∷ Event.requested (some 7) 3
    ∷ Event.ticked 4
    ∷ Event.requested (some 7) 5
    ∷ Event.requested (some 7) 3_600_000_000_002
    ∷ []

-- The third transfer within an hour is refused, and one after that hour is not.
refused_third :
    (log_run small_limits 7 traffic ((λ b. none), [])).1 ≡ (3_600_000_000_002 ∷ 3 ∷ 1 ∷ [])
unfolding log_run log_step limit_velocity decide cleanup clean_all
refused_third = refl

log_run-IsLimited_example :
    IsLimited 2 an_hour (log_run small_limits 7 traffic ((λ b. none), [])).1
    × IsLimited 3 a_day (log_run small_limits 7 traffic ((λ b. none), [])).1
log_run-IsLimited_example =
    log_run-IsLimited small_limits 7 traffic
      (omega arith, (omega arith, (omega arith, (omega arith, (omega arith, (omega arith, tt))))))
