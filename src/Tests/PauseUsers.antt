-- ===== src/Tests/PauseUsers.antt =====
-- Pauses of single users on concrete rows.
use asgard_hl_basisstrategy.Base.{
  ◌≡◌, refl, true, false, none, some, List, [], ◌∷◌, lookup, insert, update_row,
}
use asgard_hl_basisstrategy.Pause.{PauseController, init}
use asgard_hl_basisstrategy.Pause.Users.{
  Users, UserCall, pauses, resumes, user_run, user_step, check_user_paused, pause_user, resume_user,
  is_high_gas, should_recover_from_high_gas,
}
use asgard_hl_basisstrategy.Tests.Decimals.{pos, decimals}

abbrev controller : PauseController
controller = init "secret" 60

abbrev users : Users
users =
    ("u", record { paused_at = none; paused_reason = none })
    ∷ ("v", record { paused_at = some 3; paused_reason = some "kyc" })
    ∷ []

abbrev calls : List UserCall
calls = pauses "u" "limit" 5 ∷ resumes "v" ∷ pauses "w" "unknown" 6 ∷ []

user_test :
    (check_user_paused "u" (user_run calls users) controller ≡ true)
    × (check_user_paused "v" (user_run calls users) controller ≡ false)
    × (check_user_paused "w" (user_run calls users) controller ≡ false)
unfolding user_run user_step pause_user resume_user update_row insert lookup check_user_paused init
user_test = (refl, refl, refl)

-- The thresholds are 0.01 and 0.005 SOL, and the gas price between them is neither.
gas_test :
    (is_high_gas decimals (pos 10001) ≡ true)
    × (is_high_gas decimals (pos 10000) ≡ false)
    × (should_recover_from_high_gas decimals (pos 5000) ≡ false)
    × (should_recover_from_high_gas decimals (pos 4999) ≡ true)
unfolding is_high_gas should_recover_from_high_gas
gas_test = (refl, refl, refl, refl)
