-- ===== src/Pause/Users.antt =====
-- bot/core/pause_controller.py: the methods on one user's row of the table `users`, whose primary
-- key is the user's id, and the two tests of the gas price.
use asgard_hl_basisstrategy.Base.{
  ℕ, String, ◌≡◌, Bool, true, false, Option, none, some, List, [], ◌∷◌, is_some, ◌||◌, ◌&&◌, str_eq,
  str-eq_iff, if◌then◌else◌, lookup, update_row, lookup-update_row, Numbers, arith,
}
use asgard_hl_basisstrategy.Pause.{PauseController}

-- The columns of a row of `users` that the controller touches.
pub record UserRow : Type 0 where
  pub paused_at : Option ℕ
  pub paused_reason : Option String

abbrev pub Users : Type 0
Users = List (String × UserRow)

abbrev pub row_paused : Option UserRow → Bool
row_paused none = false
row_paused (some row) = is_some row.paused_at

unfoldable pub check_user_paused : String → Users → PauseController → Bool
check_user_paused user users c = if c.paused then true else row_paused (lookup user users)

-- `now` is what SQL's NOW() answers.
unfoldable pub pause_user : String → String → ℕ → Users → Users × Bool
pause_user user reason now users = (
  update_row user (λ row. record { paused_at = some now; paused_reason = some reason }) users,
  true,
)

unfoldable pub resume_user : String → Users → Users × Bool
resume_user user users =
    (update_row user (λ row. record { paused_at = none; paused_reason = none }) users, true)

unfoldable pub is_high_gas : (N : Numbers) → N.Number → Bool
is_high_gas N gas = N.lt (N.literal 1 2) gas

unfoldable pub should_recover_from_high_gas : (N : Numbers) → N.Number → Bool
should_recover_from_high_gas N gas = N.lt gas (N.literal 5 3)

-- The calls that change a row.
pub data UserCall : Type 0 where
  pauses : String → String → ℕ → UserCall
  resumes : String → UserCall

unfoldable pub user_step : UserCall → Users → Users
user_step (pauses user reason now) users = (pause_user user reason now users).0
user_step (resumes user) users = (resume_user user users).0

unfoldable pub user_run : List UserCall → Users → Users
user_run [] users = users
user_run (call ∷ calls) users = user_run calls (user_step call users)

-- Whether the last call about a user was a pause, from what held before.
abbrev pub paused_after : String → Bool → List UserCall → Bool
paused_after user was [] = was
paused_after user was (pauses other reason now ∷ calls) =
    paused_after user (if str_eq other user then true else was) calls
paused_after user was (resumes other ∷ calls) =
    paused_after user (if str_eq other user then false else was) calls

abbrev pub row_exists : String → Users → Bool
row_exists user users = is_some (lookup user users)

lookup-user_step_pauses :
    (user other reason : String) (now : ℕ) (users : Users)
    → (row_exists user (user_step (pauses other reason now) users) ≡ row_exists user users)
      × (row_paused (lookup user (user_step (pauses other reason now) users))
          ≡ (if str_eq other user then row_exists user users else row_paused (lookup user users)))
unfolding user_step pause_user
lookup-user_step_pauses user other reason now users = ground (
  arith,
  lookup-update_row other user (λ row. record { paused_at = some now; paused_reason = some reason })
      users,
  str-eq_iff other user,
)

lookup-user_step_resumes :
    (user other : String) (users : Users)
    → (row_exists user (user_step (resumes other) users) ≡ row_exists user users)
      × (row_paused (lookup user (user_step (resumes other) users))
          ≡ (if str_eq other user then false else row_paused (lookup user users)))
unfolding user_step resume_user
lookup-user_step_resumes user other users = ground (
  arith,
  lookup-update_row other user (λ row. record { paused_at = none; paused_reason = none }) users,
  str-eq_iff other user,
)

row_paused-exists :
    (user : String) (users : Users)
    → row_paused (lookup user users) ≡ (row_exists user users && row_paused (lookup user users))
row_paused-exists user users = ground arith

row_paused-user_run :
    (user : String) (was : Bool) (calls : List UserCall) (users : Users)
    → row_paused (lookup user users) ≡ (row_exists user users && was)
    → row_paused (lookup user (user_run calls users))
      ≡ (row_exists user users && paused_after user was calls)
unfolding user_run
row_paused-user_run user was [] users h = h
row_paused-user_run user was (pauses other reason now ∷ calls) users h =
    let (exists, paused) = lookup-user_step_pauses user other reason now users in
    ground (
      arith,
      exists,
      paused,
      h,
      row_paused-user_run user (if str_eq other user then true else was) calls
          (user_step (pauses other reason now) users) (ground (arith, exists, paused, h)),
    )
row_paused-user_run user was (resumes other ∷ calls) users h =
    let (exists, paused) = lookup-user_step_resumes user other users in
    ground (
      arith,
      exists,
      paused,
      h,
      row_paused-user_run user (if str_eq other user then false else was) calls
          (user_step (resumes other) users) (ground (arith, exists, paused, h)),
    )

-- After any pauses and resumes of users, a user is paused exactly when the controller is paused or
-- the user has a row and the last of those calls about the user was a pause; with no such call, the
-- row tells what it told before. A call about a user without a row has no effect.
pub check_user_paused_lem :
    (user : String) (calls : List UserCall) (users : Users) (c : PauseController)
    → check_user_paused user (user_run calls users) c ≡ (
        c.paused
        || row_exists user users && paused_after user (row_paused (lookup user users)) calls)
unfolding check_user_paused
check_user_paused_lem user calls users c = ground (
  arith,
  row_paused-user_run user (row_paused (lookup user users)) calls users
      (row_paused-exists user users),
)
