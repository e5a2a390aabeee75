-- ===== src/Intents/Handover.antt =====
-- How the position monitor treats the positions that the scanners make.
use asgard_hl_basisstrategy.Base.{ℕ, String, ◌≡◌, refl, [], Numbers, Error, raises}
use asgard_hl_basisstrategy.Monitor.Types.{iso, ExitDecision, MonitorDatabase, Answers}
use asgard_hl_basisstrategy.Monitor.Exit.{
  exit_failed, archive, close_long_leg, close_short_leg, execute_exit,
}
use asgard_hl_basisstrategy.Intents.Execute.{new_data}

-- The document that a scanner stores with a new position names neither the address of the long nor
-- the size of the short, and has the time of the opening as a text. If asyncpg raises for that text,
-- an exit of the position requests no trade and only records a failure of its user with that error:
-- the position stays as it is, open and untraded.
pub execute_exit-new_data :
    (N : Numbers) (a : Answers N) (user id asset : String) (leverage size : N.Number) (opened : ℕ)
    (x : ExitDecision N) (today now : ℕ) (db : MonitorDatabase N) (e : Error)
    → a.bind_timestamp (iso opened) ≡ raises e
    → execute_exit N a user id (new_data N asset leverage size opened) x today now db
      ≡ (exit_failed N user e today now db, [])
unfolding new_data execute_exit close_short_leg close_long_leg archive
execute_exit-new_data N a user id asset leverage size opened x today now db e refused =
    rw (refused, archive) refl
