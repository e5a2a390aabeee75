-- ===== src/Positions/Close.antt =====
-- `close_position`, its helpers, and the methods that read or refresh the tracked positions.
use Prim.Native.String.{◌++◌ as str_append}
use asgard_hl_basisstrategy.Base.{
  insert, lookup, message, ℕ, String, Bool, true, false, ◌&&◌, Option, none, some, List, [], ◌∷◌,
  map, filter, not, if◌then◌else◌, Numbers, Result, ok, raises,
}
use asgard_hl_basisstrategy.Positions.Legs.{show}
use asgard_hl_basisstrategy.Positions.Types.{
  Status, opened, closing, closed, stuck, ExitReason, HyperliquidPosition, CombinedPosition,
  PositionInfo, CloseResult, Venues, VenueCall, closes_short, closes_long, PositionManagerResult,
  PositionManager,
}

abbrev pub is_opened : Status → Bool
is_opened opened = true
is_opened _ = false

module _ (N : Numbers) where
  open N use {Number, abs}

  -- `_close_hyperliquid_position`, which swallows exceptions.
  unfoldable pub close_hyperliquid_position : Venues N → CloseResult N
  close_hyperliquid_position v = elim v.close_short [
    | raises e ↦ record { success = false; error = some (message e) }
    | ok r ↦
        if r.success
        then record { success = true; error = none }
        else record { success = false; error = r.error }
  ]

  -- `_close_asgard_position`, which swallows exceptions.
  unfoldable pub close_asgard_position : Venues N → CloseResult N
  close_asgard_position v = elim v.close_long [
    | raises e ↦ record { success = false; error = some (message e) }
    | ok r ↦
        if r.success
        then record { success = true; error = none }
        else record { success = false; error = r.error }
  ]

  abbrev pub refused : String → PositionManagerResult N
  refused error = record { success = false; position = none; error = some error; stage = none }

  -- The two legs of a position that is open, and its last status.
  unfoldable pub close_legs :
      String
      → ExitReason
      → ℕ
      → CombinedPosition N
      → Venues N
      → PositionManager N
      → PositionManager N × List (VenueCall N) × PositionManagerResult N
  close_legs id reason now p v m =
      let started = record p { status = closing; exit_reason = some reason } in
      let short = close_hyperliquid_position v in
      let long = close_asgard_position v in
      let calls =
        closes_short p.hyperliquid.coin (N.round 6 (abs p.hyperliquid.size_sol))
        ∷ closes_long p.asgard.position_pda
        ∷ [] in
      let stuck_position = record started { status = stuck } in
      let done = record started { status = closed; exit_time = some now } in
      if not long.success && not short.success
      then (
        record m { positions = insert id stuck_position m.positions },
        calls,
        record {
          success = false;
          position = none;
          error = some (
              str_append "Failed to close both legs: HL="
                (str_append (show short.error) (str_append ", Asgard=" (show long.error))));
          stage = some "close_both";
        },
      )
      else (
        record m { positions = insert id done m.positions },
        calls,
        record { success = true; position = some done; error = none; stage = none },
      )

  unfoldable pub close_position :
      String
      → ExitReason
      → ℕ
      → Venues N
      → PositionManager N
      → PositionManager N × List (VenueCall N) × PositionManagerResult N
  unfolding close_legs
  close_position id reason now v m = elim (lookup id m.positions) [
    | none ↦ (m, [], refused (str_append "Position " (str_append id " not found")))
    | some p ↦
        if not (is_opened p.status)
        then (m, [], refused (str_append "Position " (str_append id " is not open")))
        else close_legs id reason now p v m
  ]

  unfoldable pub get_position : String → PositionManager N → Option (CombinedPosition N)
  get_position id m = lookup id m.positions

  unfoldable pub get_all_positions : PositionManager N → List (CombinedPosition N)
  get_all_positions m = map (λ e. e.1) m.positions

  unfoldable pub get_open_positions : PositionManager N → List (CombinedPosition N)
  get_open_positions m = filter (λ p. is_opened p.status) (get_all_positions m)

  -- The Hyperliquid leg after its refresh; an exception or no position leaves it as it was.
  unfoldable pub refresh_short :
      Result (Option (PositionInfo N)) → HyperliquidPosition N → HyperliquidPosition N
  refresh_short (raises e) h = h
  refresh_short (ok none) h = h
  refresh_short (ok (some info)) h = record h {
    margin_fraction = info.margin_fraction;
    mark_px = info.entry_px;
  }

  -- The position after both refreshes, given the health factor that Asgard answers; the times of
  -- the last updates are not modelled.
  unfoldable pub refreshed :
      Result Number → Result (Option (PositionInfo N)) → CombinedPosition N → CombinedPosition N
  unfolding refresh_short
  refreshed health info p =
      let asgard = p.asgard in
      record p {
        asgard = elim health [
          | raises e ↦ asgard
          | ok hf ↦ record asgard { current_health_factor = hf }
        ];
        hyperliquid = refresh_short info p.hyperliquid;
      }

  unfoldable pub refresh_position :
      String
      → Result Number
      → Result (Option (PositionInfo N))
      → PositionManager N
      → PositionManager N × Option (CombinedPosition N)
  unfolding refreshed
  refresh_position id health info m = elim (lookup id m.positions) [
    | none ↦ (m, none)
    | some p ↦ (
      record m { positions = insert id (refreshed health info p) m.positions },
      some (refreshed health info p),
    )
  ]
