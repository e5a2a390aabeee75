-- ===== src/Risk/Proximity.antt =====
-- How long a leg has been near its threshold: the tracking over any sequence of checks of any legs.
use asgard_hl_basisstrategy.Base.{
  lookup, lookup-insert, lookup-remove, ℕ, ◌-◌, String, ◌≡◌, refl, Bool, true, false, ◌&&◌, ◌||◌,
  Option, none, some, List, [], ◌∷◌, not, all, leb, or_else, str_eq, str-eq_iff, if◌then◌else◌,
  Numbers, le, arith,
}
use asgard_hl_basisstrategy.Risk.{
  RiskEngine, RiskLevel, update_proximity_tracking, proximity_threshold, proximity_duration,
  checked,
}

-- One check of the leg with a key.
pub record Sighting : Type 0 where
  pub key : String
  pub now : ℕ
  pub near : Bool

module _ (N : Numbers) where
  abbrev pub track : Sighting → RiskEngine N → RiskEngine N
  track c e = (update_proximity_tracking N c.key c.near c.now e).0

  unfoldable pub track_all : List Sighting → RiskEngine N → RiskEngine N
  track_all [] e = e
  track_all (c ∷ cs) e = track_all cs (track c e)

  abbrev pub start_of : String → RiskEngine N → Option ℕ
  start_of k e = lookup k e.proximity_start_times

  -- What one check leaves of any key.
  abbrev pub start_after : String → Sighting → Option ℕ → Option ℕ
  start_after k c start =
      if not (str_eq c.key k) then start else if c.near then some (or_else start c.now) else none

  start_of-track :
      (k : String) (c : Sighting) (e : RiskEngine N)
      → start_of k (track c e) ≡ start_after k c (start_of k e)
  unfolding update_proximity_tracking
  start_of-track k c e = ground (
    arith,
    str-eq_iff c.key k,
    lookup-insert c.key k c.now e.proximity_start_times,
    lookup-remove c.key k e.proximity_start_times,
  )

  -- Whether each check of a leg found it near.
  abbrev pub near_throughout : String → List Sighting → Bool
  near_throughout k cs = all (λ c. not (str_eq c.key k) || c.near) cs

  -- Whether a time is at least 20 seconds past.
  abbrev pub is_past : ℕ → ℕ → Bool
  is_past now t = leb proximity_duration (now - t)

  -- Whether a leg was found near at least 20 seconds ago, and at each of its checks since.
  abbrev pub is_lasting : String → ℕ → List Sighting → Bool
  is_lasting k now [] = false
  is_lasting k now (c ∷ cs) =
      str_eq c.key k && c.near && near_throughout k cs && is_past now c.now || is_lasting k now cs

  abbrev no_later : ℕ → List Sighting → Bool
  no_later t cs = all (λ c. leb t c.now) cs

  -- Checks in the order of time.
  abbrev pub is_ordered : List Sighting → Bool
  is_ordered [] = true
  is_ordered (c ∷ cs) = no_later c.now cs && is_ordered cs

  abbrev started_past : ℕ → Option ℕ → Bool
  started_past now none = false
  started_past now (some t) = is_past now t

  abbrev starts_before : Option ℕ → List Sighting → Bool
  starts_before none cs = true
  starts_before (some t) cs = no_later t cs

  start_of-track_all :
      (k : String) (now : ℕ) (cs : List Sighting) (e : RiskEngine N) (start : Option ℕ)
      → start_of k e ≡ start
      → starts_before start cs ≡ true
      → is_ordered cs ≡ true
      → started_past now (start_of k (track_all cs e))
        ≡ (started_past now start && near_throughout k cs || is_lasting k now cs)
  unfolding track_all
  start_of-track_all k now [] e start h before ordered = ground (arith, h)
  start_of-track_all k now (c ∷ cs) e start h before ordered =
      let step = start_of-track k c e in
      ground (
        arith,
        h,
        before,
        ordered,
        step,
        start_of-track_all k now cs (track c e) (start_after k c start) (ground (arith, step, h)),
      )

  -- After any checks of any legs in the order of time, from an engine that does not track the leg, a
  -- check reports proximity exactly when it finds the leg near and there was a check at least 20
  -- seconds before it that found the leg near, as did each of the leg's checks since.
  pub checked_proximity :
      (level : RiskLevel) (x threshold distance : N.Number) (k : String) (now : ℕ)
      (cs : List Sighting) (e : RiskEngine N)
      → start_of k e ≡ none
      → is_ordered cs ≡ true
      → (checked N level x threshold distance k now (track_all cs e)).1.in_proximity
        ≡ (le N x (proximity_threshold N threshold) && is_lasting k now cs)
  unfolding checked update_proximity_tracking
  checked_proximity level x threshold distance k now cs e fresh ordered =
      ground (arith, start_of-track_all k now cs e none fresh refl ordered)
