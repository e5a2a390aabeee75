-- ===== src/Outage/Windows.antt =====
-- The window of failures as time passes.
use asgard_hl_basisstrategy.Base.{ℕ, ◌≤◌, ◌≡◌, refl, length, List, [], ◌∷◌, ◌++◌, arith}
use asgard_hl_basisstrategy.Outage.{in_window}

-- Narrowing a window and adding a failure is adding it to the wider list and narrowing that.
pub in_window-append :
    (before now t : ℕ) (stamps : List ℕ)
    → before ≤ now
    → in_window now (in_window before stamps ++ t ∷ []) ≡ in_window now (stamps ++ t ∷ [])
unfolding in_window
in_window-append before now t [] later = refl
in_window-append before now t (s ∷ stamps) later =
    ground (arith, in_window-append before now t stamps later)

-- A failure is in the window that ends with it.
pub length-in_window-pos :
    (now : ℕ) (stamps : List ℕ) → 1 ≤ length (in_window now (stamps ++ now ∷ []))
unfolding in_window
length-in_window-pos now [] = ground arith
length-in_window-pos now (s ∷ stamps) = ground (arith, length-in_window-pos now stamps)
