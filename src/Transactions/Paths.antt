-- ===== src/Transactions/Paths.antt =====
-- Paths through the graph of `VALID_TRANSITIONS`.
use asgard_hl_basisstrategy.Base.{◌≡◌, refl, true, false, List, [], ◌∷◌, any, arith}
use asgard_hl_basisstrategy.Transactions.{
  TransactionState, idle, building, built, signing, signed, submitting, submitted, confirmed,
  failed, can_transition, is_in, incomplete_states,
}

-- From one state through the listed ones to the last.
abbrev pub Chain : TransactionState → List TransactionState → TransactionState → Type 0
Chain s [] u = s ≡ u
Chain s (t ∷ ts) u = (can_transition s t ≡ true) × Chain t ts u

-- The states that lie between a state and CONFIRMED.
abbrev pub path_to_confirmed : TransactionState → List TransactionState
path_to_confirmed idle =
    building ∷ built ∷ signing ∷ signed ∷ submitting ∷ submitted ∷ confirmed ∷ []
path_to_confirmed building = built ∷ signing ∷ signed ∷ submitting ∷ submitted ∷ confirmed ∷ []
path_to_confirmed built = signing ∷ signed ∷ submitting ∷ submitted ∷ confirmed ∷ []
path_to_confirmed signing = signed ∷ submitting ∷ submitted ∷ confirmed ∷ []
path_to_confirmed signed = submitting ∷ submitted ∷ confirmed ∷ []
path_to_confirmed submitting = submitted ∷ confirmed ∷ []
path_to_confirmed submitted = confirmed ∷ []
path_to_confirmed confirmed = []
path_to_confirmed failed = []

pub confirmed-final : (t : TransactionState) → can_transition confirmed t ≡ false
unfolding can_transition
confirmed-final t = refl

pub failed-final : (t : TransactionState) → can_transition failed t ≡ false
unfolding can_transition
failed-final t = refl

-- What a chain to CONFIRMED looks like; there is none from FAILED.
abbrev ToConfirmed : TransactionState → List TransactionState → Type 0
ToConfirmed failed ts = ⊥
ToConfirmed s ts = ts ≡ path_to_confirmed s

ToConfirmed-step :
    (s t : TransactionState) (ts : List TransactionState)
    → can_transition s t ≡ true
    → ToConfirmed t ts
    → ToConfirmed s (t ∷ ts)
unfolding can_transition
ToConfirmed-step idle t ts h p = ground arith
ToConfirmed-step building t ts h p = ground arith
ToConfirmed-step built t ts h p = ground arith
ToConfirmed-step signing t ts h p = ground arith
ToConfirmed-step signed t ts h p = ground arith
ToConfirmed-step submitting t ts h p = ground arith
ToConfirmed-step submitted t ts h p = ground arith
ToConfirmed-step confirmed t ts h p = ground arith
ToConfirmed-step failed t ts h p = ground arith

Chain-ToConfirmed :
    (s : TransactionState) (ts : List TransactionState) → Chain s ts confirmed → ToConfirmed s ts
Chain-ToConfirmed confirmed [] c = refl
Chain-ToConfirmed _ [] c = ground arith
Chain-ToConfirmed s (t ∷ ts) c = ToConfirmed-step s t ts c.0 (Chain-ToConfirmed t ts c.1)

pub Chain-confirmed :
    (ts : List TransactionState) → Chain idle ts confirmed → ts ≡ path_to_confirmed idle
Chain-confirmed ts c = Chain-ToConfirmed idle ts c

abbrev pub all_states : List TransactionState
all_states =
    idle ∷ building ∷ built ∷ signing ∷ signed ∷ submitting ∷ submitted ∷ confirmed ∷ failed ∷ []

-- A state is listed as incomplete exactly when some transition leaves it.
pub incomplete-can_transition :
    (s : TransactionState) → is_in s incomplete_states ≡ any (can_transition s) all_states
unfolding can_transition
incomplete-can_transition idle = refl
incomplete-can_transition _ = refl
