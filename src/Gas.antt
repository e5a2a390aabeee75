-- ===== src/Gas.antt =====
-- bot/services/gas_funder.py: class GasFunder. What the chain answers is an argument. An amount in
-- ETH is a number of `Numbers`; signing and logging are left out.
pub mod Sends
use asgard_hl_basisstrategy.Base.{
  ℕ, ◌+◌, String, Bool, true, false, Option, none, some, List, [], ◌∷◌, ◌++◌, length, Numbers,
  Error, Result, ok, raises, if◌then◌else◌,
}

module _ (N : Numbers) where
  open N use {Number, literal, add, lt}

  pub record GasFunder : Type 0 where
    pub top_up : Number
    pub min_balance : Number

  -- With the defaults of the module.
  abbrev pub default_funder : GasFunder
  default_funder = record { top_up = literal 5 3; min_balance = literal 2 3 }

  -- What the chain answers while one user is checked: the user's balance, the funder's, and the
  -- transfer, with its hash.
  pub record ChainAnswers : Type 0 where
    pub balance : Result Number
    pub funder_balance : Result Number
    pub send_eth : Result String

  -- The counts of the loop, and the addresses to which ETH was sent, the last one first.
  pub record Counts : Type 0 where
    pub checked : ℕ
    pub funded : ℕ
    pub errors : ℕ
    pub sent : List String

  -- What becomes of one user.
  pub data Outcome : Type 0 where
    funds sufficient fails stops : Outcome

  unfoldable pub send : ChainAnswers → Outcome
  send c = elim c.send_eth [ raises e ↦ fails | ok hash ↦ funds ]

  unfoldable pub fund : GasFunder → ChainAnswers → Outcome
  unfolding send
  fund g c = elim c.funder_balance [
    | raises e ↦ fails
    | ok funder ↦ if lt funder (add g.top_up (literal 1 3)) then stops else send c
  ]

  unfoldable pub check_user : GasFunder → ChainAnswers → Outcome
  unfolding fund
  check_user g c = elim c.balance [
    | raises e ↦ fails
    | ok balance ↦ if lt balance g.min_balance then fund g c else sufficient
  ]

  abbrev pub count : Outcome → String → Counts → Counts
  count funds address k = record k { funded = k.funded + 1; sent = address ∷ k.sent }
  count sufficient address k = k
  count fails address k = record k { errors = k.errors + 1 }
  count stops address k = k

  -- The loop over the users' ids and addresses; a funder with too little ends it.
  unfoldable pub fund_users :
      GasFunder → (String → ChainAnswers) → List (String × String) → Counts → Counts
  fund_users g chain [] k = k
  fund_users g chain ((user, address) ∷ rows) k =
      let outcome = check_user g (chain user) in
      let k' = count outcome address (record k { checked = k.checked + 1 }) in
      let rest = fund_users g chain rows k' in
      elim outcome [ stops ↦ k' | funds ↦ rest | sufficient ↦ rest | fails ↦ rest ]

  abbrev pub zero_counts : Counts
  zero_counts = record { checked = 0; funded = 0; errors = 0; sent = [] }

  -- A funder with less than one top-up sends nothing: the summary then has an error, which is none
  -- otherwise. An exception of the first query leaves the method.
  unfoldable pub check_and_fund_users :
      GasFunder
      → Result Number
      → (String → ChainAnswers)
      → List (String × String)
      → Result (Counts × Option String)
  unfolding fund_users
  check_and_fund_users g (raises e) chain rows = raises e
  check_and_fund_users g (ok funder) chain rows =
      if lt funder g.top_up
      then ok (record zero_counts { checked = length rows }, some "funder low balance")
      else ok (fund_users g chain rows zero_counts, none)
