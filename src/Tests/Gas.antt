-- ===== src/Tests/Gas.antt =====
-- The gas funder on concrete users.
use asgard_hl_basisstrategy.Base.{
  ◌≤◌, ◌≡◌, refl, String, true, ◌||◌, not, none, List, [], ◌∷◌, any, leb, str_eq, ok, raises,
  value_error, if◌then◌else◌,
}
use asgard_hl_basisstrategy.Gas.{
  ChainAnswers, Counts, default_funder, send, fund, check_user, fund_users, check_and_fund_users,
}
use asgard_hl_basisstrategy.Gas.Sends.{IsFair, deserves, check_and_fund_users_lem}
use asgard_hl_basisstrategy.Tests.Decimals.{pos, whole, decimals}

-- The user "low" needs a top-up, "rich" needs none, and the balance of any other cannot be read.
abbrev chain : String → ChainAnswers decimals
chain user = record {
  balance =
      if str_eq user "low"
      then ok (pos 100)
      else if str_eq user "rich"
      then ok (whole 1)
      else raises (value_error "no answer");
  funder_balance = ok (whole 1);
  send_eth = ok "0xhash";
}

abbrev rows : List (String × String)
rows = ("rich", "0x1") ∷ ("low", "0x2") ∷ ("lost", "0x3") ∷ []

abbrev counts : Counts decimals
counts = record { checked = 3; funded = 1; errors = 1; sent = "0x2" ∷ [] }

run_test :
    check_and_fund_users decimals (default_funder decimals) (ok (whole 1)) chain rows
    ≡ ok (counts, none)
unfolding check_and_fund_users fund_users check_user fund send
run_test = refl

check_and_fund_users_lem_example :
    IsFair decimals (λ a. any (deserves decimals (default_funder decimals) chain a) rows) counts
    × (3 ≤ 3)
    × ((not (decimals.lt (whole 1) (pos 5000)) || leb 1 0) ≡ true)
check_and_fund_users_lem_example =
    check_and_fund_users_lem decimals (default_funder decimals) (whole 1) chain rows counts none
      run_test
