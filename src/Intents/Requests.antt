-- ===== src/Intents/Requests.antt =====
-- backend/dashboard/api/intents.py: `create_intent` and `cancel_intent`. The request's fields have
-- passed the schema; the lifetime is the time that `timedelta(hours=...)` makes of it.
use asgard_hl_basisstrategy.Base.{
  ℕ, ◌+◌, String, Bool, ◌&&◌, not, Option, none, some, any, str_eq, Numbers, lookup, insert,
  if◌then◌else◌,
}
use asgard_hl_basisstrategy.Intents.Types.{
  pending, cancelled, is_scannable, stamp, IntentRow, IntentDatabase,
}
use asgard_hl_basisstrategy.Intents.Execute.{update_intent}

-- The answer of a route, or the status code of its HTTPException.
pub data Answer : Type 0 where
  success : String → Answer
  http_error : ℕ → Answer

module _ (N : Numbers) where
  open N use {Number}

  -- A missing lifetime is no expiry.
  pub record CreateIntentRequest : Type 0 where
    pub asset : String
    pub leverage : Number
    pub size_usd : Number
    pub min_funding_rate : Option Number
    pub max_funding_volatility : Option Number
    pub max_entry_price : Option Number
    pub expires_in : Option ℕ

  abbrev pub new_intent : String → CreateIntentRequest → ℕ → IntentRow N
  new_intent user q now = record {
    user_id = user;
    asset = q.asset;
    leverage = q.leverage;
    size_usd = q.size_usd;
    min_funding_rate = q.min_funding_rate;
    max_funding_volatility = q.max_funding_volatility;
    max_entry_price = q.max_entry_price;
    status = pending;
    position_id = none;
    execution_error = none;
    criteria_snapshot = none;
    expires_at = elim q.expires_in [ none ↦ none | some d ↦ some (stamp (now + d)) ];
    activated_at = none;
    executed_at = none;
    cancelled_at = none;
  }

  abbrev pub is_duplicate : String → String → String × IntentRow N → Bool
  is_duplicate user asset r =
      str_eq r.1.user_id user && str_eq r.1.asset asset && is_scannable r.1.status

  -- `known` and `funded` say whether the user has a row and sufficient funds; `id` is a new UUID, and one that
  -- the table has would violate the primary key.
  unfoldable pub create_intent :
      String
      → Bool
      → Bool
      → CreateIntentRequest
      → String
      → ℕ
      → IntentDatabase N
      → IntentDatabase N × Answer
  create_intent user known funded q id now db =
      if not known
      then (db, http_error 404)
      else if not funded
      then (db, http_error 400)
      else if any (is_duplicate user q.asset) db.position_intents
      then (db, http_error 409)
      else elim (lookup id db.position_intents) [
        | some row ↦ (db, http_error 500)
        | none ↦ (
          record db { position_intents = insert id (new_intent user q now) db.position_intents },
          success id,
        )
      ]

  unfoldable pub cancel_intent : String → String → ℕ → IntentDatabase N → IntentDatabase N × Answer
  cancel_intent user id now db = elim (lookup id db.position_intents) [
    | none ↦ (db, http_error 404)
    | some row ↦
        if not (str_eq row.user_id user)
        then (db, http_error 404)
        else if not (is_scannable row.status)
        then (db, http_error 400)
        else (
          update_intent N id (λ r. record r { status = cancelled; cancelled_at = some now }) db,
          success id,
        )
  ]
