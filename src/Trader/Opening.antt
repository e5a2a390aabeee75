-- ===== src/Trader/Opening.antt =====
-- What `open_short` sends, and what its result says.
use asgard_hl_basisstrategy.Base.{
  ◌+◌, ◌≤◌, Bool, true, false, ◌&&◌, ◌||◌, ◌≡◌, refl, not, Option, none, some, is_some, List, [],
  ◌∷◌, ◌++◌, all, any, filter, length, Numbers, zero_number, le, arith, if◌then◌else◌,
}
use asgard_hl_basisstrategy.Trader.{
  Order, OrderResult, Submission, Attempt, Plan, submit_order, is_stopped_out, execute_stop_loss,
  fully_filled, close_short, open_attempts, open_short, filled_after, is_accepted,
}
use asgard_hl_basisstrategy.Trader.Closing.{buys_back, fills, close_short-IsClose}

module _ (N : Numbers) where
  open N use {Number, literal, mul, add, lt}

  abbrev pub is_sell : Order N → Bool
  is_sell o = not o.is_buy && not o.reduce_only

  abbrev pub reaches_stop : Number → List (Attempt N) → Bool
  reaches_stop stop_loss attempts = any (λ a. is_stopped_out N stop_loss a.stop_price) attempts

  -- What a success says: a size that fills 99.9% of the target, or a smaller one above 0 with what
  -- remains, after sales alone; or, without a size, that the stop loss was reached and the close of
  -- what was sold is filled.
  abbrev pub is_explained :
      Number
      → Number
      → List (Submission N)
      → List (Attempt N)
      → OrderResult N × List (Order N)
      → Bool
  is_explained target stop_loss closing attempts (r, orders) = elim r.filled_sz [
    | none ↦ reaches_stop stop_loss attempts && any (fills N) closing
    | some f ↦
        all is_sell orders
        && (if is_some r.remaining_sz
            then lt (zero_number N) f
            else le N (mul target (literal 999 3)) f)
  ]

  sells_of_buys :
      (orders : List (Order N))
      → all (buys_back N (λ x. true)) orders ≡ true
      → length (filter is_sell orders) ≤ 0
  sells_of_buys [] h = ground arith
  sells_of_buys (o ∷ orders) h = ground (arith, sells_of_buys orders, h)

  -- A stop loss: a success is a close that is filled, and nothing is sold.
  abbrev IsUnwound : List (Submission N) → OrderResult N × List (Order N) → Type 0
  IsUnwound closing (r, orders) =
      (r.filled_sz ≡ none)
      × ((not r.success || any (fills N) closing) ≡ true)
      × (length (filter is_sell orders) ≤ 0)

  execute_stop_loss-IsUnwound :
      (size : Number) (closing : List (Submission N))
      → IsUnwound closing (execute_stop_loss N size closing)
  unfolding execute_stop_loss
  execute_stop_loss-IsUnwound size closing =
      let c = close_short-IsClose N true size (λ x. true) closing refl in
      ground (
        arith,
        c.succeeds_filled,
        sells_of_buys (close_short N true size closing).1 c.only_buys_back,
      )

  all_sells-append :
      (xs ys : List (Order N)) → all is_sell (xs ++ ys) ≡ (all is_sell xs && all is_sell ys)
  all_sells-append [] ys = refl
  all_sells-append (x ∷ xs) ys = ground (arith, all_sells-append xs ys)

  count_sells-append :
      (xs ys : List (Order N))
      → length (filter is_sell (xs ++ ys)) ≡ length (filter is_sell xs) + length (filter is_sell ys)
  count_sells-append [] ys = omega arith
  count_sells-append (x ∷ xs) ys = ground (arith, count_sells-append xs ys)

  submit_order-sells :
      (sz : Number) (s : Submission N)
      → let orders = (submit_order N false sz false s).1 in
        (all is_sell orders ≡ true) × (length (filter is_sell orders) ≤ 1)
  unfolding submit_order
  submit_order-sells sz s = ground arith

  -- What is shown of a run of attempts.
  abbrev pub IsExplained :
      Plan N → List (Submission N) → List (Attempt N) → OrderResult N × List (Order N) → Type 0
  IsExplained p closing attempts r =
      ((not r.0.success || is_explained p.target p.stop_loss closing attempts r) ≡ true)
      × (length (filter is_sell r.1) ≤ length attempts)

  stopped-IsExplained :
      (p : Plan N) (closing : List (Submission N)) (a : Attempt N) (attempts : List (Attempt N))
      (r : OrderResult N × List (Order N))
      → is_stopped_out N p.stop_loss a.stop_price ≡ true
      → IsUnwound closing r
      → IsExplained p closing (a ∷ attempts) r
  stopped-IsExplained p closing a attempts r h u = ground (arith, h, u)

  filled-IsExplained :
      (p : Plan N) (closing : List (Submission N)) (a : Attempt N) (attempts : List (Attempt N))
      (size : Number) (orders : List (Order N))
      → le N (mul p.target (literal 999 3)) size ≡ true
      → (all is_sell orders ≡ true) × (length (filter is_sell orders) ≤ 1)
      → IsExplained p closing (a ∷ attempts) (fully_filled N p size, orders)
  filled-IsExplained p closing a attempts size orders h sells = ground (arith, h, sells)

  later-IsExplained :
      (p : Plan N) (closing : List (Submission N)) (a : Attempt N) (attempts : List (Attempt N))
      (orders : List (Order N)) (rest : OrderResult N × List (Order N))
      → (all is_sell orders ≡ true) × (length (filter is_sell orders) ≤ 1)
      → IsExplained p closing attempts rest
      → IsExplained p closing (a ∷ attempts) (rest.0, orders ++ rest.1)
  later-IsExplained p closing a attempts orders rest sells h =
      ground (arith, sells, h, all_sells-append orders rest.1, count_sells-append orders rest.1)

  attempt-IsExplained :
      (p : Plan N) (closing : List (Submission N)) (a : Attempt N) (attempts : List (Attempt N))
      (size : Number) (orders : List (Order N)) (unwound rest : OrderResult N × List (Order N))
      (stopped full : Bool)
      → is_stopped_out N p.stop_loss a.stop_price ≡ stopped
      → not full || le N (mul p.target (literal 999 3)) size ≡ true
      → IsUnwound closing unwound
      → (all is_sell orders ≡ true) × (length (filter is_sell orders) ≤ 1)
      → IsExplained p closing attempts rest
      → IsExplained p closing (a ∷ attempts) (
          if stopped
          then unwound
          else if full
          then (fully_filled N p size, orders)
          else (rest.0, orders ++ rest.1))
  attempt-IsExplained p closing a attempts size orders unwound rest true full h f u sells later =
      stopped-IsExplained p closing a attempts unwound h u
  attempt-IsExplained p closing a attempts size orders unwound rest false true h f u sells later =
      filled-IsExplained p closing a attempts size orders f sells
  attempt-IsExplained p closing a attempts size orders unwound rest false false h f u sells later =
      later-IsExplained p closing a attempts orders rest sells later

  and_implies : (b c : Bool) → (not (b && c) || c) ≡ true
  and_implies b c = ground arith

  open_attempts-IsExplained :
      (p : Plan N) (closing : List (Submission N)) (attempts : List (Attempt N)) (size : Number)
      → IsExplained p closing attempts (open_attempts N p closing attempts size)
  unfolding open_attempts
  open_attempts-IsExplained p closing [] size = ground arith
  open_attempts-IsExplained p closing (a ∷ attempts) size =
      let (response, orders) =
        submit_order N false (N.round 4 (N.sub p.target size)) false a.submission in
      let size' = filled_after N response size in
      let limit = le N (mul p.target (literal 999 3)) size' in
      attempt-IsExplained p closing a attempts size' orders (execute_stop_loss N size closing)
        (open_attempts N p closing attempts size') (is_stopped_out N p.stop_loss a.stop_price)
        (is_accepted N response && limit) refl (and_implies (is_accepted N response) limit)
        (execute_stop_loss-IsUnwound size closing)
        (submit_order-sells (N.round 4 (N.sub p.target size)) a.submission)
        (open_attempts-IsExplained p closing attempts size')

  -- The plan of an open at a price.
  abbrev pub plan_of : Number → Number → Number → Plan N
  plan_of target stop_loss_pct entry = record {
    target = target;
    entry = entry;
    stop_loss = mul entry (add (literal 1 0) stop_loss_pct);
  }

  abbrev pub IsExplainedAt :
      (Number → Plan N)
      → List (Submission N)
      → List (Attempt N)
      → Option Number
      → OrderResult N × List (Order N)
      → Type 0
  IsExplainedAt plan closing attempts none r = (r.0.success ≡ false) × (r.1 ≡ [])
  IsExplainedAt plan closing attempts (some entry) r = IsExplained (plan entry) closing attempts r

  -- An open ends after at most one sale for each attempt. Without a price it fails and sends nothing.
  -- If it succeeds, either it gives the size that is filled, which is at least 99.9% of the target or
  -- above 0 with what remains, and it only sold; or it gives no size, the stop loss was reached, and
  -- an order that buys back what was sold is filled, wholly or in part.
  pub open_short-IsExplainedAt :
      (has_signer : Bool) (target stop_loss_pct : Number) (price : Option Number) (balance : Number)
      (closing : List (Submission N)) (attempts : List (Attempt N))
      → IsExplainedAt
          (plan_of target stop_loss_pct)
          closing
          attempts
          price
          (open_short N has_signer target stop_loss_pct price balance closing attempts)
  unfolding open_short
  open_short-IsExplainedAt has_signer target stop_loss_pct none balance closing attempts =
      ground arith
  open_short-IsExplainedAt has_signer target stop_loss_pct (some entry) balance closing attempts =
      ground (
        arith,
        open_attempts-IsExplained (plan_of target stop_loss_pct entry) closing attempts
            (zero_number N),
      )
