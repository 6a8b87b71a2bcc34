-- ===== src/Trade/Status.antt =====
-- The calls between `complete_trade` and `_update_status` end.
use flumine.Prelude.{ℕ, suc, ◌≡◌, false, some, arith, Bool-cases, inl, inr}
use flumine.Trade.{
  TradeStatus, complete_, World, set_trade, set_trade_status, complete_trade, update_status_depth,
  trade_complete, trade_update_status,
}

-- A trade whose status has just been set to COMPLETE is not "complete", so nothing is called again.
pub set_complete-ends :
    (t : ℕ) (w : World) → trade_complete (set_trade_status t complete_ w) t ≡ false
unfolding trade_complete set_trade_status set_trade
set_complete-ends t w = ground arith

-- Two calls deep is always enough: whatever the status and the store, and with whatever further
-- depth, the recursion of the two methods ends, with the result of `trade_update_status`.
update_status_depth-eq :
    (depth t : ℕ) (status : TradeStatus) (w : World)
    → update_status_depth (suc (suc depth)) t status w ≡ some (trade_update_status t status w)
unfolding update_status_depth trade_update_status complete_trade
update_status_depth-eq depth t status w =
    let w' = set_trade_status t status w in
    elim (Bool-cases (trade_complete w' t)) [
      | inl done ↦ rw (done, set_complete-ends t w')
      | inr open_ ↦ rw open_
    ]
