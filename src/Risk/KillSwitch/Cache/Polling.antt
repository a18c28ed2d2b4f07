-- ===== src/Risk/KillSwitch/Cache/Polling.antt =====
-- kill_switch_cache.py with killswitch.py and service.py: what the polls bring to the engine.
use quant_embrace_v.Common.{ℕ, ◌≡◌, ◌++◌, true, false, some, List, [], ◌∷◌, arith}
use quant_embrace_v.Execution.Orders.Database.{Fate, answered, lost_before, lost_after}
use quant_embrace_v.Execution.SafeActions.RiskState.{
  Text, KillSwitchItem, kill_switch_row, kill_switch_key, RiskTable,
}
use quant_embrace_v.Risk.KillSwitch.{KillSwitch, activate, persist_state, load_state}
use quant_embrace_v.Risk.KillSwitch.Cache.{Cache, compare, poll, polls}
use quant_embrace_v.Risk.Signals.{Signal}
use quant_embrace_v.Risk.Pipeline.{
  RiskEngine, Observation, record_data_tick, decide, validate_signal,
}

-- The engine with the switch and the cache that the polls leave.
abbrev pub seen_by : RiskEngine → KillSwitch × Cache → RiskEngine
seen_by e (k, c) = record e { halted = c.cached_active; kill_switch = k }

module _ (db : RiskTable) where
  open db use {Table, get_item}

  -- The row of the switch says that trading is halted, or not.
  abbrev pub HasRow : KillSwitchItem → Table → Type 0
  HasRow i t = get_item t kill_switch_key ≡ some (kill_switch_row i)

  -- The switch and its cache are active, and the loop goes on.
  abbrev pub IsHalted : KillSwitch × Cache → Type 0
  IsHalted (k, c) = (k.active ≡ true) × (c.cached_active ≡ true) × (c.running ≡ true)

  poll_keeps-running :
      (fate : Fate) (k : KillSwitch) (c : Cache) (t : Table)
      → c.running ≡ true
      → (poll db fate k c t).1.running ≡ true
  unfolding poll compare
  poll_keeps-running fate k c t run = ground arith

  poll-answered-IsHalted :
      (i : KillSwitchItem) (k : KillSwitch) (c : Cache) (t : Table)
      → HasRow i t
      → i.active ≡ true
      → c.running ≡ true
      → IsHalted (poll db answered k c t)
  unfolding poll compare load_state
  poll-answered-IsHalted i k c t row act run = ground (arith, row)

  poll-IsHalted :
      (fate : Fate) (i : KillSwitchItem) (k : KillSwitch) (c : Cache) (t : Table)
      → HasRow i t
      → i.active ≡ true
      → IsHalted (k, c)
      → IsHalted (poll db fate k c t)
  unfolding poll compare load_state
  poll-IsHalted answered i k c t row act h = poll-answered-IsHalted i k c t row act h.2
  poll-IsHalted lost_before i k c t row act h = ground (arith, row)
  poll-IsHalted lost_after i k c t row act h = ground (arith, row)

  polls-IsHalted :
      (fates : List Fate) (i : KillSwitchItem) (k : KillSwitch) (c : Cache) (t : Table)
      → HasRow i t
      → i.active ≡ true
      → IsHalted (k, c)
      → IsHalted (polls db fates k c t)
  unfolding polls
  polls-IsHalted [] i k c t row act h = h
  polls-IsHalted (fate ∷ fates) i k c t row act h =
      let (k', c') = poll db fate k c t in
      polls-IsHalted fates i k' c' t row act (poll-IsHalted fate i k c t row act h)

  polls-answered-IsHalted :
      (earlier later : List Fate) (i : KillSwitchItem) (k : KillSwitch) (c : Cache) (t : Table)
      → HasRow i t
      → i.active ≡ true
      → c.running ≡ true
      → IsHalted (polls db (earlier ++ answered ∷ later) k c t)
  unfolding polls
  polls-answered-IsHalted [] later i k c t row act run =
      let (k', c') = poll db answered k c t in
      polls-IsHalted later i k' c' t row act (poll-answered-IsHalted i k c t row act run)
  polls-answered-IsHalted (fate ∷ earlier) later i k c t row act run =
      let (k', c') = poll db fate k c t in
      polls-answered-IsHalted earlier later i k' c' t row act (poll_keeps-running fate k c t run)

  halted_rejects :
      (o : Observation) (s : Signal) (e : RiskEngine) (t : Table)
      → e.halted ≡ true
      → let (e', d, t') = validate_signal db o s e t in
        (d.approved ≡ false) × (t' ≡ t) × (e'.kill_switch ≡ e.kill_switch)
  unfolding validate_signal decide record_data_tick
  halted_rejects o s e t h = ground arith

  -- A halt that any other process writes into the table reaches the engine without a message: from the
  -- first poll of a running cache that is answered, and through all later polls, answered or not, as
  -- long as the row stands, every signal is rejected, with no write and with the switch active.
  pub halt_reaches_engine :
      (earlier later : List Fate) (i : KillSwitchItem) (k : KillSwitch) (c : Cache) (t : Table)
      (o : Observation) (s : Signal) (e : RiskEngine)
      → HasRow i t
      → i.active ≡ true
      → c.running ≡ true
      → let e' = seen_by e (polls db (earlier ++ answered ∷ later) k c t) in
        let (e'', d, t') = validate_signal db o s e' t in
        (d.approved ≡ false) × (t' ≡ t) × (e''.kill_switch.active ≡ true)
  halt_reaches_engine earlier later i k c t o s e row act run =
      let after = polls db (earlier ++ answered ∷ later) k c t in
      let h = polls-answered-IsHalted earlier later i k c t row act run in
      let (rejected, same, kept) = halted_rejects o s (seen_by e after) t h.1 in
      (rejected, same, rw kept h.0)

  -- An activation in this process whose write is lost lasts until the next poll: where the row still
  -- says inactive, the poll makes the switch inactive again, the cache has never been active, and the
  -- callback is not called.
  pub unsaved_halt_undone :
      (reason : Text) (by now : ℕ) (i : KillSwitchItem) (k : KillSwitch) (c : Cache) (t : Table)
      → HasRow i t
      → i.active ≡ false
      → k.active ≡ false
      → c.running ≡ true
      → c.cached_active ≡ false
      → let (k', t') = activate db reason by now lost_before k t in
        let (k'', c') = poll db answered k' c t' in
        (k'.active ≡ true)
        × (k''.active ≡ false)
        × (c'.cached_active ≡ false)
        × (c'.callbacks ≡ c.callbacks)
  unfolding activate persist_state poll compare load_state
  unsaved_halt_undone reason by now i k c t row off idle run cold = ground (arith, row)
