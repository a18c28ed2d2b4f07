-- ===== src/Risk/KillSwitch/Cache.antt =====
-- services/risk_engine/cache/kill_switch_cache.py. `load_state` gives its errors away, so the handlers
-- of an exception around it are never reached; the calls of the callback are counted.
pub mod Polling
mod Tests
use quant_embrace_v.Common.{ℕ, ◌+◌, Bool, true, false, List, [], ◌∷◌, if◌then◌else◌}
use quant_embrace_v.Execution.Orders.Database.{Fate}
use quant_embrace_v.Execution.SafeActions.RiskState.{RiskTable}
use quant_embrace_v.Risk.KillSwitch.{KillSwitch, load_state}

pub record Cache : Type 0 where
  pub wired : Bool  -- an `on_activated` was given
  pub cached_active : Bool
  pub running : Bool
  pub callbacks : ℕ

unfoldable pub new : Bool → Cache
new wired = record { wired = wired; cached_active = false; running = false; callbacks = 0 }

unfoldable pub is_active : Cache → Bool
is_active c = c.cached_active

unfoldable pub stop : Cache → Cache
stop c = record c { running = false }

-- The comparison of a new state to the cached one.
unfoldable pub compare : Bool → Cache → Cache
compare true c = if c.cached_active then c else record c {
  cached_active = true;
  callbacks = if c.wired then c.callbacks + 1 else c.callbacks;
}
compare false c = record c { cached_active = false }

module _ (db : RiskTable) where
  open db use {Table}

  unfoldable pub start : Fate → KillSwitch → Cache → Table → KillSwitch × Cache
  start fate k c t =
      let k' = load_state db fate k t in
      (k', record c { cached_active = k'.active; running = true })

  -- One turn of the loop after its sleep.
  unfoldable pub poll : Fate → KillSwitch → Cache → Table → KillSwitch × Cache
  poll fate k c t =
      let k' = load_state db fate k t in if c.running then (k', compare k'.active c) else (k, c)

  unfoldable pub polls : List Fate → KillSwitch → Cache → Table → KillSwitch × Cache
  polls [] k c t = (k, c)
  polls (fate ∷ fates) k c t = let (k', c') = poll fate k c t in polls fates k' c' t
