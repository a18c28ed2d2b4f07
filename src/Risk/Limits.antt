-- ===== src/Risk/Limits.antt =====
-- services/risk_engine/limits/risk_limits.py: RiskLimits. Percentages are in hundredths of a percent,
-- money in a unit as fine as one likes.
use quant_embrace_v.Common.{ℕ, ◌-◌, Bool, false, Option, none, some, ltb, if◌then◌else◌}

-- The market of a signal, "NSE" or "US".
pub data Market : Type 0 where
  nse us : Market

-- The attributes that a call of `get_limit` names.
pub data Limit : Type 0 where
  max_position_size_pct max_total_exposure_pct max_daily_loss_pct max_single_order_value
        max_open_orders max_position_per_symbol max_concurrent_positions max_sector_exposure_pct :
      Limit

-- A dictionary of overrides, as its `get`.
abbrev pub Overrides : Type 0
Overrides = Limit → Option ℕ

pub record RiskLimits : Type 0 where
  pub position_size_pct : ℕ
  pub total_exposure_pct : ℕ
  pub daily_loss_pct : ℕ
  pub single_order_value : ℕ
  pub open_orders : ℕ
  pub position_per_symbol : ℕ
  pub concurrent_positions : ℕ
  pub sector_exposure_pct : ℕ
  pub cooldown_after_loss_seconds : ℕ
  pub portfolio_value : ℕ
  pub allow_leverage : Bool
  pub nse_overrides : Option Overrides
  pub us_overrides : Option Overrides
  pub nav_last_updated : ℕ

unfoldable pub defaults : RiskLimits
defaults = record {
  position_size_pct = 500;
  total_exposure_pct = 8000;
  daily_loss_pct = 200;
  single_order_value = 500000;
  open_orders = 50;
  position_per_symbol = 10000;
  concurrent_positions = 1;
  sector_exposure_pct = 2500;
  cooldown_after_loss_seconds = 300;
  portfolio_value = 1000000;
  allow_leverage = false;
  nse_overrides = none;
  us_overrides = none;
  nav_last_updated = 0;
}

-- The name of a profile, stripped and in lower case; `blank` is the empty text or None.
pub data Profile : Type 0 where
  blank paper shadow tiny_live medium_live other : Profile

abbrev profile_values : ℕ → ℕ → ℕ → ℕ → ℕ → ℕ → ℕ → ℕ → RiskLimits
profile_values size exposure loss order orders per_symbol positions nav = record {
  position_size_pct = size;
  total_exposure_pct = exposure;
  daily_loss_pct = loss;
  single_order_value = order;
  open_orders = orders;
  position_per_symbol = per_symbol;
  concurrent_positions = positions;
  sector_exposure_pct = 2500;
  cooldown_after_loss_seconds = 300;
  portfolio_value = nav;
  allow_leverage = false;
  nse_overrides = none;
  us_overrides = none;
  nav_last_updated = 0;
}

-- None stands for the ValueError of a profile that is not known.
unfoldable pub for_profile : Profile → ℕ → Option RiskLimits
for_profile blank nav = some (profile_values 500 2000 50 5000 1 100 1 nav)
for_profile paper nav = some (profile_values 500 8000 200 500000 50 10000 10 nav)
for_profile shadow nav = some (profile_values 500 5000 100 100000 5 2000 3 nav)
for_profile tiny_live nav = some (profile_values 500 2000 50 5000 1 100 1 nav)
for_profile medium_live nav = some (profile_values 300 3500 75 50000 3 1000 3 nav)
for_profile other nav = none

abbrev pub attribute : Limit → RiskLimits → ℕ
attribute max_position_size_pct l = l.position_size_pct
attribute max_total_exposure_pct l = l.total_exposure_pct
attribute max_daily_loss_pct l = l.daily_loss_pct
attribute max_single_order_value l = l.single_order_value
attribute max_open_orders l = l.open_orders
attribute max_position_per_symbol l = l.position_per_symbol
attribute max_concurrent_positions l = l.concurrent_positions
attribute max_sector_exposure_pct l = l.sector_exposure_pct

abbrev lookup_override : Option Overrides → Limit → Option ℕ
lookup_override none key = none
lookup_override (some d) key = d key

abbrev or_attribute : Option ℕ → ℕ → ℕ
or_attribute none d = d
or_attribute (some v) d = v

unfoldable pub get_limit : Limit → Option Market → RiskLimits → ℕ
get_limit key (some nse) l = or_attribute (lookup_override l.nse_overrides key) (attribute key l)
get_limit key (some us) l = or_attribute (lookup_override l.us_overrides key) (attribute key l)
get_limit key none l = attribute key l

unfoldable pub get_portfolio_value : RiskLimits → ℕ
get_portfolio_value l = l.portfolio_value

unfoldable pub update_portfolio_value : ℕ → ℕ → RiskLimits → RiskLimits
update_portfolio_value now value l =
    if ltb 0 value then record l { portfolio_value = value; nav_last_updated = now } else l

-- None is infinity: never refreshed.
unfoldable pub nav_staleness_seconds : ℕ → RiskLimits → Option ℕ
nav_staleness_seconds now l =
    if ltb 0 l.nav_last_updated then some (now - l.nav_last_updated) else none
