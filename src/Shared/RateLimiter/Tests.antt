-- ===== src/Shared/RateLimiter/Tests.antt =====
-- rate_limiter.py with the default limits: quotes at one a second.
use quant_embrace_v.Common.{ℕ, ◌+◌, ◌-◌, ◌*◌, ◌≤◌, ◌≡◌, refl, List, [], ◌∷◌, arith}
use quant_embrace_v.Shared.RateLimiter.{
  Limiter, Settings, new, high, critical, quote, requests, drains, Event, acquire, handle, refill,
  prune_order_windows, prune, refill_bucket, serve, next_waiter, can_acquire, reserved_floor,
  order_caps_available, consume, enqueue, before,
}
use quant_embrace_v.Shared.RateLimiter.Budget.{total_granted, duration, grants_within_rate}
use quant_embrace_v.Shared.RateLimiter.Queue.{Settled, refill-Settled}

abbrev defaults : Settings
defaults = record {
  capacity = 10;
  quote_capacity = 1;
  historical_capacity = 3;
  order_capacity = 10;
  other_capacity = 10;
  critical_reserved_tokens = 2;
  max_orders_per_second = 10;
  max_orders_per_minute = 400;
  max_orders_per_day = 5000;
}

abbrev start : Limiter
start = new defaults 0 1

-- Three quotes at once, then the drain loop after half a second, a whole one and two.
abbrev burst_of_quotes : List (ℕ × ℕ × Event)
burst_of_quotes =
    (0, 1, requests high quote 1000)
    ∷ (0, 1, requests high quote 1000)
    ∷ (0, 1, requests critical quote 1000)
    ∷ (500, 1, drains)
    ∷ (500, 1, drains)
    ∷ (1000, 1, drains)
    ∷ []

all_three_in_two_seconds : total_granted quote burst_of_quotes 0 start ≡ 3000
unfolding total_granted handle acquire refill new prune_order_windows prune refill_bucket serve
    next_waiter can_acquire reserved_floor order_caps_available consume enqueue before
all_three_in_two_seconds = refl

grants_within_rate_example :
    total_granted quote burst_of_quotes 0 start ≤ 1000 + (0 + duration burst_of_quotes - 0) * 1
unfolding new
grants_within_rate_example = grants_within_rate quote burst_of_quotes 0 start (omega arith)

abbrev waiting : Limiter
waiting = (acquire high quote 1000 0 1 (acquire high quote 1000 0 1 start).0).0

refill-Settled_example : Settled (refill 500 1 waiting).0
refill-Settled_example = refill-Settled 500 1 waiting
