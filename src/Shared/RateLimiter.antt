-- ===== src/Shared/RateLimiter.antt =====
-- services/shared/zerodha/rate_limiter.py. Times are whole milliseconds and tokens and units whole
-- thousandths, so that a millisecond at rate r brings r thousandths exactly. The readings of the
-- clock within one call are one instant. Reports and the market phase, which nothing reads, are left out.
pub mod Budget
pub mod Queue
mod Tests
use quant_embrace_v.Common.{
  ℕ, suc, zero, ◌+◌, ◌-◌, ◌*◌, ◌/◌, min, max, Bool, true, false, not, ◌&&◌, ◌||◌, Option, none,
  some, List, [], ◌∷◌, ◌++◌, ltb, leb, ◌==◌, length, replicate, if◌then◌else◌,
}

pub data Priority : Type 0 where
  critical high medium low : Priority

abbrev pub urgency : Priority → ℕ
urgency critical = 0
urgency high = 1
urgency medium = 2
urgency low = 3

pub data EndpointClass : Type 0 where
  order_place order_control quote historical other : EndpointClass

abbrev endpoint_code : EndpointClass → ℕ
endpoint_code order_place = 0
endpoint_code order_control = 1
endpoint_code quote = 2
endpoint_code historical = 3
endpoint_code other = 4

abbrev pub same_endpoint : EndpointClass → EndpointClass → Bool
same_endpoint a b = endpoint_code a == endpoint_code b

pub record Bucket : Type 0 where
  pub rate : ℕ  -- tokens a second
  pub burst : ℕ  -- thousandths
  pub tokens : ℕ  -- thousandths
  pub last_refill : ℕ

unfoldable pub refill_bucket : ℕ → Bucket → Bucket
refill_bucket now b = record b {
  tokens = min b.burst (b.tokens + (now - b.last_refill) * b.rate);
  last_refill = now;
}

pub record Waiter : Type 0 where
  pub priority : Priority
  pub endpoint : EndpointClass
  pub units : ℕ  -- thousandths
  pub enqueued_at : ℕ
  pub done : Bool  -- the future has been cancelled

-- `__lt__`
unfoldable pub before : Waiter → Waiter → Bool
before v w =
    ltb (urgency v.priority) (urgency w.priority)
    || ((urgency v.priority == urgency w.priority) && ltb v.enqueued_at w.enqueued_at)

pub record Limiter : Type 0 where
  pub buckets : EndpointClass → Bucket
  pub critical_reserved_tokens : ℕ  -- thousandths
  pub waiters : List Waiter
  pub max_orders_per_second : ℕ
  pub max_orders_per_minute : ℕ
  pub max_orders_per_day : ℕ
  pub order_second_window : List ℕ  -- oldest first
  pub order_minute_window : List ℕ
  pub order_day_window : List ℕ
  pub order_day_key : ℕ
  pub total_acquired : ℕ

-- The arguments of the constructor, in whole tokens.
pub record Settings : Type 0 where
  pub capacity : ℕ
  pub quote_capacity : ℕ
  pub historical_capacity : ℕ
  pub order_capacity : ℕ
  pub other_capacity : ℕ
  pub critical_reserved_tokens : ℕ
  pub max_orders_per_second : ℕ
  pub max_orders_per_minute : ℕ
  pub max_orders_per_day : ℕ

bucket_of : ℕ → ℕ → ℕ → Bucket
bucket_of now rate burst = record {
  rate = rate;
  burst = burst * 1000;
  tokens = burst * 1000;
  last_refill = now;
}

unfoldable pub new : Settings → ℕ → ℕ → Limiter
unfolding bucket_of
new s now today = record {
  buckets = λ e. elim e [
    | order_place ↦ bucket_of now s.order_capacity (min s.order_capacity s.max_orders_per_second)
    | order_control ↦ bucket_of now s.other_capacity (min s.other_capacity s.capacity)
    | quote ↦ bucket_of now s.quote_capacity (max 1 s.quote_capacity)
    | historical ↦ bucket_of now s.historical_capacity (max 1 s.historical_capacity)
    | other ↦ bucket_of now s.other_capacity (min s.other_capacity s.capacity)
  ];
  critical_reserved_tokens = s.critical_reserved_tokens * 1000;
  waiters = [];
  max_orders_per_second = s.max_orders_per_second;
  max_orders_per_minute = s.max_orders_per_minute;
  max_orders_per_day = s.max_orders_per_day;
  order_second_window = [];
  order_minute_window = [];
  order_day_window = [];
  order_day_key = today;
  total_acquired = 0;
}

-- The loop that pops the front of a window while it is old.
unfoldable pub prune : ℕ → ℕ → List ℕ → List ℕ
prune now age [] = []
prune now age (t ∷ ts) = let rest = prune now age ts in if leb age (now - t) then rest else t ∷ ts

unfoldable pub prune_order_windows : ℕ → ℕ → Limiter → Limiter
prune_order_windows now today l = record l {
  order_day_window = if today == l.order_day_key then l.order_day_window else [];
  order_day_key = today;
  order_second_window = prune now 1000 l.order_second_window;
  order_minute_window = prune now 60000 l.order_minute_window;
}

abbrev keeps_reserve : EndpointClass → Bool
keeps_reserve order_place = true
keeps_reserve order_control = true
keeps_reserve other = true
keeps_reserve quote = false
keeps_reserve historical = false

abbrev is_critical : Priority → Bool
is_critical p = urgency p == 0

unfoldable pub reserved_floor : EndpointClass → Priority → Limiter → ℕ
reserved_floor e p l =
    if is_critical p
    then 0
    else if keeps_reserve e
    then min l.critical_reserved_tokens ((l.buckets e).burst - 1000)
    else 0

-- After `_prune_order_windows` at the same instant, which a second one leaves as it is.
unfoldable pub order_caps_available : Limiter → Bool
order_caps_available l =
    ltb (length l.order_second_window) l.max_orders_per_second
    && ltb (length l.order_minute_window) l.max_orders_per_minute
    && ltb (length l.order_day_window) l.max_orders_per_day

unfoldable pub can_acquire : EndpointClass → Priority → ℕ → Limiter → Bool
can_acquire e p units l =
    leb (reserved_floor e p l + units) (l.buckets e).tokens
    && (not (same_endpoint e order_place) || order_caps_available l)

abbrev orders_in : EndpointClass → ℕ → ℕ → List ℕ
orders_in e units now = if same_endpoint e order_place then replicate (units / 1000) now else []

unfoldable pub consume : EndpointClass → ℕ → ℕ → Limiter → Limiter
consume e units now l = record l {
  buckets = λ x.
      if same_endpoint e x
      then record (l.buckets x) { tokens = (l.buckets x).tokens - units }
      else l.buckets x;
  order_second_window = l.order_second_window ++ orders_in e units now;
  order_minute_window = l.order_minute_window ++ orders_in e units now;
  order_day_window = l.order_day_window ++ orders_in e units now;
  total_acquired = l.total_acquired + 1;
}

-- The first waiter of the queue that is cancelled or can be served, and the others.
unfoldable pub next_waiter : Limiter → List Waiter → Option (Waiter × List Waiter)
next_waiter l [] = none
next_waiter l (w ∷ ws) =
    let rest = next_waiter l ws in
    if w.done || can_acquire w.endpoint w.priority w.units l
    then some (w, ws)
    else elim rest [ none ↦ none | some (v, vs) ↦ some (v, w ∷ vs) ]

-- The loop of `_refill`, on fuel: the waiters it serves come with the limiter.
unfoldable pub serve : ℕ → ℕ → Limiter → Limiter × List Waiter
serve zero now l = (l, [])
serve (suc fuel) now l = elim (next_waiter l l.waiters) [
  | none ↦ (l, [])
  | some (w, ws) ↦
      if w.done
      then serve fuel now (record l { waiters = ws })
      else (let (l', served) =
            serve fuel now (consume w.endpoint w.units now (record l { waiters = ws })) in
          (l', w ∷ served))
]

-- Each round takes one waiter out, so there are at most as many as waiters.
unfoldable pub refill : ℕ → ℕ → Limiter → Limiter × List Waiter
refill now today l =
    let l' =
      prune_order_windows now today (record l { buckets = λ e. refill_bucket now (l.buckets e) }) in
    serve (length l'.waiters) now l'

-- Appended and sorted: behind every waiter that it does not come before.
unfoldable pub enqueue : Waiter → List Waiter → List Waiter
enqueue w [] = w ∷ []
enqueue w (v ∷ vs) = let rest = enqueue w vs in if before w v then w ∷ v ∷ vs else v ∷ rest

pub data Outcome : Type 0 where
  nothing_asked granted queued daily_cap_exhausted : Outcome

-- A request, with the waiters that it wakes.
unfoldable pub acquire :
    Priority → EndpointClass → ℕ → ℕ → ℕ → Limiter → Limiter × List Waiter × Outcome
acquire p e units now today l =
    let (l', served) = refill now today l in
    let w : Waiter = record {
      priority = p;
      endpoint = e;
      units = units;
      enqueued_at = now;
      done = false;
    } in
    if units == 0
    then (l, [], nothing_asked)
    else if same_endpoint e order_place && leb l'.max_orders_per_day (length l'.order_day_window)
    then (l', served, daily_cap_exhausted)
    else if can_acquire e p units l'
    then (consume e units now l', served, granted)
    else (record l' { waiters = enqueue w l'.waiters }, served, queued)

-- The n-th waiter's future is cancelled by its own task.
unfoldable pub cancel : ℕ → List Waiter → List Waiter
cancel n [] = []
cancel zero (w ∷ ws) = record w { done = true } ∷ ws
cancel (suc n) (w ∷ ws) = w ∷ cancel n ws

-- What happens to a limiter: a request, a round of the drain loop, a cancelled task.
pub data Event : Type 0 where
  requests : Priority → EndpointClass → ℕ → Event
  drains : Event
  cancels : ℕ → Event

unfoldable pub handle : Event → ℕ → ℕ → Limiter → Limiter × List Waiter × Outcome
handle (requests p e units) now today l = acquire p e units now today l
handle drains now today l = let (l', served) = refill now today l in (l', served, nothing_asked)
handle (cancels n) now today l = (record l { waiters = cancel n l.waiters }, [], nothing_asked)
