-- ===== src/Shared/RateLimiter/Budget.antt =====
-- How much rate_limiter.py grants on an endpoint over time.
use quant_embrace_v.Common.{
  ap, ◌∙◌, ℕ, suc, zero, ◌+◌, ◌-◌, ◌*◌, ◌≤◌, ◌≡◌, ◌⊎◌, inl, inr, true, some, List, [], ◌∷◌, arith,
  if◌then◌else◌, length, Option-cases, Bool-cases,
}
use quant_embrace_v.Shared.RateLimiter.{
  Event, requests, drains, cancels, handle, EndpointClass, Priority, refill_bucket, Waiter, Limiter,
  same_endpoint, order_place, prune_order_windows, can_acquire, consume, next_waiter, serve, refill,
  acquire, Outcome, nothing_asked, granted, queued, daily_cap_exhausted, reserved_floor,
  order_caps_available,
}

-- Units that a waiter of the list, or a request, takes on an endpoint.
abbrev pub taken : EndpointClass → EndpointClass → ℕ → ℕ
taken e x units = if same_endpoint x e then units else 0

abbrev pub served_units : EndpointClass → List Waiter → ℕ
served_units e [] = 0
served_units e (w ∷ ws) = taken e w.endpoint w.units + served_units e ws

abbrev pub outcome_units : Outcome → ℕ → ℕ
outcome_units nothing_asked units = 0
outcome_units granted units = units
outcome_units queued units = 0
outcome_units daily_cap_exhausted units = 0

consume_takes :
    (e x : EndpointClass) (p : Priority) (units now : ℕ) (l : Limiter)
    → can_acquire x p units l ≡ true
    → (taken e x units + ((consume x units now l).buckets e).tokens ≡ (l.buckets e).tokens)
      × (((consume x units now l).buckets e).rate ≡ (l.buckets e).rate)
      × (((consume x units now l).buckets e).burst ≡ (l.buckets e).burst)
      × (((consume x units now l).buckets e).last_refill ≡ (l.buckets e).last_refill)
unfolding consume can_acquire
consume_takes e x p units now l h = elim x [
  | order_place ↦ elim e [ order_place ↦ ground arith | _ ↦ ground arith ]
  | _ ↦ elim e [ order_place ↦ ground arith | _ ↦ ground arith ]
]

next_waiter-can_acquire :
    (l : Limiter) (ws : List Waiter) (w : Waiter) (rest : List Waiter)
    → next_waiter l ws ≡ some (w, rest)
    → (w.done ≡ true) ⊎ (can_acquire w.endpoint w.priority w.units l ≡ true)
unfolding next_waiter
next_waiter-can_acquire l [] w rest h = ground arith
next_waiter-can_acquire l (v ∷ vs) w rest h = elim (Option-cases (next_waiter l vs)) [
  | inl e ↦ ground (arith, e, h)
  | inr ((u, us), e) ↦ ground (arith, e, h, next_waiter-can_acquire l vs u us e)
]

-- What a step leaves of a bucket, after it has taken some units.
abbrev Takes : EndpointClass → ℕ → Limiter → Limiter → Type 0
Takes e units l l' =
    (units + (l'.buckets e).tokens ≡ (l.buckets e).tokens)
    × ((l'.buckets e).rate ≡ (l.buckets e).rate)
    × ((l'.buckets e).burst ≡ (l.buckets e).burst)
    × ((l'.buckets e).last_refill ≡ (l.buckets e).last_refill)

serve-Takes :
    (e : EndpointClass) (fuel now : ℕ) (l : Limiter)
    → let (l', served) = serve fuel now l in Takes e (served_units e served) l l'
unfolding serve
serve-Takes e zero now l = ground arith
serve-Takes e (suc fuel) now l = elim (Option-cases (next_waiter l l.waiters)) [
  | inl none_left ↦ ground (arith, none_left)
  | inr ((w, ws), found) ↦
      let l₁ : Limiter = record l { waiters = ws } in
      elim (Bool-cases w.done) [
        | inl gone ↦ ground (arith, found, gone, serve-Takes e fuel now l₁)
        | inr open_ ↦
            let free : can_acquire w.endpoint w.priority w.units l₁ ≡ true =
              unfold can_acquire reserved_floor order_caps_available in
              ground (arith, open_, next_waiter-can_acquire l l.waiters w ws found) in
            ground (
              arith,
              found,
              open_,
              consume_takes e w.endpoint w.priority w.units now l₁ free,
              serve-Takes e fuel now (consume w.endpoint w.units now l₁),
            )
      ]
]

-- What an event grants on an endpoint: to the waiters that it wakes, and at once.
abbrev pub granted_on : EndpointClass → Event → List Waiter → Outcome → ℕ
granted_on e (requests p x units) served outcome =
    served_units e served + taken e x (outcome_units outcome units)
granted_on e drains served outcome = served_units e served
granted_on e (cancels n) served outcome = served_units e served

-- What an event leaves of a bucket: it grants no more than there was and came in since.
abbrev Accrues : EndpointClass → ℕ → ℕ → Limiter → Limiter → Type 0
Accrues e now units l l' =
    (units + (l'.buckets e).tokens + (l.buckets e).last_refill * (l.buckets e).rate
      ≤ (l.buckets e).tokens + (l'.buckets e).last_refill * (l.buckets e).rate)
    × ((l'.buckets e).rate ≡ (l.buckets e).rate)
    × ((l'.buckets e).last_refill ≤ now)

elapsed_times : (now last rate : ℕ) → last ≤ now → (now - last) * rate + last * rate ≡ now * rate
elapsed_times now last rate h =
    let whole : ((now - last) + last) * rate ≡ now * rate = ap (λ n. n * rate) (omega arith) in
    omega (arith, whole)

refill-Accrues :
    (e : EndpointClass) (now today : ℕ) (l : Limiter)
    → (l.buckets e).last_refill ≤ now
    → let (l', served) = refill now today l in Accrues e now (served_units e served) l l'
unfolding refill refill_bucket prune_order_windows
refill-Accrues e now today l h =
    let b = l.buckets e in
    let l' =
      prune_order_windows now today (record l { buckets = λ x. refill_bucket now (l.buckets x) }) in
    ground
      (arith, elapsed_times now b.last_refill b.rate h, serve-Takes e (length l'.waiters) now l')

acquire-Accrues :
    (e : EndpointClass) (p : Priority) (x : EndpointClass) (units now today : ℕ) (l : Limiter)
    → (l.buckets e).last_refill ≤ now
    → let (l', served, outcome) = acquire p x units now today l in
      Accrues e now (served_units e served + taken e x (outcome_units outcome units)) l l'
unfolding acquire
acquire-Accrues e p x units now today l h =
    ground
      (arith, refill-Accrues e now today l h, consume_takes e x p units now (refill now today l).0)

handle-Accrues :
    (e : EndpointClass) (ev : Event) (now today : ℕ) (l : Limiter)
    → (l.buckets e).last_refill ≤ now
    → let (l', served, outcome) = handle ev now today l in
      Accrues e now (granted_on e ev served outcome) l l'
unfolding handle
handle-Accrues e (requests p x units) now today l h = acquire-Accrues e p x units now today l h
handle-Accrues e drains now today l h = ground (arith, refill-Accrues e now today l h)
handle-Accrues e (cancels n) now today l h = ground (arith, h)

bounds_compose :
    (g g' tok tok' last last' rate rate' end end' : ℕ)
    → g + tok' + last * rate ≤ tok + last' * rate
    → g' ≤ tok' + (end' - last') * rate'
    → (end' ≡ end) × (rate' ≡ rate)
    → (last ≤ end) × (last' ≤ end)
    → g + g' ≤ tok + (end - last) * rate
bounds_compose g g' tok tok' last last' rate rate' end end' first rest (e, q) (h, h') =
    let same : (end' - last') * rate' ≡ (end - last') * rate =
      ap (λ n. (n - last') * rate') e ∙ ap (λ n. (end - last') * n) q in
    omega (arith, first, rest, same, elapsed_times end last rate h, elapsed_times end last' rate h')

-- Events, each so many milliseconds after the one before, on a day.
unfoldable pub total_granted : EndpointClass → List (ℕ × ℕ × Event) → ℕ → Limiter → ℕ
total_granted e [] now l = 0
total_granted e ((delay, today, ev) ∷ evs) now l =
    let (l', served, outcome) = handle ev (now + delay) today l in
    granted_on e ev served outcome + total_granted e evs (now + delay) l'

abbrev pub duration : List (ℕ × ℕ × Event) → ℕ
duration [] = 0
duration ((delay, today, ev) ∷ evs) = delay + duration evs

-- Over any run of requests, of rounds of the drain loop and of cancellations, an endpoint is
-- granted no more than its bucket held at the start and what its rate brings in the time since the
-- bucket was last filled, at once or from the queue, whatever the priorities.
pub grants_within_rate :
    (e : EndpointClass) (evs : List (ℕ × ℕ × Event)) (now : ℕ) (l : Limiter)
    → (l.buckets e).last_refill ≤ now
    → total_granted e evs now l
      ≤ (l.buckets e).tokens + (now + duration evs - (l.buckets e).last_refill) * (l.buckets e).rate
unfolding total_granted
grants_within_rate e [] now l h = omega arith
grants_within_rate e ((delay, today, ev) ∷ evs) now l h =
    let t = now + delay in
    let (l', served, outcome) = handle ev t today l in
    let (first, rate, last) = handle-Accrues e ev t today l (omega (arith, h)) in
    bounds_compose (granted_on e ev served outcome) (total_granted e evs t l') (l.buckets e).tokens
      (l'.buckets e).tokens (l.buckets e).last_refill (l'.buckets e).last_refill (l.buckets e).rate
      (l'.buckets e).rate (now + (delay + duration evs)) (t + duration evs) first
      (grants_within_rate e evs t l' last) (omega arith, rate)
      (omega (arith, h), omega (arith, last))
