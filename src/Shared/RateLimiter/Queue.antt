-- ===== src/Shared/RateLimiter/Queue.antt =====
-- Who waits in the queue of rate_limiter.py.
use quant_embrace_v.Common.{
  ℕ, suc, zero, ◌+◌, ◌≤◌, ◌≡◌, inl, inr, true, false, none, some, List, [], ◌∷◌, arith, length, All,
  Bool-cases, Option-cases,
}
use quant_embrace_v.Shared.RateLimiter.{
  Waiter, Limiter, can_acquire, consume, next_waiter, serve, refill, prune_order_windows,
  refill_bucket,
}

-- The waiter is alive and cannot be served now.
abbrev pub Blocked : Limiter → Waiter → Type 0
Blocked l w = (w.done ≡ false) × (can_acquire w.endpoint w.priority w.units l ≡ false)

next_waiter-Blocked :
    (l : Limiter) (ws : List Waiter) → next_waiter l ws ≡ none → All (Blocked l) ws
unfolding next_waiter
next_waiter-Blocked l [] h = tt
next_waiter-Blocked l (w ∷ ws) h = elim (Option-cases (next_waiter l ws)) [
  | inl e ↦ (ground (arith, e, h), next_waiter-Blocked l ws e)
  | inr (v, e) ↦ ground (arith, e, h)
]

next_waiter-length :
    (l : Limiter) (ws : List Waiter) (w : Waiter) (rest : List Waiter)
    → next_waiter l ws ≡ some (w, rest)
    → length rest + 1 ≡ length ws
unfolding next_waiter
next_waiter-length l [] w rest h = ground arith
next_waiter-length l (v ∷ vs) w rest h = elim (Option-cases (next_waiter l vs)) [
  | inl e ↦ ground (arith, e, h)
  | inr ((u, us), e) ↦ ground (arith, e, h, next_waiter-length l vs u us e)
]

abbrev pub Settled : Limiter → Type 0
Settled l = All (Blocked l) l.waiters

none_left : (l : Limiter) (ws : List Waiter) → length ws ≤ 0 → All (Blocked l) ws
none_left l [] h = tt
none_left l (w ∷ ws) h = ground (arith, h)

module _ (fuel now : ℕ) (l : Limiter) where
  serve_idle : next_waiter l l.waiters ≡ none → (serve (suc fuel) now l).0 ≡ l
  unfolding serve
  serve_idle h = ground (arith, h)

  serve_gone :
      (w : Waiter) (ws : List Waiter)
      → next_waiter l l.waiters ≡ some (w, ws)
      → w.done ≡ true
      → (serve (suc fuel) now l).0 ≡ (serve fuel now (record l { waiters = ws })).0
  unfolding serve
  serve_gone w ws h gone = ground (arith, h, gone)

  serve_free :
      (w : Waiter) (ws : List Waiter)
      → next_waiter l l.waiters ≡ some (w, ws)
      → w.done ≡ false
      → (serve (suc fuel) now l).0
        ≡ (serve fuel now (consume w.endpoint w.units now (record l { waiters = ws }))).0
  unfolding serve
  serve_free w ws h alive = ground (arith, h, alive)

serve-Settled :
    (fuel now : ℕ) (l : Limiter) → length l.waiters ≤ fuel → Settled (serve fuel now l).0
serve-Settled zero now l h = unfold serve in none_left l l.waiters h
serve-Settled (suc fuel) now l h = elim (Option-cases (next_waiter l l.waiters)) [
  | inl e ↦ rw (serve_idle fuel now l e) (next_waiter-Blocked l l.waiters e)
  | inr ((w, ws), e) ↦
      let fits : length ws ≤ fuel = ground (arith, h, next_waiter-length l l.waiters w ws e) in
      elim (Bool-cases w.done) [
        | inl gone ↦
            rw (serve_gone fuel now l w ws e gone)
              (serve-Settled fuel now (record l { waiters = ws }) fits)
        | inr alive ↦ rw (serve_free fuel now l w ws e alive) (
            serve-Settled fuel now (consume w.endpoint w.units now (record l { waiters = ws }))
              (unfold consume in fits))
      ]
]

-- After a refill nobody waits who could be served: every waiter that is left is alive and its
-- request cannot be granted now. So a refill has rounds enough for its queue.
pub refill-Settled : (now today : ℕ) (l : Limiter) → Settled (refill now today l).0
unfolding refill
refill-Settled now today l =
    let l' =
      prune_order_windows now today (record l { buckets = λ e. refill_bucket now (l.buckets e) }) in
    serve-Settled (length l'.waiters) now l' (omega arith)
