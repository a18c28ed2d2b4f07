-- ===== src/Shared/MarketPhase/Broadcast.antt =====
-- market_phase.py: what the listeners hear in a run.
use quant_embrace_v.Common.{
  ℕ, ◌≡◌, inl, inr, refl, sym, ap, ◌∙◌, subst, true, false, List, [], ◌∷◌, ◌++◌, map, arith, ◌==◌,
  Bool-cases, if◌then◌else◌,
}
use quant_embrace_v.Shared.MarketPhase.{
  MarketPhase, code, Governor, compute_phase, broadcast, check, checks, run,
}

-- The phases of the times, from a phase on, without those that repeat the one before.
unfoldable pub changes : MarketPhase → List ℕ → List MarketPhase
changes p [] = []
changes p (now ∷ times) =
    let same = changes p times in
    let other = changes (compute_phase now) times in
    if code (compute_phase now) == code p then same else compute_phase now ∷ other

-- No phase of the list follows itself.
abbrev pub NoRepeat : MarketPhase → List MarketPhase → Type 0
NoRepeat p [] = Unit
NoRepeat p (q ∷ qs) = ((code q == code p) ≡ false) × NoRepeat q qs

-- Each phase to each listener, in order.
abbrev pub announced : List ℕ → List MarketPhase → List (ℕ × MarketPhase)
announced ls [] = []
announced ls (p ∷ ps) = map (λ l. (l, p)) ls ++ announced ls ps

-- The last phase of a list, or the one before it.
abbrev pub last_phase : MarketPhase → List MarketPhase → MarketPhase
last_phase p [] = p
last_phase p (q ∷ qs) = last_phase q qs

changes-NoRepeat : (p : MarketPhase) (times : List ℕ) → NoRepeat p (changes p times)
unfolding changes
changes-NoRepeat p [] = tt
changes-NoRepeat p (now ∷ times) = elim (Bool-cases (code (compute_phase now) == code p)) [
  | inl same ↦ rw same (changes-NoRepeat p times)
  | inr other ↦ rw other (other, changes-NoRepeat (compute_phase now) times)
]

append_assoc {ℓ} : {A : Type ℓ} (xs ys zs : List A) → (xs ++ ys) ++ zs ≡ xs ++ (ys ++ zs)
append_assoc [] ys zs = refl
append_assoc (x ∷ xs) ys zs = ap (λ l. x ∷ l) (append_assoc xs ys zs)

append_empty {ℓ} : {A : Type ℓ} (xs : List A) → xs ++ [] ≡ xs
append_empty [] = refl
append_empty (x ∷ xs) = ap (λ l. x ∷ l) (append_empty xs)

check_same :
    (now : ℕ) (g : Governor) → (code (compute_phase now) == code g.phase) ≡ true → check now g ≡ g
unfolding check
check_same now g h = ground (arith, h)

check_other :
    (now : ℕ) (g : Governor)
    → (code (compute_phase now) == code g.phase) ≡ false
    → check now g ≡ broadcast (compute_phase now) (record g { phase = compute_phase now })
unfolding check
check_other now g h = ground (arith, h)

changes_same :
    (p : MarketPhase) (now : ℕ) (times : List ℕ)
    → (code (compute_phase now) == code p) ≡ true
    → changes p (now ∷ times) ≡ changes p times
unfolding changes
changes_same p now times h = rw h refl

changes_other :
    (p : MarketPhase) (now : ℕ) (times : List ℕ)
    → (code (compute_phase now) == code p) ≡ false
    → changes p (now ∷ times) ≡ compute_phase now ∷ changes (compute_phase now) times
unfolding changes
changes_other p now times h = rw h refl

-- What the calls and the phase are at the end of checks from a governor that hears `heard`.
abbrev Announces : Governor → Governor → List MarketPhase → Type 0
Announces g g' heard =
    (g'.calls ≡ g.calls ++ announced g.listeners heard) × (g'.phase ≡ last_phase g.phase heard)

broadcast-Announces :
    (times : List ℕ) (g : Governor) (p : MarketPhase)
    → ((g' : Governor) → Announces g' (checks times g') (changes g'.phase times))
    → Announces g (checks times (broadcast p (record g { phase = p }))) (p ∷ changes p times)
unfolding broadcast
broadcast-Announces times g p hyp =
    let (calls, ends) = hyp (broadcast p (record g { phase = p })) in
    let heard = map (λ (l : ℕ). (l, p)) g.listeners in
    (calls ∙ append_assoc g.calls heard (announced g.listeners (changes p times)), ends)

checks-Announces :
    (times : List ℕ) (g : Governor) → Announces g (checks times g) (changes g.phase times)
unfolding checks changes
checks-Announces [] g = (sym (append_empty g.calls), refl)
checks-Announces (now ∷ times) g = elim (Bool-cases (code (compute_phase now) == code g.phase)) [
  | inl same ↦
      let ends = ap (checks times) (sym (check_same now g same)) in
      let heard = sym (changes_same g.phase now times same) in
      subst (λ e. Announces g (checks times (check now g)) e) heard
        (subst (λ e. Announces g e (changes g.phase times)) ends (checks-Announces times g))
  | inr other ↦
      let ends = ap (checks times) (sym (check_other now g other)) in
      let heard = sym (changes_other g.phase now times other) in
      subst (λ e. Announces g (checks times (check now g)) e) heard
        (subst (λ e. Announces g e (compute_phase now ∷ changes (compute_phase now) times)) ends
          (broadcast-Announces times g (compute_phase now) (checks-Announces times)))
]

-- In a run every listener is called, in the order of registration, with the phase at the start and
-- then once for each change of the phase that a check sees, with the new phase; no phase is announced
-- twice in a row, and at the end the governor has the phase that was announced last.
pub run_announces :
    (times : List ℕ) (g : Governor)
    → let heard = changes g.phase times in
      ((run times g).calls ≡ g.calls ++ announced g.listeners (g.phase ∷ heard))
      × NoRepeat g.phase heard
      × ((run times g).phase ≡ last_phase g.phase heard)
unfolding run broadcast
run_announces times g =
    let (calls, ends) = checks-Announces times (broadcast g.phase (record g { running = true })) in
    (
      calls
          ∙ append_assoc g.calls (map (λ (l : ℕ). (l, g.phase)) g.listeners)
              (announced g.listeners (changes g.phase times)),
      changes-NoRepeat g.phase times,
      ends,
    )
