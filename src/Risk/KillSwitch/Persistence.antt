-- ===== src/Risk/KillSwitch/Persistence.antt =====
-- What killswitch.py keeps over calls and over a restart.
use quant_embrace_v.Common.{All, ℕ, ◌≡◌, refl, Bool, true, false, none, some, List, [], ◌∷◌, arith}
use quant_embrace_v.Execution.Orders.Database.{Fate, answered, lost_before, lost_after}
use quant_embrace_v.Execution.SafeActions.RiskState.{
  claim_row, Text, KillSwitchItem, kill_switch_row, kill_switch_item, kill_switch_key, RiskTable,
}
use quant_embrace_v.Execution.SafeActions.Authority.{is_active}
use quant_embrace_v.Execution.SafeActions.Models.{activate_kill_switch}
use quant_embrace_v.Execution.SafeActions.Executor
use quant_embrace_v.Execution.SafeActions.Executor.{Executor, execute}
use quant_embrace_v.Execution.SafeActions.Authority.{history, nothing_is_cleared}
use quant_embrace_v.Execution.SafeActions.Audit.{executed_is_written}
use quant_embrace_v.Risk.KillSwitch.{
  nobody, KillSwitch, new, persist_state, activate, deactivate, load_state, read_state, take_state,
}

-- A call of one of the methods, with the instant and the fate of its request. No other method runs
-- between the read of a load and its end.
pub data Call : Type 0 where
  activates : Text → ℕ → ℕ → Fate → Call
  deactivates : ℕ → Fate → Call
  loads : Fate → Call

abbrev is_answered : Fate → Bool
is_answered answered = true
is_answered lost_before = false
is_answered lost_after = false

abbrev fate_of : Call → Fate
fate_of (activates reason by now fate) = fate
fate_of (deactivates now fate) = fate
fate_of (loads fate) = fate

abbrev pub Answered : Call → Type 0
Answered c = is_answered (fate_of c) ≡ true

-- Neither a deactivation nor a read that tells anything.
abbrev pub IsHarmless : Call → Type 0
IsHarmless (activates reason by now fate) = Unit
IsHarmless (deactivates now fate) = ⊥
IsHarmless (loads fate) = is_answered fate ≡ false

module _ (db : RiskTable) where
  open db use {Table, get_item, get_item-put_item}

  unfoldable pub perform : Call → KillSwitch → Table → KillSwitch × Table
  perform (activates reason by now fate) k t = activate db reason by now fate k t
  perform (deactivates now fate) k t = deactivate db now fate k t
  perform (loads fate) k t = (load_state db fate k t, t)

  unfoldable pub perform_all : List Call → KillSwitch → Table → KillSwitch × Table
  perform_all [] k t = (k, t)
  perform_all (c ∷ cs) k t = let (k', t') = perform c k t in perform_all cs k' t'

  -- What a fresh instance would load is what this one knows.
  abbrev pub IsSaved : KillSwitch → Table → Type 0
  IsSaved k t =
      let fresh = load_state db answered new t in
      (fresh.active ≡ k.active) × (fresh.reason ≡ k.reason) × (fresh.activated_at ≡ k.activated_at)

  perform-IsSaved :
      (c : Call) (k : KillSwitch) (t : Table)
      → Answered c
      → IsSaved k t
      → IsSaved (perform c k t).0 (perform c k t).1
  unfolding perform activate deactivate load_state persist_state kill_switch_item new
  perform-IsSaved (activates reason by now fate) k t h saved =
      let i = kill_switch_item true reason by now (some now) none none in
      ground (arith, get_item-put_item kill_switch_key (kill_switch_row i) t kill_switch_key)
  perform-IsSaved (deactivates now fate) k t h saved =
      let i = kill_switch_item false none nobody now none (some now) none in
      ground (arith, get_item-put_item kill_switch_key (kill_switch_row i) t kill_switch_key)
  perform-IsSaved (loads fate) k t h saved = ground arith

  -- A restart forgets nothing: after any calls one after the other, a load without another method
  -- between its read and its end, whose requests are answered, on a switch that is saved in the table,
  -- a fresh instance that loads has the same state, reason and time.
  pub restart_restores :
      (cs : List Call) (k : KillSwitch) (t : Table)
      → All Answered cs
      → IsSaved k t
      → IsSaved (perform_all cs k t).0 (perform_all cs k t).1
  unfolding perform_all
  restart_restores [] k t h saved = saved
  restart_restores (c ∷ cs) k t h saved =
      restart_restores cs (perform c k t).0 (perform c k t).1 h.1 (perform-IsSaved c k t h.0 saved)

  -- A load that has read an inactive row before an activation, and ends after it, makes the switch
  -- inactive again, although the activation was answered and the row is active.
  pub stale_load_undoes :
      (reason : Text) (by now : ℕ) (i : KillSwitchItem) (k : KillSwitch) (t : Table)
      → get_item t kill_switch_key ≡ some (kill_switch_row i)
      → i.active ≡ false
      → k.active ≡ false
      → let read = read_state db answered t in
        let (k', t') = activate db reason by now answered k t in
        (k'.active ≡ true)
        × ((take_state db read k').active ≡ false)
        × (is_active (get_item t' kill_switch_key) ≡ true)
  unfolding activate persist_state kill_switch_item
  stale_load_undoes reason by now i k t row off idle =
      let written = kill_switch_item true reason by now (some now) none none in
      ground (
        arith,
        row,
        off,
        idle,
        get_item-put_item kill_switch_key (kill_switch_row written) t kill_switch_key,
      )

  perform_holds :
      (c : Call) (k : KillSwitch) (t : Table)
      → IsHarmless c
      → k.active ≡ true
      → perform c k t ≡ (k, t)
  unfolding perform activate load_state
  perform_holds (activates reason by now fate) k t h on = ground arith
  perform_holds (deactivates now fate) k t h on = absurd h
  perform_holds (loads answered) k t h on = ground arith
  perform_holds (loads lost_before) k t h on = refl
  perform_holds (loads lost_after) k t h on = refl

  -- A halt holds: once the switch is active, further activations and failed reads change nothing,
  -- neither its reason and time nor the table, and send no message.
  pub halt_holds :
      (cs : List Call) (k : KillSwitch) (t : Table)
      → All IsHarmless cs
      → k.active ≡ true
      → perform_all cs k t ≡ (k, t)
  unfolding perform_all
  halt_holds [] k t h on = refl
  halt_holds (c ∷ cs) k t h on =
      let same = perform_holds c k t h.0 on in rw same (halt_holds cs k t h.1 on)

  load_active :
      (k : KillSwitch) (t : Table)
      → is_active (get_item t kill_switch_key) ≡ true
      → (load_state db answered k t).active ≡ true
  unfolding load_state
  load_active k t h = ground arith

  -- The two writers of the row agree: when the safe actions report that they have activated the
  -- kill switch, the next answered load of the risk engine finds it active, whatever calls of the
  -- safe actions come between.
  pub safe_action_halts :
      (c : Executor.Call) (ex : Executor) (between : List (Executor × Executor.Call))
      (k : KillSwitch) (t : Table)
      → c.action.action_type ≡ activate_kill_switch
      → (execute db c ex t).result.executed ≡ true
      → (load_state db answered k (history db between (execute db c ex t).table)).active ≡ true
  safe_action_halts c ex between k t kills ran =
      let after = (execute db c ex t).table in
      let later = history db between after in
      load_active k later (
        ground (
          arith,
          kills,
          ran,
          (executed_is_written db c ex t).1,
          (nothing_is_cleared db between after 0
              (claim_row (record { action_id = 0; created_at = 0 }))).0,
        ))
