-- ===== src/Execution/SafeActions/RiskState.antt =====
-- services/shared/risk_state.py and safe_action_dynamo_writer.py: the items of the risk-state table
-- that the safe actions write, and what they rely on of the table. The table itself is DynamoDB: a read by
-- key, an unconditional put, and a put under `attribute_not_exists(SK)`, each atomic.
use quant_embrace_v.Common.{
  ℕ, Bool, true, false, not, Option, none, some, ◌&&◌, ◌==◌, ◌≡◌, is_some, if◌then◌else◌,
}
use quant_embrace_v.Execution.Orders.Database.{Fate, answered, lost_before, lost_after}

-- `KILLSWITCH/GLOBAL`, `ENTRY_BLOCK/GLOBAL` and `SAFE_ACTION_IDEMPOTENCY/{key}`.
pub data Key : Type 0 where
  kill_switch_key entry_block_key : Key
  idempotency : ℕ → Key

abbrev pub key_eq : Key → Key → Bool
key_eq kill_switch_key kill_switch_key = true
key_eq kill_switch_key entry_block_key = false
key_eq kill_switch_key (idempotency k) = false
key_eq entry_block_key kill_switch_key = false
key_eq entry_block_key entry_block_key = true
key_eq entry_block_key (idempotency k) = false
key_eq (idempotency j) kill_switch_key = false
key_eq (idempotency j) entry_block_key = false
key_eq (idempotency j) (idempotency k) = j == k

-- A text, or none for the empty one.
abbrev pub Text : Type 0
Text = Option ℕ

pub record KillSwitchItem : Type 0 where
  pub active : Bool
  pub reason : Text
  pub activated_by : ℕ
  pub updated_at : ℕ
  pub activated_at : Option ℕ
  pub deactivated_at : Option ℕ
  pub detail : Option (ℕ × ℕ)  -- the action's id and its idempotency key

pub record EntryBlockItem : Type 0 where
  pub blocked : Bool
  pub reason : Text
  pub action_id : ℕ
  pub idempotency_key : ℕ
  pub created_at : ℕ

pub record Claim : Type 0 where
  pub action_id : ℕ
  pub created_at : ℕ

pub data Item : Type 0 where
  kill_switch_row : KillSwitchItem → Item
  entry_block_row : EntryBlockItem → Item
  claim_row : Claim → Item

abbrev or_value : Option ℕ → ℕ → ℕ
or_value none d = d
or_value (some v) d = v

unfoldable pub kill_switch_item :
    Bool → Text → ℕ → ℕ → Option ℕ → Option ℕ → Option (ℕ × ℕ) → KillSwitchItem
kill_switch_item active reason by updated_at activated_at deactivated_at detail = record {
  active = active;
  reason = reason;
  activated_by = by;
  updated_at = updated_at;
  activated_at = if active then some (or_value activated_at updated_at) else none;
  deactivated_at = if active then none else some (or_value deactivated_at updated_at);
  detail = detail;
}

unfoldable pub entry_block_item : Bool → Text → ℕ → ℕ → ℕ → EntryBlockItem
entry_block_item blocked reason action_id key created_at = record {
  blocked = blocked;
  reason = reason;
  action_id = action_id;
  idempotency_key = key;
  created_at = created_at;
}

pub record RiskTable : Type 1 where
  pub Table : Type 0
  pub get_item : Table → Key → Option Item
  pub put_item : Key → Item → Table → Table
  pub put_absent : Key → Item → Table → Bool × Table
  pub get_item-put_item :
      (k : Key) (i : Item) (t : Table) (j : Key)
      → get_item (put_item k i t) j ≡ (if key_eq k j then some i else get_item t j)
  pub put_absent_reply :
      (k : Key) (i : Item) (t : Table) → (put_absent k i t).0 ≡ not (is_some (get_item t k))
  pub get_item-put_absent :
      (k : Key) (i : Item) (t : Table) (j : Key)
      → get_item (put_absent k i t).1 j
        ≡ (if not (is_some (get_item t k)) && key_eq k j then some i else get_item t j)

-- What a `put` gives its caller: whether it returned, and the table. After an error it may stand.
abbrev pub put_seen : {T : Type 0} → Fate → T → T → Bool × T
put_seen answered before after = (true, after)
put_seen lost_before before after = (false, before)
put_seen lost_after before after = (false, after)

-- `safe_actions`, the `activated_by` of the writer.
abbrev pub safe_actions : ℕ
safe_actions = 0

module _ (db : RiskTable) where
  open db use {Table, put_item}

  unfoldable pub write_block_new_entries : ℕ → ℕ → Text → ℕ → Fate → Table → Bool × Table
  unfolding entry_block_item
  write_block_new_entries id key reason now fate t =
      put_seen fate t
        (put_item entry_block_key (entry_block_row (entry_block_item true reason id key now)) t)

  unfoldable pub write_kill_switch_active : ℕ → ℕ → Text → ℕ → Fate → Table → Bool × Table
  unfolding kill_switch_item
  write_kill_switch_active id key reason now fate t = put_seen fate t (
      put_item kill_switch_key
        (kill_switch_row
          (kill_switch_item true reason safe_actions now (some now) none (some (id, key))))
        t)
