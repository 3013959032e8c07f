-- ===== src/ExitManager.antt =====
-- packages/exit-manager/src/exit-manager.mjs: a preview of positions to exit, and a request that makes an
-- intent for each. The factory may be given the intent ledger and the position lifecycle; a call gets
-- them as they are then and answers with the ledger as it leaves it.
pub mod Requests
pub mod Consumption
pub mod Submission
mod Examples
use solana_trading_bot.Prelude.{
  String, ℕ, Bool, true, false, ◌+◌, List, [], ◌∷◌, Option, none, some, if◌then◌else◌, Arg, absent,
  given, foreign, includes, is_str, template, map, Reply, is_ok, refused, ok,
}
use solana_trading_bot.Prelude.Decimal.{decimal, counter_id}
use solana_trading_bot.Ssot.{PositionState, IntentType}
use solana_trading_bot.Store.{Store, lookup, insert}
use solana_trading_bot.PositionLifecycle.{Lifecycle}
use solana_trading_bot.IntentLedger.{IntentLedger, NewIntent, create}

-- The id of a position: a text, or another value, by what a template shows for it.
pub data ItemId : Type 0 where
  text other : String → ItemId

abbrev pub shown : ItemId → String
shown (text s) = s
shown (other s) = s

-- `position_state`: no text or an empty one, a text that is no position state, or a position state.
pub data StateField : Type 0 where
  no_text other_text : StateField
  state : PositionState → StateField

-- A position of the argument; what is no object has no state and its own id.
pub record Item : Type 0 where
  pub id : ItemId
  pub position_state : StateField

pub data PreviewStatus : Type 0 where
  eligible blocked stale : PreviewStatus

pub record PreviewItem : Type 0 where
  pub id : ItemId
  pub preview_status : PreviewStatus

pub record Preview : Type 0 where
  pub items : List PreviewItem
  pub consumed : Bool

pub record Manager : Type 0 where
  pub previews : Store Preview
  pub preview_seq : ℕ
  pub intent_seq : ℕ

abbrev pub create_exit_manager : Manager
create_exit_manager = record { previews = []; preview_seq = 0; intent_seq = 0 }

-- `previewItemStatus`, with EXITABLE and TERMINAL.
abbrev pub status_of_state : PositionState → PreviewStatus
status_of_state PositionState.opened = eligible
status_of_state PositionState.partially_exiting = eligible
status_of_state PositionState.exit_pending = eligible
status_of_state PositionState.mirror_sell_pending = eligible
status_of_state PositionState.migration_pending = eligible
status_of_state PositionState.closed = blocked
status_of_state PositionState.closed_with_dust = blocked
status_of_state PositionState.failed_entry = blocked
status_of_state _ = stale

abbrev pub preview_item_status : Option PositionState → PreviewStatus
preview_item_status none = stale
preview_item_status (some s) = status_of_state s

-- `lifecycle.get(item.id)`, by its state.
abbrev pub state_in : Option Lifecycle → ItemId → Option PositionState
state_in (some lifecycle) (text id) = elim (is_str (given id)) [
  | none ↦ none
  | some key ↦ elim (lookup key lifecycle.by_id) [ none ↦ none | some p ↦ some p.position_state ]
]
state_in _ _ = none

-- `resolveState`; `none` is null or a text that is no position state.
abbrev pub resolve_state : Option Lifecycle → Item → Option PositionState
resolve_state lifecycle item = elim item.position_state [
  | state s ↦ some s
  | other_text ↦ none
  | no_text ↦ state_in lifecycle item.id
]

abbrev pub preview_of : Option Lifecycle → Item → PreviewItem
preview_of lifecycle item = record {
  id = item.id;
  preview_status = preview_item_status (resolve_state lifecycle item);
}

-- `previewBatchExit`; what is no array is an empty list.
unfoldable pub preview_batch_exit :
    Manager → Option Lifecycle → List Item → Manager × (String × List PreviewItem)
preview_batch_exit m lifecycle positions =
    let items = map (preview_of lifecycle) positions in
    let preview_id = counter_id "preview-" (m.preview_seq + 1) in
    (
      record m {
        previews = insert preview_id (record { items = items; consumed = false }) m.previews;
        preview_seq = m.preview_seq + 1;
      },
      (preview_id, items),
    )
