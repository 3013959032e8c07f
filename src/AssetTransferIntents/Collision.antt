-- ===== src/AssetTransferIntents/Collision.antt =====
-- An id that a caller chose can be the one that the counter makes next.
use solana_trading_bot.Prelude.{
  String, ◌+◌, ◌≡◌, ◌≢◌, none, some, true, false, arith, is_str, same_text, str_eq, Option,
  Option-cases, refl, sym, ◌∙◌, inl, inr,
}
use solana_trading_bot.Prelude.Decimal.{counter_id}
use mathlib.Core.Option.{some-injective}
use solana_trading_bot.Ssot.{AssetTransferStatus}
use solana_trading_bot.Store.{lookup, insert, lookup-insert_self}
use solana_trading_bot.ExecutionWalletRegistry.{Registry}
use solana_trading_bot.AssetTransferIntents.{
  Transfer, Transfers, CreateRequest, log_and_answer, destination_eligible, is_taken,
  pending_transfer, store_pending, check_wallets, create_asset_transfer_intent,
}

pending_ne_confirmed :
    (id source destination : String) (old : Transfer)
    → some (pending_transfer id source destination) ≡ some old
    → old.asset_transfer_status ≢ AssetTransferStatus.confirmed
pending_ne_confirmed id source destination old same confirmed =
    let q = some-injective _ _ same in
    let pending_too : old.asset_transfer_status ≡ AssetTransferStatus.pending = rw (← q) refl in cc

-- The checks that a create has to pass, for a source and a destination that it names.
pub record Passes (registry : Option Registry) (s : Transfers) (req : CreateRequest)
    (source destination : String) : Type 0 where
  pub actor : is_str req.context.audit_actor ≢ none
  pub admin : same_text req.context.permission_role "admin" ≡ true
  pub unspent : is_taken (is_str req.context.idempotency_key) s.by_idempotency ≡ false
  pub from : is_str req.source_execution_wallet_id ≡ some source
  pub to : is_str req.destination_execution_wallet_id ≡ some destination
  pub differ : str_eq source destination ≡ false
  pub owner : same_text req.position_owner_wallet_id source ≡ true
  pub eligible : destination_eligible registry destination ≡ true

pub create_stored :
    (registry : Option Registry) (s : Transfers) (req : CreateRequest) (source destination : String)
    → Passes registry s req source destination
    → is_str req.asset_transfer_intent_id ≡ none
    → (create_asset_transfer_intent registry s req).0.by_id
      ≡ insert
          (counter_id "ati-" (s.seq + 1))
          (pending_transfer (counter_id "ati-" (s.seq + 1)) source destination)
          s.by_id
unfolding create_asset_transfer_intent check_wallets store_pending log_and_answer
create_stored registry s req source destination p anonymous =
    elim (Option-cases (is_str req.context.audit_actor)) [
      | inl missing ↦ absurd (p.actor missing)
      | inr (actor, a) ↦
          let admin = p.admin in
          let unspent = p.unspent in
          let from = p.from in
          let to = p.to in
          let differ = p.differ in let owner = p.owner in let eligible = p.eligible in ground arith
    ]

-- A create without an id that passes every check stores its new pending transfer under the counter's
-- next id, also when a confirmed transfer stands there: that one is no longer what the id finds.
pub counter_overwrites :
    (registry : Option Registry) (s : Transfers) (req : CreateRequest) (source destination : String)
    (old : Transfer)
    → Passes registry s req source destination
    → is_str req.asset_transfer_intent_id ≡ none
    → lookup (counter_id "ati-" (s.seq + 1)) s.by_id ≡ some old
    → old.asset_transfer_status ≡ AssetTransferStatus.confirmed
    → lookup (counter_id "ati-" (s.seq + 1)) (create_asset_transfer_intent registry s req).0.by_id
        ≡ some (pending_transfer (counter_id "ati-" (s.seq + 1)) source destination)
      × lookup (counter_id "ati-" (s.seq + 1)) (create_asset_transfer_intent registry s req).0.by_id
        ≢ some old
counter_overwrites registry s req source destination old p anonymous taken confirmed =
    let stored : lookup (counter_id "ati-" (s.seq + 1))
          (create_asset_transfer_intent registry s req).0.by_id
        ≡ some (pending_transfer (counter_id "ati-" (s.seq + 1)) source destination) =
      rw (create_stored registry s req source destination p anonymous)
        (lookup-insert_self (counter_id "ati-" (s.seq + 1)) _ s.by_id) in
    (
      stored,
      λ kept.
          pending_ne_confirmed (counter_id "ati-" (s.seq + 1)) source destination old
            (sym stored ∙ kept) confirmed,
    )
