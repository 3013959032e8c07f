-- ===== src/AssetTransferIntents/Acceptance.antt =====
-- What an accepted create has passed, and what it leaves behind.
use solana_trading_bot.Prelude.{
  String, ◌+◌, ◌≡◌, refl, none, some, true, arith, is_str, Option, inl, inr, Option-cases, is_ok,
  ok,
}
use solana_trading_bot.Prelude.Decimal.{counter_id}
use solana_trading_bot.Store.{lookup, lookup-insert_self}
use solana_trading_bot.ExecutionWalletRegistry.{Registry}
use solana_trading_bot.AssetTransferIntents.{
  Transfers, CreateRequest, log_and_answer, pending_transfer, store_pending, check_wallets,
  create_asset_transfer_intent,
}
use solana_trading_bot.AssetTransferIntents.Collision.{Passes, create_stored}

pub create_ok-Passes :
    (registry : Option Registry) (s : Transfers) (req : CreateRequest) (source destination : String)
    → is_str req.source_execution_wallet_id ≡ some source
    → is_str req.destination_execution_wallet_id ≡ some destination
    → is_ok (create_asset_transfer_intent registry s req).1 ≡ true
    → Passes registry s req source destination
unfolding create_asset_transfer_intent check_wallets log_and_answer
create_ok-Passes registry s req source destination from to h =
    elim (Option-cases (is_str req.context.audit_actor)) [
      | inl anonymous ↦ absurd (ground arith)
      | inr (actor, a) ↦ record {
        actor = (λ e. cc);
        admin = ground arith;
        unspent = ground arith;
        from = from;
        to = to;
        differ = ground arith;
        owner = ground arith;
        eligible = ground arith;
      }
    ]

create_ok-id :
    (registry : Option Registry) (s : Transfers) (req : CreateRequest)
    (source destination id : String)
    → Passes registry s req source destination
    → is_str req.asset_transfer_intent_id ≡ none
    → (create_asset_transfer_intent registry s req).1 ≡ ok id
    → id ≡ counter_id "ati-" (s.seq + 1)
unfolding create_asset_transfer_intent check_wallets store_pending log_and_answer
create_ok-id registry s req source destination id p anonymous accepted =
    elim (Option-cases (is_str req.context.audit_actor)) [
      | inl missing ↦ absurd (p.actor missing)
      | inr (actor, a) ↦
          let admin = p.admin in
          let unspent = p.unspent in
          let from = p.from in
          let to = p.to in
          let differ = p.differ in let owner = p.owner in let eligible = p.eligible in ground arith
    ]

-- An accepted create without an id stores the pending transfer under the id that it answers.
pub create_ok-stored :
    (registry : Option Registry) (s : Transfers) (req : CreateRequest)
    (source destination id : String)
    → is_str req.source_execution_wallet_id ≡ some source
    → is_str req.destination_execution_wallet_id ≡ some destination
    → is_str req.asset_transfer_intent_id ≡ none
    → (create_asset_transfer_intent registry s req).1 ≡ ok id
    → lookup id (create_asset_transfer_intent registry s req).0.by_id
      ≡ some (pending_transfer id source destination)
create_ok-stored registry s req source destination id from to anonymous accepted =
    let p = create_ok-Passes registry s req source destination from to (rw accepted refl) in
    let named = create_ok-id registry s req source destination id p anonymous accepted in
    rw (create_stored registry s req source destination p anonymous, named)
      (lookup-insert_self (counter_id "ati-" (s.seq + 1)) _ s.by_id)

-- An accepted create names both wallets.
pub create_ok-named :
    (registry : Option Registry) (s : Transfers) (req : CreateRequest)
    → is_ok (create_asset_transfer_intent registry s req).1 ≡ true
    → (source : String) × (destination : String) × (is_str req.source_execution_wallet_id
        ≡ some source)
      × (is_str req.destination_execution_wallet_id ≡ some destination)
unfolding create_asset_transfer_intent log_and_answer
create_ok-named registry s req h = elim (Option-cases (is_str req.source_execution_wallet_id)) [
  | inl missing ↦ absurd (ground arith)
  | inr (source, from) ↦ elim (Option-cases (is_str req.destination_execution_wallet_id)) [
    | inl missing ↦ absurd (ground arith)
    | inr (destination, to) ↦ (source, destination, from, to)
  ]
]
