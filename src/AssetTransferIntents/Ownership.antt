-- ===== src/AssetTransferIntents/Ownership.antt =====
-- Who owns the position of a transfer, over any sequence of calls.
use solana_trading_bot.Prelude.{String, ◌≡◌, ◌≢◌, refl, true, arith, Option, List, [], ◌∷◌}
use solana_trading_bot.Ssot.{AssetTransferStatus}
use solana_trading_bot.Store.Evolution.{Every, Every-insert}
use solana_trading_bot.ExecutionWalletRegistry.{Registry}
use solana_trading_bot.AssetTransferIntents.{
  Transfer, Transfers, allowed, owner_after, pending_transfer, Call, call, run,
}
use solana_trading_bot.AssetTransferIntents.Steps.{
  Step, unchanged, generated, named, moved, call-Step,
}

-- The destination owns the position once the transfer is confirmed, and the source until then.
abbrev pub owner_by_status : AssetTransferStatus → String → String → String
owner_by_status AssetTransferStatus.confirmed source destination = destination
owner_by_status _ source destination = source

pub record IsSound (key : String) (t : Transfer) : Type 0 where
  pub keyed : t.asset_transfer_intent_id ≡ key
  pub differ : t.source_execution_wallet_id ≢ t.destination_execution_wallet_id
  pub owner :
      t.position_owner_wallet_id
      ≡ owner_by_status t.asset_transfer_status t.source_execution_wallet_id
          t.destination_execution_wallet_id

abbrev pub IsValid : Transfers → Type 0
IsValid s = Every IsSound s.by_id

pending-IsSound :
    (id source destination : String)
    → source ≢ destination
    → IsSound id (pending_transfer id source destination)
pending-IsSound id source destination h = record { keyed = refl; differ = h; owner = refl }

moved-IsSound :
    (key : String) (cur : Transfer) (to : AssetTransferStatus)
    → IsSound key cur
    → allowed cur.asset_transfer_status to ≡ true
    → IsSound cur.asset_transfer_intent_id
        (record cur { asset_transfer_status = to; position_owner_wallet_id = owner_after to cur })
moved-IsSound key cur to h edge = record { keyed = refl; differ = h.differ; owner = ground arith }

pub Step-IsValid : {o : Option String} {s t : Transfers} → Step o s t → IsValid s → IsValid t
Step-IsValid (unchanged e n) h = rw e h
Step-IsValid {s} (generated source destination differ e n) h =
    rw e (Every-insert IsSound _ _ s.by_id h (pending-IsSound _ source destination differ))
Step-IsValid {s} (named id source destination asked fresh differ e n) h =
    rw e (Every-insert IsSound _ _ s.by_id h (pending-IsSound id source destination differ))
Step-IsValid {s} (moved id cur to found edge e n) h =
    rw e (Every-insert IsSound _ _ s.by_id h (moved-IsSound id cur to (h id cur found) edge))

-- After any sequence of calls, with whatever registries they meet, every transfer stands under its id
-- between two different wallets, and the destination wallet owns its position exactly if the
-- transfer is confirmed; in every other status the source wallet owns it.
pub ownership_flips-IsValid :
    (s : Transfers) (cs : List (Option Registry × Call)) → IsValid s → IsValid (run s cs)
unfolding run
ownership_flips-IsValid s [] h = h
ownership_flips-IsValid s (c ∷ cs) h =
    ownership_flips-IsValid (call s c) cs (Step-IsValid (call-Step s c) h)
