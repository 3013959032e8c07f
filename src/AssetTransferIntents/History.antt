-- ===== src/AssetTransferIntents/History.antt =====
-- What becomes of each transfer when ids are made by the counter.
use solana_trading_bot.Prelude.{
  String, ℕ, sym, ◌+◌, ◌≡◌, ◌≢◌, refl, ◌∙◌, some, true, arith, Option, List, [], ◌∷◌,
}
use solana_trading_bot.Prelude.Decimal.{counter_id}
use solana_trading_bot.Ssot.{AssetTransferStatus}
use solana_trading_bot.Store.{lookup}
use solana_trading_bot.Store.Counter.{
  IsFreeAfter, empty-IsFreeAfter, next-free, insert-IsFreeAfter, made-IsFreeAfter, over-IsFreeAfter,
}
use solana_trading_bot.Store.Evolution.{
  Evolves, Evolves-refl, Evolves-trans, Evolves-insert, Evolves-insert_new,
}
use solana_trading_bot.ExecutionWalletRegistry.{Registry}
use solana_trading_bot.StatusGraph.{Reach, here, next, Reach-trans, Reach-stuck}
use solana_trading_bot.AssetTransferIntents.{
  create_asset_transfer_intents, Transfer, Transfers, allowed, owner_after,
  is_terminal_transfer_status, Call, call, run,
}
use solana_trading_bot.AssetTransferIntents.Steps.{
  requested_id, Step, unchanged, generated, named, moved, call-Step,
}
use solana_trading_bot.AssetTransferIntents.Ownership.{IsValid, Step-IsValid}

no_exit :
    (t u : AssetTransferStatus) → is_terminal_transfer_status t ≡ true → allowed t u ≡ true → t ≡ u
no_exit t u h a = ground arith

-- `q` is a later state of the transfer `p`.
pub record Follows (p q : Transfer) : Type 0 where
  pub id_kept : q.asset_transfer_intent_id ≡ p.asset_transfer_intent_id
  pub source_kept : q.source_execution_wallet_id ≡ p.source_execution_wallet_id
  pub destination_kept : q.destination_execution_wallet_id ≡ p.destination_execution_wallet_id
  pub status_reached : Reach allowed p.asset_transfer_status q.asset_transfer_status

Follows-refl : (p : Transfer) → Follows p p
Follows-refl p = record {
  id_kept = refl;
  source_kept = refl;
  destination_kept = refl;
  status_reached = here;
}

Follows-trans : (p q r : Transfer) → Follows p q → Follows q r → Follows p r
Follows-trans p q r f g = record {
  id_kept = g.id_kept ∙ f.id_kept;
  source_kept = g.source_kept ∙ f.source_kept;
  destination_kept = g.destination_kept ∙ f.destination_kept;
  status_reached = Reach-trans allowed f.status_reached g.status_reached;
}

-- No transfer stands under an id that the counter has yet to make.
abbrev pub IsFresh : Transfers → Type 0
IsFresh s = IsFreeAfter "ati-" s.seq s.by_id

pub empty-IsFresh : IsFresh create_asset_transfer_intents
empty-IsFresh = empty-IsFreeAfter Transfer "ati-" 0

-- The call asks for no id of the form that the counter makes.
abbrev pub AvoidsCounter : Option Registry × Call → Type 0
AvoidsCounter c = (n : ℕ) → requested_id c ≢ some (counter_id "ati-" n)

abbrev pub EachAvoidsCounter : List (Option Registry × Call) → Type 0
EachAvoidsCounter [] = Unit
EachAvoidsCounter (c ∷ cs) = AvoidsCounter c × EachAvoidsCounter cs

pub Step-IsFresh :
    {o : Option String} {s t : Transfers}
    → Step o s t
    → ((n : ℕ) → o ≢ some (counter_id "ati-" n))
    → IsValid s
    → IsFresh s
    → IsFresh t
Step-IsFresh {s} (unchanged e q) avoid valid f = rw (e, q) f
Step-IsFresh {s} (generated source destination differ e q) avoid valid f =
    rw (e, q) (made-IsFreeAfter "ati-" s.seq _ s.by_id f)
Step-IsFresh {s} (named id source destination asked fresh differ e q) avoid valid f =
    rw (e, q)
      (insert-IsFreeAfter "ati-" s.seq id _ s.by_id f (λ n h same. avoid n (rw (← same) asked)))
Step-IsFresh {s} (moved id cur to found edge e q) avoid valid f =
    rw (e, q, (valid id cur found).keyed) (over-IsFreeAfter "ati-" s.seq id cur _ s.by_id f found)

Step-Evolves :
    {o : Option String} {s t : Transfers}
    → Step o s t
    → IsValid s
    → IsFresh s
    → Evolves Follows s.by_id t.by_id
Step-Evolves {s} (unchanged e q) valid f = rw e (Evolves-refl Follows Follows-refl s.by_id)
Step-Evolves {s} (generated source destination differ e q) valid f = rw e (
    Evolves-insert_new Follows Follows-refl (counter_id "ati-" (s.seq + 1)) _ s.by_id
      (next-free "ati-" s.seq s.by_id f))
Step-Evolves {s} (named id source destination asked fresh differ e q) valid f =
    rw e (Evolves-insert_new Follows Follows-refl id _ s.by_id fresh)
Step-Evolves {s} (moved id cur to found edge e q) valid f =
    let g : Follows cur
        (record cur { asset_transfer_status = to; position_owner_wallet_id = owner_after to cur }) =
      record {
        id_kept = refl;
        source_kept = refl;
        destination_kept = refl;
        status_reached = next here edge;
      } in
    rw e (
      Evolves-insert Follows Follows-refl cur.asset_transfer_intent_id cur _ s.by_id
        (simp (valid id cur found).keyed found) g)

-- While no call asks for an id of the form `ati-<n>`, every transfer of a valid component is still there
-- after any calls, between the same two wallets, with a status that the graph reaches from the old
-- one.
pub transfers_evolve :
    (s : Transfers) (cs : List (Option Registry × Call))
    → IsValid s
    → IsFresh s
    → EachAvoidsCounter cs
    → Evolves Follows s.by_id (run s cs).by_id
unfolding run
transfers_evolve s [] valid f avoid = Evolves-refl Follows Follows-refl s.by_id
transfers_evolve s (c ∷ cs) valid f avoid =
    let st = call-Step s c in
    Evolves-trans Follows Follows-trans s.by_id (call s c).by_id (run (call s c) cs).by_id
      (Step-Evolves st valid f)
      (transfers_evolve (call s c) cs (Step-IsValid st valid) (Step-IsFresh st avoid.0 valid f)
        avoid.1)

-- A confirmed, failed or cancelled transfer of a valid component keeps its status after any calls none
-- of which asks for an id of the form `ati-<n>`.
pub settled_for_good :
    (s : Transfers) (cs : List (Option Registry × Call)) (id : String) (p : Transfer)
    → IsValid s
    → IsFresh s
    → EachAvoidsCounter cs
    → lookup id s.by_id ≡ some p
    → is_terminal_transfer_status p.asset_transfer_status ≡ true
    → (q : Transfer) × (lookup id (run s cs).by_id ≡ some q)
      × (q.asset_transfer_status ≡ p.asset_transfer_status)
settled_for_good s cs id p valid f avoid found over =
    let (q, there, g) = transfers_evolve s cs valid f avoid id p found in
    (q, there, sym (Reach-stuck allowed is_terminal_transfer_status no_exit over g.status_reached))
