-- ===== src/WalletRotation/Journey.antt =====
-- What becomes of each rotation over any sequence of calls.
use solana_trading_bot.Prelude.{
  String, ◌+◌, ◌≡◌, refl, sym, ◌∙◌, some, true, arith, List, [], ◌∷◌, Bool,
}
use solana_trading_bot.Prelude.Decimal.{counter_id}
use solana_trading_bot.Ssot.{WalletRotationStatus}
use solana_trading_bot.Store.{lookup}
use solana_trading_bot.Store.Counter.{IsFreeAfter, next-free, made-IsFreeAfter, over-IsFreeAfter}
use solana_trading_bot.Store.Evolution.{
  Every, Every-insert, Evolves, Evolves-refl, Evolves-trans, Evolves-insert, Evolves-insert_new,
}
use solana_trading_bot.StatusGraph.{Reach, here, next, Reach-trans, Reach-stuck}
use solana_trading_bot.WalletRotation.{Rotation, World, allowed, is_terminal_rotation_status}
use solana_trading_bot.WalletRotation.Completion.{Call, call, run}
use solana_trading_bot.WalletRotation.Steps.{Step, unchanged, added, moved}
use solana_trading_bot.WalletRotation.Advance.{call-Step}

no_exit :
    (t u : WalletRotationStatus) → is_terminal_rotation_status t ≡ true → allowed t u ≡ true → t ≡ u
no_exit t u h a = ground arith

-- `q` is a later state of the rotation `p`.
pub record Follows (p q : Rotation) : Type 0 where
  pub id_kept : q.id ≡ p.id
  pub trigger_kept : q.rotation_trigger ≡ p.rotation_trigger
  pub from_kept : q.rotation_from_execution_wallet_id ≡ p.rotation_from_execution_wallet_id
  pub to_kept : q.rotation_to_execution_wallet_id ≡ p.rotation_to_execution_wallet_id
  pub status_reached : Reach allowed p.wallet_rotation_status q.wallet_rotation_status

Follows-refl : (p : Rotation) → Follows p p
Follows-refl p = record {
  id_kept = refl;
  trigger_kept = refl;
  from_kept = refl;
  to_kept = refl;
  status_reached = here;
}

Follows-trans : (p q r : Rotation) → Follows p q → Follows q r → Follows p r
Follows-trans p q r f g = record {
  id_kept = g.id_kept ∙ f.id_kept;
  trigger_kept = g.trigger_kept ∙ f.trigger_kept;
  from_kept = g.from_kept ∙ f.from_kept;
  to_kept = g.to_kept ∙ f.to_kept;
  status_reached = Reach-trans allowed f.status_reached g.status_reached;
}

-- Every rotation stands under its id, and the ids that the counter has yet to make are free.
pub record IsValid (v : World) : Type 0 where
  pub keyed : Every (λ k r. r.id ≡ k) v.by_id
  pub free : IsFreeAfter "rot-" v.seq v.by_id

Step-IsValid : {v w : World} → Step v w → IsValid v → IsValid w
Step-IsValid {v} (unchanged e n) h = record { keyed = rw e h.keyed; free = rw (e, n) h.free }
Step-IsValid {v} (added trigger from to e n) h = record {
  keyed = rw e (Every-insert (λ k r. r.id ≡ k) _ _ v.by_id h.keyed refl);
  free = rw (e, n) (made-IsFreeAfter "rot-" v.seq _ v.by_id h.free);
}
Step-IsValid {v} (moved key cur to intent found edge e n) h = record {
  keyed = rw e (Every-insert (λ k r. r.id ≡ k) cur.id _ v.by_id h.keyed refl);
  free =
      rw (e, n, h.keyed key cur found)
        (over-IsFreeAfter "rot-" v.seq key cur _ v.by_id h.free found);
}

Step-Evolves : {v w : World} → Step v w → IsValid v → Evolves Follows v.by_id w.by_id
Step-Evolves {v} (unchanged e n) h = rw e (Evolves-refl Follows Follows-refl v.by_id)
Step-Evolves {v} (added trigger from to e n) h = rw e (
    Evolves-insert_new Follows Follows-refl (counter_id "rot-" (v.seq + 1)) _ v.by_id
      (next-free "rot-" v.seq v.by_id h.free))
Step-Evolves {v} (moved key cur to intent found edge e n) h =
    let g : Follows cur
        (record cur { wallet_rotation_status = to; asset_transfer_intent_id = intent }) =
      record {
        id_kept = refl;
        trigger_kept = refl;
        from_kept = refl;
        to_kept = refl;
        status_reached = next here edge;
      } in
    rw e (
      Evolves-insert Follows Follows-refl cur.id cur _ v.by_id (simp (h.keyed key cur found) found)
        g)

-- Every rotation of a valid world is still there after any calls of the four methods, with its trigger and
-- its two wallets, and its status is one that the graph reaches from the old one.
pub rotations_evolve :
    (coupled : Bool) (v : World) (cs : List Call)
    → IsValid v
    → Evolves Follows v.by_id (run coupled v cs).by_id
unfolding run
rotations_evolve coupled v [] h = Evolves-refl Follows Follows-refl v.by_id
rotations_evolve coupled v (c ∷ cs) h =
    let st = call-Step coupled v c in
    Evolves-trans Follows Follows-trans v.by_id (call coupled v c).by_id
      (run coupled (call coupled v c) cs).by_id (Step-Evolves st h)
      (rotations_evolve coupled (call coupled v c) cs (Step-IsValid st h))

-- A completed or failed rotation of a valid world keeps its status whatever is called.
pub finished_for_good :
    (coupled : Bool) (v : World) (cs : List Call) (key : String) (r : Rotation)
    → IsValid v
    → lookup key v.by_id ≡ some r
    → is_terminal_rotation_status r.wallet_rotation_status ≡ true
    → (q : Rotation) × (lookup key (run coupled v cs).by_id ≡ some q)
      × (q.wallet_rotation_status ≡ r.wallet_rotation_status)
finished_for_good coupled v cs key r h found over =
    let (q, there, f) = rotations_evolve coupled v cs h key r found in
    (q, there, sym (Reach-stuck allowed is_terminal_rotation_status no_exit over f.status_reached))
