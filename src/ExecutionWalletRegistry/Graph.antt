-- ===== src/ExecutionWalletRegistry/Graph.antt =====
-- The status graph of the execution wallets as a relation.
use solana_trading_bot.Prelude.{◌≡◌, true, false, arith, Bool}
use solana_trading_bot.Ssot.{ExecutionWalletStatus}
use solana_trading_bot.ExecutionWalletRegistry.{allowed}

pub data Reach (s : ExecutionWalletStatus) : ExecutionWalletStatus → Type 0 where
  here : Reach s s
  next : {t u : ExecutionWalletStatus} → Reach s t → allowed t u ≡ true → Reach s u

pub Reach-trans : {s t u : ExecutionWalletStatus} → Reach s t → Reach t u → Reach s u
Reach-trans r here = r
Reach-trans r (next q h) = next (Reach-trans r q) h

-- A wallet that has left service: it drains, is retired or is revoked.
abbrev pub is_leaving : ExecutionWalletStatus → Bool
is_leaving ExecutionWalletStatus.draining = true
is_leaving ExecutionWalletStatus.retired = true
is_leaving ExecutionWalletStatus.revoked = true
is_leaving _ = false

edge_is_leaving :
    (t u : ExecutionWalletStatus) → is_leaving t ≡ true → allowed t u ≡ true → is_leaving u ≡ true
edge_is_leaving t u h a = ground arith

-- There is no way back into service.
pub Reach-is_leaving :
    {s t : ExecutionWalletStatus} → is_leaving s ≡ true → Reach s t → is_leaving t ≡ true
Reach-is_leaving h here = h
Reach-is_leaving h (next {t} {u} r a) = edge_is_leaving t u (Reach-is_leaving h r) a

revoked_edge :
    (u : ExecutionWalletStatus)
    → allowed ExecutionWalletStatus.revoked u ≡ true
    → u ≡ ExecutionWalletStatus.revoked
revoked_edge u a = ground arith

pub Reach-revoked :
    {s t : ExecutionWalletStatus}
    → s ≡ ExecutionWalletStatus.revoked
    → Reach s t
    → t ≡ ExecutionWalletStatus.revoked
Reach-revoked h here = h
Reach-revoked h (next {t} {u} r a) =
    let e : t ≡ ExecutionWalletStatus.revoked = Reach-revoked h r in revoked_edge u (rw e at a)
