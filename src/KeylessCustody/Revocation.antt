-- ===== src/KeylessCustody/Revocation.antt =====
-- A revoked custody session over any sequence of calls.
use solana_trading_bot.Prelude.{
  Bool, String, ◌≡◌, inl, inr, some, true, false, List, is_str, is_ok, Bool-cases,
}
use solana_trading_bot.Store.{lookup}
use solana_trading_bot.KeylessCustody.{Session, Custody, CustodyRequest}
use solana_trading_bot.KeylessCustody.Commands.{request_load, use_custody, Call, run}
use solana_trading_bot.KeylessCustody.Steps.{Keeps, run-Evolves}
use solana_trading_bot.KeylessCustody.Gate.{closed_by_revocation, use-gate, load-gate}

-- A revoked session stays revoked whatever is called, and neither a load nor a use that names it is
-- accepted ever again.
pub revoked_custody_for_good :
    (s : Custody) (cs : List Call) (id : String) (x : Session) (req : CustodyRequest)
    → lookup id s.sessions ≡ some x
    → x.revoked ≡ true
    → is_str req.signer_profile_id ≡ some id
    → (y : Session) × (lookup id (run s cs).sessions ≡ some y)
      × (y.revoked ≡ true)
      × (is_ok (request_load (run s cs) (some req)).1 ≡ false)
      × (is_ok (use_custody (run s cs) (some req)).1 ≡ false)
unfolding Keeps
revoked_custody_for_good s cs id x req found h named =
    let (y, there, keeps) = run-Evolves s cs id x found in
    let closed =
      λ (r : Bool). closed_by_revocation (run s cs).sessions req r id y named there (keeps h) in
    (
      y,
      there,
      keeps h,
      elim (Bool-cases (is_ok (request_load (run s cs) (some req)).1)) [
        | inr refused_load ↦ refused_load
        | inl accepted ↦
            let (j, passed, up) = load-gate (run s cs) req accepted in
            absurd (closed false j passed)
      ],
      elim (Bool-cases (is_ok (use_custody (run s cs) (some req)).1)) [
        | inr refused_use ↦ refused_use
        | inl accepted ↦
            let (j, passed, up) = use-gate (run s cs) req accepted in absurd (closed true j passed)
      ],
    )
