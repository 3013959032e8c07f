-- ===== src/KeylessCustody/Revival.antt =====
-- A zeroized session that is reported as failed can be loaded again.
use solana_trading_bot.Prelude.{
  String, ◌≡◌, ◌≢◌, refl, inl, inr, none, some, true, false, arith, Arg, given, is_str, ok, refused,
  Option-cases,
}
use solana_trading_bot.Ssot.{SignerProfileStatus, KeyCustodyMode}
use solana_trading_bot.Store.{lookup, insert, lookup-insert_self}
use solana_trading_bot.ExecutionWalletRegistry.{has_key_material}
use solana_trading_bot.KeylessCustody.{
  loaded, zeroized, degraded, session_zeroized, Session, Custody, Context, CustodyRequest,
  update_session, gate, key_material_keys,
}
use solana_trading_bot.KeylessCustody.Commands.{request_load, report_custody_failure}

-- A request to load that nothing but the session can refuse.
pub record IsLoadable (req : CustodyRequest) (id : String) : Type 0 where
  pub actor : is_str req.context.audit_actor ≢ none
  pub clean : has_key_material req.own_fields key_material_keys ≡ false
  pub named : is_str req.signer_profile_id ≡ some id
  pub status : req.signer_profile_status ≡ given SignerProfileStatus.active
  pub mode : req.key_custody_mode ≡ given KeyCustodyMode.isolated_signer
  pub available : req.custody_available ≡ true

degraded_session :
    (s : Custody) (ctx : Context) (id : String) (x : Session)
    → is_str ctx.audit_actor ≢ none
    → lookup id s.sessions ≡ some x
    → is_str (given id) ≡ some id
    → lookup id (report_custody_failure s ctx (given id)).0.sessions
      ≡ some (record x { custody_phase = degraded })
unfolding report_custody_failure update_session
degraded_session s ctx id x actor found named = elim (Option-cases (is_str ctx.audit_actor)) [
  | inl anonymous ↦ absurd (actor anonymous)
  | inr (who, a) ↦
      let e : (report_custody_failure s ctx (given id)).0.sessions
          ≡ insert id (record x { custody_phase = degraded }) s.sessions =
        ground arith in
      rw e (lookup-insert_self id (record x { custody_phase = degraded }) s.sessions)
]

given_named : (a : Arg String) (id : String) → is_str a ≡ some id → is_str (given id) ≡ some id
given_named a id h = ground arith

load_in_order :
    (s : Custody) (req : CustodyRequest) (id : String) (x : Session)
    → lookup id s.sessions ≡ some x
    → x.custody_phase ≡ degraded
    → x.revoked ≡ false
    → x.disabled ≡ false
    → IsLoadable req id
    → (request_load s (some req)).1 ≡ ok loaded
unfolding request_load gate
load_in_order s req id x found phase unrevoked enabled r =
    elim (Option-cases (is_str req.context.audit_actor)) [
      | inl anonymous ↦ absurd (r.actor anonymous)
      | inr (who, a) ↦
          let passed : gate s.sessions req false ≡ ok id = ground arith in
          let up = r.available in ground arith
    ]

-- A session that was zeroized, and neither revoked nor disabled, is loaded again by a load that is in order
-- once a custody failure of it has been reported: the report takes it from zeroized to degraded.
pub failure_revives :
    (s : Custody) (ctx : Context) (req : CustodyRequest) (id : String) (x : Session)
    → lookup id s.sessions ≡ some x
    → x.custody_phase ≡ zeroized
    → x.revoked ≡ false
    → x.disabled ≡ false
    → is_str ctx.audit_actor ≢ none
    → IsLoadable req id
    → ((request_load s (some req)).1 ≢ ok loaded)
      × ((request_load (report_custody_failure s ctx (given id)).0 (some req)).1 ≡ ok loaded)
unfolding request_load gate
failure_revives s ctx req id x found phase unrevoked enabled actor r =
    let named = given_named req.signer_profile_id id r.named in
    let degraded_now = degraded_session s ctx id x actor found named in
    (
      λ h.
          let barred : gate s.sessions req false ≡ refused session_zeroized = ground arith in
          elim (Option-cases (is_str req.context.audit_actor)) [
            | inl anonymous ↦ absurd (r.actor anonymous)
            | inr (who, a) ↦ absurd (ground arith)
          ],
      load_in_order (report_custody_failure s ctx (given id)).0 req id
          (record x { custody_phase = degraded }) degraded_now refl unrevoked enabled r,
    )
