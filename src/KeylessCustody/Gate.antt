-- ===== src/KeylessCustody/Gate.antt =====
-- What a request that passes the gate has shown, and what an accepted use needs.
use solana_trading_bot.Prelude.{
  Bool, String, ◌≡◌, ◌≢◌, refl, inl, inr, none, some, true, false, arith, given, is_str, is_ok,
  Option-cases, Reply, ok, refused, coded,
}
use solana_trading_bot.Ssot.{SignerProfileStatus, KeyCustodyMode}
use solana_trading_bot.Store.{Store, lookup}
use solana_trading_bot.ExecutionWalletRegistry.{has_key_material}
use solana_trading_bot.KeylessCustody.{
  loaded, Session, Custody, CustodyRequest, Refusal, gate, key_material_keys, session_refusal,
  is_loaded, record_entry,
}
use solana_trading_bot.KeylessCustody.Commands.{
  after_load_gate, after_use_gate, request_load, use_custody,
}

-- What a gate that lets a request pass has seen.
record Passed (sessions : Store Session) (req : CustodyRequest) (id : String) : Type 0 where
  clean : has_key_material req.own_fields key_material_keys ≡ false
  named : is_str req.signer_profile_id ≡ some id
  open_session : session_refusal (lookup id sessions) ≡ none
  status : req.signer_profile_status ≡ given SignerProfileStatus.active
  mode : req.key_custody_mode ≡ given KeyCustodyMode.isolated_signer

gate-Passed :
    (sessions : Store Session) (req : CustodyRequest) (require_loaded : Bool) (id : String)
    → gate sessions req require_loaded ≡ ok id
    → Passed sessions req id
unfolding gate
gate-Passed sessions req require_loaded id h = record {
  clean = ground arith;
  named = ground arith;
  open_session = ground arith;
  status = ground arith;
  mode = ground arith;
}

gate-loaded :
    (sessions : Store Session) (req : CustodyRequest) (id : String)
    → gate sessions req true ≡ ok id
    → is_loaded (lookup id sessions) ≡ true
unfolding gate
gate-loaded sessions req id h = ground arith

-- An accepted use.
pub record MayUse (s : Custody) (req : CustodyRequest) (id : String) (x : Session) : Type 0 where
  pub named : is_str req.signer_profile_id ≡ some id
  pub found : lookup id s.sessions ≡ some x
  pub is_in_custody : x.custody_phase ≡ loaded
  pub unrevoked : x.revoked ≡ false
  pub enabled : x.disabled ≡ false
  pub status : req.signer_profile_status ≡ given SignerProfileStatus.active
  pub mode : req.key_custody_mode ≡ given KeyCustodyMode.isolated_signer
  pub available : req.custody_available ≡ true
  pub clean : has_key_material req.own_fields key_material_keys ≡ false

pub use-gate :
    (s : Custody) (req : CustodyRequest)
    → is_ok (use_custody s (some req)).1 ≡ true
    → (id : String) × (gate s.sessions req true ≡ ok id) × (req.custody_available ≡ true)
unfolding use_custody
use-gate s req h = elim (Option-cases (is_str req.context.audit_actor)) [
  | inl anonymous ↦ absurd (ground arith)
  | inr (actor, a) ↦
      let e : (use_custody s (some req)).1
          ≡ (after_use_gate (record_entry s req.context "custody_use_attempt" none) req
              (gate s.sessions req true)).1 =
        ground arith in
      passed (gate s.sessions req true) (rw e at h)
]
  where
    passed :
        (r : Reply Refusal String)
        → is_ok (after_use_gate (record_entry s req.context "custody_use_attempt" none) req r).1
          ≡ true
        → (id : String) × (r ≡ ok id) × (req.custody_available ≡ true)
    passed (ok id) q = (id, refl, ground arith)
    passed (refused why) q = absurd (ground arith)
    passed (coded code why) q = absurd (ground arith)

pub load-gate :
    (s : Custody) (req : CustodyRequest)
    → is_ok (request_load s (some req)).1 ≡ true
    → (id : String) × (gate s.sessions req false ≡ ok id) × (req.custody_available ≡ true)
unfolding request_load
load-gate s req h = elim (Option-cases (is_str req.context.audit_actor)) [
  | inl anonymous ↦ absurd (ground arith)
  | inr (actor, a) ↦
      let e : (request_load s (some req)).1
          ≡ (after_load_gate (record_entry s req.context "custody_load_attempt" none) req
              (gate s.sessions req false)).1 =
        ground arith in
      passed (gate s.sessions req false) (rw e at h)
]
  where
    passed :
        (r : Reply Refusal String)
        → is_ok (after_load_gate (record_entry s req.context "custody_load_attempt" none) req r).1
          ≡ true
        → (id : String) × (r ≡ ok id) × (req.custody_available ≡ true)
    passed (ok id) q = (id, refl, ground arith)
    passed (refused why) q = absurd (ground arith)
    passed (coded code why) q = absurd (ground arith)

-- An accepted `use` names a profile whose session is loaded and neither revoked nor disabled, says that the
-- profile is ACTIVE with the custody mode isolated_signer and that custody is available, and has no
-- field that is key material; and it leaves every session as it was.
pub use_needs_custody :
    (s : Custody) (req : CustodyRequest)
    → is_ok (use_custody s (some req)).1 ≡ true
    → (id : String) × (x : Session) × MayUse s req id x
      × ((use_custody s (some req)).0.sessions ≡ s.sessions)
unfolding use_custody
use_needs_custody s req h =
    let (id, passed, available) = use-gate s req h in
    let p = gate-Passed s.sessions req true id passed in
    let loaded_now = gate-loaded s.sessions req id passed in
    let open_now = p.open_session in
    elim (Option-cases (lookup id s.sessions)) [
      | inl missing ↦ absurd (ground arith)
      | inr (x, found) ↦
          let may : MayUse s req id x = record {
            named = p.named;
            found = found;
            is_in_custody = ground arith;
            unrevoked = ground arith;
            enabled = ground arith;
            status = p.status;
            mode = p.mode;
            available = available;
            clean = p.clean;
          } in
          (id, x, may, ground arith)
    ]

pub closed_by_revocation :
    (sessions : Store Session) (req : CustodyRequest) (require_loaded : Bool) (id : String)
    (y : Session)
    → is_str req.signer_profile_id ≡ some id
    → lookup id sessions ≡ some y
    → y.revoked ≡ true
    → (j : String) → gate sessions req require_loaded ≢ ok j
unfolding gate
closed_by_revocation sessions req require_loaded id y named found h j accepted = ground arith
