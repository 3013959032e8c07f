-- ===== src/KeylessCustody/Examples.antt =====
-- Sessions that are loaded, zeroized and revoked.
use solana_trading_bot.Prelude.{
  ◌≡◌, ◌≢◌, refl, some, true, false, given, absent, List, [], ◌∷◌, arith, ok, is_ok, String,
}
use solana_trading_bot.Ssot.{SignerProfileStatus, KeyCustodyMode}
use solana_trading_bot.Store.{lookup}
use solana_trading_bot.ExecutionWalletRegistry.{has_key_material, mentions}
use solana_trading_bot.KeylessCustody.{
  Phase, loaded, zeroized, Session, Custody, Context, CustodyRequest, gate, key_material_keys,
}
use solana_trading_bot.KeylessCustody.Commands.{
  request_load, use_custody, report_custody_failure, Call, failure_call, load_call, run,
}
use solana_trading_bot.KeylessCustody.Gate.{MayUse, use_needs_custody}
use solana_trading_bot.KeylessCustody.Revocation.{revoked_custody_for_good}
use solana_trading_bot.KeylessCustody.Revival.{IsLoadable, failure_revives}

abbrev ctx : Context
ctx = record { audit_actor = given "ops"; permission_role = absent; request_id = absent }

abbrev request : CustodyRequest
request = record {
  context = ctx;
  signer_profile_id = given "s1";
  own_fields = "signer_profile_id" ∷ [];
  signer_profile_status = given SignerProfileStatus.active;
  key_custody_mode = given KeyCustodyMode.isolated_signer;
  custody_available = true;
}

abbrev session : Phase → Session
session phase = record { custody_phase = phase; revoked = false; disabled = false }

abbrev revoked_now : Session
revoked_now = record { custody_phase = zeroized; revoked = true; disabled = false }

abbrev custody : Session → Custody
custody x = record { sessions = ("s1", x) ∷ []; audit = [] }

found : (x : Session) → lookup "s1" (custody x).sessions ≡ some x
unfolding lookup
found x = refl

clean_names : has_key_material request.own_fields key_material_keys ≡ false
unfolding has_key_material mentions
clean_names = refl

accepted : is_ok (use_custody (custody (session loaded)) (some request)).1 ≡ true
unfolding use_custody gate lookup has_key_material mentions
accepted = refl

use_needs_custody_example :
    (id : String) × (x : Session) × MayUse (custody (session loaded)) request id x
    × ((use_custody (custody (session loaded)) (some request)).0.sessions
        ≡ (custody (session loaded)).sessions)
use_needs_custody_example = use_needs_custody (custody (session loaded)) request accepted

abbrev calls : List Call
calls = failure_call ctx (given "s1") ∷ load_call (some request) ∷ []

revoked_custody_for_good_example :
    (y : Session) × (lookup "s1" (run (custody revoked_now) calls).sessions ≡ some y)
    × (y.revoked ≡ true)
    × (is_ok (request_load (run (custody revoked_now) calls) (some request)).1 ≡ false)
    × (is_ok (use_custody (run (custody revoked_now) calls) (some request)).1 ≡ false)
revoked_custody_for_good_example =
    revoked_custody_for_good (custody revoked_now) calls "s1" revoked_now request
      (found revoked_now) refl refl

request-IsLoadable : IsLoadable request "s1"
request-IsLoadable = record {
  actor = ground arith;
  clean = clean_names;
  named = refl;
  status = refl;
  mode = refl;
  available = refl;
}

failure_revives_example :
    ((request_load (custody (session zeroized)) (some request)).1 ≢ ok loaded)
    × ((request_load
          (report_custody_failure (custody (session zeroized)) ctx (given "s1")).0
          (some request)).1
        ≡ ok loaded)
failure_revives_example =
    failure_revives (custody (session zeroized)) ctx request "s1" (session zeroized)
      (found (session zeroized)) refl refl refl (ground arith) request-IsLoadable
