-- ===== src/KeylessCustody.antt =====
-- packages/keyless-custody-lifecycle/src/keyless-custody-lifecycle.mjs: custody sessions that are loaded,
-- used, degraded and zeroized; there are no keys. The factory's map and audit log are the state. Every
-- answer carries NO_SIGNATURE, so an answer is a phase or a refusal.
pub mod Commands
pub mod Steps
pub mod Gate
pub mod Revocation
pub mod Revival
mod Examples
use solana_trading_bot.Prelude.{
  String, Bool, true, false, not, ◌||◌, Option, none, some, List, [], ◌∷◌, if◌then◌else◌, Arg,
  given, includes, is_str, same_text, template, Reply, ok, refused, length, map,
}
use solana_trading_bot.Prelude.Decimal.{decimal}
use solana_trading_bot.Ssot.{SignerProfileStatus, KeyCustodyMode}
use solana_trading_bot.Store.{Store, lookup, insert}
use solana_trading_bot.Audit.{AuditLog, Entry, empty_entry, append}
use solana_trading_bot.ExecutionWalletRegistry.{has_key_material}

-- PHASE
pub data Phase : Type 0 where
  idle loaded degraded zeroized : Phase

-- A session; its signer_profile_id is its key.
pub record Session : Type 0 where
  pub custody_phase : Phase
  pub revoked : Bool
  pub disabled : Bool

pub record Custody : Type 0 where
  pub sessions : Store Session
  pub audit : AuditLog

abbrev pub create_keyless_custody_lifecycle : Custody
create_keyless_custody_lifecycle = record { sessions = []; audit = [] }

-- Who asks.
pub record Context : Type 0 where
  pub audit_actor : Arg String
  pub permission_role : Arg String
  pub request_id : Arg String

-- A request to load or to use; `own_fields` are the names of the object's own properties.
pub record CustodyRequest : Type 0 where
  pub context : Context
  pub signer_profile_id : Arg String
  pub own_fields : List String
  pub signer_profile_status : Arg SignerProfileStatus
  pub key_custody_mode : Arg KeyCustodyMode
  pub custody_available : Bool

pub data Refusal : Type 0 where
  invalid_request audit_actor_required key_material_not_accepted missing_signer_profile_id
        session_zeroized session_disabled invalid_signer_profile_status signer_not_active
        custody_not_isolated_signer not_loaded custody_unavailable_degraded
        signer_control_required :
      Refusal

abbrev pub refusal_name : Refusal → String
refusal_name invalid_request = "invalid_request"
refusal_name audit_actor_required = "audit_actor_required"
refusal_name key_material_not_accepted = "key_material_not_accepted"
refusal_name missing_signer_profile_id = "missing_signer_profile_id"
refusal_name session_zeroized = "session_zeroized"
refusal_name session_disabled = "session_disabled"
refusal_name invalid_signer_profile_status = "invalid_signer_profile_status"
refusal_name signer_not_active = "signer_not_active"
refusal_name custody_not_isolated_signer = "custody_not_isolated_signer"
refusal_name not_loaded = "not_loaded"
refusal_name custody_unavailable_degraded = "custody_unavailable_degraded"
refusal_name signer_control_required = "signer_control_required"

-- KEY_MATERIAL_KEYS
abbrev pub key_material_keys : List String
key_material_keys =
    "private_key" ∷ "privateKey" ∷ "secret_key" ∷ "secretKey" ∷ "seed" ∷ "seed_phrase" ∷ "mnemonic"
    ∷ "keypair" ∷ "secret" ∷ []

pub custody_entry : Context → String → Option String → Entry
custody_entry ctx why command = record empty_entry {
  command_type = command;
  resource_type = some "signer_profile";
  audit_scope = some "signer_profile";
  audit_actor = includes ctx.audit_actor;
  audit_reason = some why;
  permission_role = is_str ctx.permission_role;
  request_id = is_str ctx.request_id;
}

-- `record(req, why, command)`
abbrev pub record_entry : Custody → Context → String → Option String → Custody
record_entry s ctx why command = record s { audit = append s.audit (custody_entry ctx why command) }

abbrev pub new_session : Session
new_session = record { custody_phase = idle; revoked = false; disabled = false }

abbrev pub session_or_new : Option Session → Session
session_or_new none = new_session
session_or_new (some x) = x

-- `setPhase(id, phase, extra)`: `f` makes the new session from the old or from a new one.
pub update_session : Custody → String → (Session → Session) → Custody
update_session s id f = record s {
  sessions = insert id (f (session_or_new (lookup id s.sessions))) s.sessions;
}

abbrev pub to_phase : Phase → Session → Session
to_phase phase x = record x { custody_phase = phase }

abbrev pub is_zeroized : Phase → Bool
is_zeroized zeroized = true
is_zeroized _ = false

abbrev pub is_loaded : Option Session → Bool
is_loaded (some x) = elim x.custody_phase [ loaded ↦ true | _ ↦ false ]
is_loaded none = false

-- The test of an existing session.
abbrev pub session_refusal : Option Session → Option Refusal
session_refusal none = none
session_refusal (some x) =
    if x.revoked || is_zeroized x.custody_phase
    then some session_zeroized
    else if x.disabled
    then some session_disabled
    else none

abbrev pub profile_refusal : Arg SignerProfileStatus → Option Refusal
profile_refusal (given SignerProfileStatus.active) = none
profile_refusal (given _) = some signer_not_active
profile_refusal _ = some invalid_signer_profile_status

abbrev pub is_isolated : Arg KeyCustodyMode → Bool
is_isolated (given KeyCustodyMode.isolated_signer) = true
is_isolated _ = false

-- The tests of `gate` after the profile id is known.
abbrev pub gate_session : CustodyRequest → Option Session → Bool → Option Refusal
gate_session req sess require_loaded = elim (session_refusal sess) [
  | some why ↦ some why
  | none ↦ elim (profile_refusal req.signer_profile_status) [
    | some why ↦ some why
    | none ↦
        if not (is_isolated req.key_custody_mode)
        then some custody_not_isolated_signer
        else if require_loaded
        then if is_loaded sess then none else some not_loaded
        else none
  ]
]

-- `gate(req, requireLoaded)`: a refusal, or the profile id where it returns null.
pub gate : Store Session → CustodyRequest → Bool → Reply Refusal String
gate sessions req require_loaded =
    if has_key_material req.own_fields key_material_keys
    then refused key_material_not_accepted
    else elim (is_str req.signer_profile_id) [
      | none ↦ refused missing_signer_profile_id
      | some id ↦ elim (gate_session req (lookup id sessions) require_loaded) [
        | some why ↦ refused why
        | none ↦ ok id
      ]
    ]
