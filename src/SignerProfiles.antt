-- ===== src/SignerProfiles.antt =====
-- packages/signer-profiles-registry/src/signer-profiles-registry.mjs: signer profiles by reference, and
-- their status graph. The factory's map is the state.
pub mod Steps
pub mod Revocation
mod Examples
use solana_trading_bot.Prelude.{
  String, Bool, true, false, not, Option, none, some, List, [], ◌∷◌, if◌then◌else◌, Arg, absent,
  foreign, given, includes, is_str, same_text, Reply, ok, refused, coded, ApiErrorCode,
}
use solana_trading_bot.Ssot.{SignerProfileStatus, KeyCustodyMode}
use solana_trading_bot.Store.{Store, lookup, insert, contains}
use solana_trading_bot.ExecutionWalletRegistry.{has_key_material}

pub record Profile : Type 0 where
  pub signer_profile_id : String
  pub signer_profile_status : SignerProfileStatus
  pub key_custody_mode : Option KeyCustodyMode

abbrev pub Profiles : Type 0
Profiles = Store Profile

abbrev pub create_signer_profiles_registry : Profiles
create_signer_profiles_registry = []

-- The argument of `register`; `own_fields` are the names of the object's own properties.
pub record RegisterRequest : Type 0 where
  pub signer_profile_id : Arg String
  pub key_custody_mode : Arg KeyCustodyMode
  pub own_fields : List String

pub data Reason : Type 0 where
  invalid_request signer_control_required signer_profile_id_required signer_profile_exists
        key_material_not_accepted invalid_key_custody_mode signer_profile_not_found
        invalid_signer_profile_status :
      Reason
  illegal_transition : SignerProfileStatus → SignerProfileStatus → Reason

-- `ALLOWED[from].includes(to)`
abbrev pub allowed : SignerProfileStatus → SignerProfileStatus → Bool
allowed SignerProfileStatus.disabled SignerProfileStatus.active = true
allowed SignerProfileStatus.disabled SignerProfileStatus.revoked = true
allowed SignerProfileStatus.active SignerProfileStatus.disabled = true
allowed SignerProfileStatus.active SignerProfileStatus.degraded = true
allowed SignerProfileStatus.active SignerProfileStatus.revoked = true
allowed SignerProfileStatus.degraded SignerProfileStatus.active = true
allowed SignerProfileStatus.degraded SignerProfileStatus.disabled = true
allowed SignerProfileStatus.degraded SignerProfileStatus.revoked = true
allowed _ _ = false

abbrev pub is_terminal_signer_status : SignerProfileStatus → Bool
is_terminal_signer_status SignerProfileStatus.revoked = true
is_terminal_signer_status _ = false

abbrev pub has_signer_control : Arg String → Bool
has_signer_control role = same_text role "signer_control"

-- FORBIDDEN_FIELDS
abbrev pub forbidden_fields : List String
forbidden_fields =
    "private_key" ∷ "privateKey" ∷ "secret_key" ∷ "secretKey" ∷ "seed" ∷ "seed_phrase" ∷ "mnemonic"
    ∷ "keypair" ∷ "secret" ∷ []

-- `custody != null && !KEY_CUSTODY_MODE.includes(custody)` refuses; what is stored is `custody ?? null`.
abbrev pub checked_custody : Arg KeyCustodyMode → Option (Option KeyCustodyMode)
checked_custody absent = some none
checked_custody foreign = none
checked_custody (given mode) = some (some mode)

abbrev pub new_profile : String → Option KeyCustodyMode → Profile
new_profile id custody = record {
  signer_profile_id = id;
  signer_profile_status = SignerProfileStatus.disabled;
  key_custody_mode = custody;
}

-- The `try` block of `register`, whose caller has signer control.
pub register_checked : Profiles → RegisterRequest → Profiles × Reply Reason String
register_checked m input = elim (is_str input.signer_profile_id) [
  | none ↦ (m, refused signer_profile_id_required)
  | some id ↦
      if contains id m
      then (m, refused signer_profile_exists)
      else if has_key_material input.own_fields forbidden_fields
      then (m, refused key_material_not_accepted)
      else elim (checked_custody input.key_custody_mode) [
        | none ↦ (m, refused invalid_key_custody_mode)
        | some custody ↦ (insert id (new_profile id custody) m, ok id)
      ]
]

-- An input that `register` is given: no plain object, one with a property that throws when it is read
-- inside the `try`, or a request.
pub data Input : Type 0 where
  no_object throwing : Input
  request : RegisterRequest → Input

pub register : Profiles → Input → Arg String → Profiles × Reply Reason String
unfolding register_checked
register m no_object role = (m, refused invalid_request)
register m throwing role =
    if has_signer_control role
    then (m, refused invalid_request)
    else (m, coded ApiErrorCode.permission_denied signer_control_required)
register m (request input) role =
    if has_signer_control role
    then register_checked m input
    else (m, coded ApiErrorCode.permission_denied signer_control_required)

-- The end of `transition`, from the test of the role on.
abbrev pub move :
    Profiles
    → Profile
    → SignerProfileStatus
    → Arg String
    → Profiles × Reply Reason SignerProfileStatus
move m cur to role =
    if not (has_signer_control role)
    then (m, coded ApiErrorCode.permission_denied signer_control_required)
    else if not (allowed cur.signer_profile_status to)
    then (
      m,
      coded ApiErrorCode.command_not_allowed_in_state
          (illegal_transition cur.signer_profile_status to),
    )
    else (insert cur.signer_profile_id (record cur { signer_profile_status = to }) m, ok to)

pub transition :
    Profiles
    → String
    → Arg SignerProfileStatus
    → Arg String
    → Profiles × Reply Reason SignerProfileStatus
transition m id to_status role = elim (lookup id m) [
  | none ↦ (m, refused signer_profile_not_found)
  | some cur ↦ elim (includes to_status) [
    | none ↦ (m, refused invalid_signer_profile_status)
    | some to ↦ move m cur to role
  ]
]

-- `isTerminal(id)`
abbrev pub is_terminal : Profiles → String → Bool
is_terminal m id = elim (lookup id m) [
  | none ↦ false
  | some r ↦ is_terminal_signer_status r.signer_profile_status
]

-- A call of one of the two methods, with the role of who calls.
pub data Call : Type 0 where
  register_call : Input → Arg String → Call
  transition_call : String → Arg SignerProfileStatus → Arg String → Call

abbrev pub role_of : Call → Arg String
role_of (register_call input role) = role
role_of (transition_call id to role) = role

pub call : Profiles → Call → Profiles
call m (register_call input role) = (register m input role).0
call m (transition_call id to role) = (transition m id to role).0

pub run : Profiles → List Call → Profiles
run m [] = m
run m (c ∷ cs) = run (call m c) cs
