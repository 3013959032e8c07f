-- ===== src/Admission.antt =====
-- packages/execution-wallet-admission/src/execution-wallet-admission.mjs: the gate that activates an
-- execution wallet, over the wallet registry and the signer profiles that the factory is given.
pub mod Gate
mod Examples
use solana_trading_bot.Prelude.{
  String, Bool, true, false, not, ◌&&◌, ◌||◌, Option, none, some, List, [], ◌∷◌, if◌then◌else◌, Arg,
  given, includes, is_some, same_text, Reply, ok, refused, coded, ApiErrorCode,
}
use solana_trading_bot.Ssot.{ExecutionWalletStatus, SignerProfileStatus}
use solana_trading_bot.Store.{lookup}
use solana_trading_bot.ExecutionWalletRegistry.{Wallet, Registry, transition}
use solana_trading_bot.ExecutionWalletRegistry as Wallets
use solana_trading_bot.SignerProfiles.{Profile, Profiles}
use solana_trading_bot.Config.{Section, Config, tree, no_wallets}
use solana_trading_bot.Config.Validate.{validate_config}

-- The argument of `activateExecutionWallet`; a flag is whether the property is `true`.
pub record ActivateRequest : Type 0 where
  pub execution_wallet_id : Arg String
  pub signer_profile_id : Arg String
  pub risk_config : Section
  pub permission_role : Arg String
  pub funded : Bool
  pub signer_reachable : Bool
  pub key_custody_verified : Bool
  pub links_signer_or_custody : Bool

pub data Reason : Type 0 where
  invalid_request admin_required signer_control_required execution_wallet_not_found
        wallet_not_warming_up signer_profile_not_found signer_profile_not_active
        key_custody_mode_missing key_custody_not_verified wallet_not_funded signer_not_reachable
        hard_risk_incomplete :
      Reason
  by_registry : Wallets.Reason → Reason

abbrev pub admission_command : String
admission_command = "activate_execution_wallet"

-- An object with an id, or undefined where the id is no key.
abbrev pub find {ℓ} : {V : Type ℓ} → Arg String → List (String × V) → Option V
find (given id) m = lookup id m
find _ m = none

abbrev pub denied : Reason → Option (Reply Reason String)
denied why = some (coded ApiErrorCode.permission_denied why)

abbrev pub wrong_state : Reason → Option (Reply Reason String)
wrong_state why = some (coded ApiErrorCode.command_not_allowed_in_state why)

-- 1) The permission.
abbrev pub check_permission : ActivateRequest → Option (Reply Reason String)
check_permission req =
    if not (same_text req.permission_role "admin" || same_text req.permission_role "signer_control")
    then denied admin_required
    else if req.links_signer_or_custody && not (same_text req.permission_role "signer_control")
    then denied signer_control_required
    else none

abbrev pub is_warming_up : ExecutionWalletStatus → Bool
is_warming_up ExecutionWalletStatus.warming_up = true
is_warming_up _ = false

-- 2) The wallet.
abbrev pub check_wallet : Option Wallet → Option (Reply Reason String)
check_wallet none = some (refused execution_wallet_not_found)
check_wallet (some w) =
    if is_warming_up w.execution_wallet_status then none else wrong_state wallet_not_warming_up

abbrev pub is_active : SignerProfileStatus → Bool
is_active SignerProfileStatus.active = true
is_active _ = false

-- 3) The signer profile, and 4) its custody mode.
abbrev pub check_signer : Option Profile → Option (Reply Reason String)
check_signer none = some (refused signer_profile_not_found)
check_signer (some p) =
    if not (is_active p.signer_profile_status)
    then wrong_state signer_profile_not_active
    else if is_some p.key_custody_mode
    then none
    else some (refused key_custody_mode_missing)

-- 4) The readiness of the wallet.
abbrev pub check_readiness : ActivateRequest → Option (Reply Reason String)
check_readiness req =
    if not req.key_custody_verified
    then wrong_state key_custody_not_verified
    else if not req.funded
    then wrong_state wallet_not_funded
    else if not req.signer_reachable
    then wrong_state signer_not_reachable
    else none

-- `{ risk_config: req.risk_config }`
abbrev pub risk_only : Section → Config
risk_only s = tree (record { sections = ("risk_config", s) ∷ []; per_wallet = no_wallets })

-- 5) The hard-risk limits.
abbrev pub check_risk : ActivateRequest → Option (Reply Reason String)
check_risk req =
    if (validate_config (risk_only req.risk_config)).real_live_config_valid
    then none
    else some (coded ApiErrorCode.real_live_config_invalid hard_risk_incomplete)

-- The first refusal.
abbrev pub or_else {ℓ} : {A : Type ℓ} → Option A → Option A → Option A
or_else none later = later
or_else (some a) later = some a

-- The checks in their order.
unfoldable pub refusal : Registry → Profiles → ActivateRequest → Option (Reply Reason String)
refusal wallets signers req = or_else (check_permission req) (
    or_else (check_wallet (find req.execution_wallet_id wallets)) (
      or_else (check_signer (find req.signer_profile_id signers))
        (or_else (check_readiness req) (check_risk req))))

abbrev pub by_transition :
    Registry × Reply Wallets.Reason ExecutionWalletStatus → Registry × Reply Reason String
by_transition (wallets, ok status) = (wallets, ok admission_command)
by_transition (wallets, refused why) = (wallets, refused (by_registry why))
by_transition (wallets, coded code why) = (wallets, coded code (by_registry why))

-- The transition of an admitted wallet.
abbrev pub admit : Registry → Arg String → Registry × Reply Reason String
admit wallets (given id) =
    by_transition (transition wallets id (given ExecutionWalletStatus.active))
admit wallets _ = (wallets, refused (by_registry Wallets.execution_wallet_not_found))

-- `activateExecutionWallet`; `none` is an argument that is no plain object, or one that the `catch` answers.
unfoldable pub activate_execution_wallet :
    Registry → Profiles → Option ActivateRequest → Registry × Reply Reason String
activate_execution_wallet wallets signers none = (wallets, refused invalid_request)
activate_execution_wallet wallets signers (some req) = elim (refusal wallets signers req) [
  | some answer ↦ (wallets, answer)
  | none ↦ admit wallets req.execution_wallet_id
]
