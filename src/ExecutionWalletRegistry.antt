-- ===== src/ExecutionWalletRegistry.antt =====
-- packages/execution-wallet-registry/src/execution-wallet-registry.mjs: the execution wallets and
-- their status graph. The factory's map is the state.
pub mod Graph
pub mod Invariant
pub mod Service
mod Examples
use solana_trading_bot.Prelude.{
  String, Bool, true, false, Option, none, some, List, [], ◌∷◌, if◌then◌else◌, Arg, absent, given,
  includes, is_str, Reply, ok, refused, coded, ApiErrorCode, str_eq, ◌||◌,
}
use solana_trading_bot.Ssot.{ExecutionWalletStatus, CreationMode}
use solana_trading_bot.Store.{Store, lookup, insert, contains}

pub record Wallet : Type 0 where
  pub execution_wallet_id : String
  pub execution_wallet_address : Option String
  pub execution_wallet_status : ExecutionWalletStatus
  pub execution_wallet_creation_mode : CreationMode
  pub funding_wallet_id : Option String
  pub settlement_wallet_id : Option String

abbrev pub Registry : Type 0
Registry = Store Wallet

-- The argument of `register`; `own_fields` are the names of the object's own properties.
pub record RegisterRequest : Type 0 where
  pub execution_wallet_id : Arg String
  pub execution_wallet_address : Option String
  pub execution_wallet_creation_mode : Arg CreationMode
  pub funding_wallet_id : Option String
  pub settlement_wallet_id : Option String
  pub own_fields : List String

pub data Reason : Type 0 where
  invalid_request execution_wallet_id_required execution_wallet_exists key_material_not_accepted
        invalid_execution_wallet_creation_mode execution_wallet_not_found
        invalid_execution_wallet_status :
      Reason
  illegal_transition : ExecutionWalletStatus → ExecutionWalletStatus → Reason

abbrev pub create_execution_wallet_registry : Registry
create_execution_wallet_registry = []

abbrev pub is_terminal_wallet_status : ExecutionWalletStatus → Bool
is_terminal_wallet_status ExecutionWalletStatus.revoked = true
is_terminal_wallet_status _ = false

-- `ALLOWED[from].includes(to)`
abbrev pub allowed : ExecutionWalletStatus → ExecutionWalletStatus → Bool
allowed ExecutionWalletStatus.warming_up ExecutionWalletStatus.active = true
allowed ExecutionWalletStatus.warming_up ExecutionWalletStatus.disabled = true
allowed ExecutionWalletStatus.warming_up ExecutionWalletStatus.draining = true
allowed ExecutionWalletStatus.warming_up ExecutionWalletStatus.revoked = true
allowed ExecutionWalletStatus.active ExecutionWalletStatus.draining = true
allowed ExecutionWalletStatus.active ExecutionWalletStatus.disabled = true
allowed ExecutionWalletStatus.active ExecutionWalletStatus.revoked = true
allowed ExecutionWalletStatus.disabled ExecutionWalletStatus.warming_up = true
allowed ExecutionWalletStatus.disabled ExecutionWalletStatus.active = true
allowed ExecutionWalletStatus.disabled ExecutionWalletStatus.draining = true
allowed ExecutionWalletStatus.disabled ExecutionWalletStatus.revoked = true
allowed ExecutionWalletStatus.draining ExecutionWalletStatus.retired = true
allowed ExecutionWalletStatus.draining ExecutionWalletStatus.revoked = true
allowed ExecutionWalletStatus.retired ExecutionWalletStatus.revoked = true
allowed _ _ = false

pub data Action : Type 0 where
  new_entry new_admission exit : Action

-- ACTION_POLICY
abbrev pub action_policy : ExecutionWalletStatus → Action → Bool
action_policy ExecutionWalletStatus.active _ = true
action_policy ExecutionWalletStatus.draining exit = true
action_policy ExecutionWalletStatus.draining _ = false
action_policy _ _ = false

-- FORBIDDEN_FIELDS
abbrev pub forbidden_fields : List String
forbidden_fields =
    "private_key" ∷ "privateKey" ∷ "secret_key" ∷ "secretKey" ∷ "seed" ∷ "seed_phrase" ∷ "mnemonic"
    ∷ "keypair" ∷ []

unfoldable pub mentions : List String → String → Bool
mentions [] f = false
mentions (x ∷ xs) f = str_eq x f || mentions xs f

-- The loop over FORBIDDEN_FIELDS.
unfoldable pub has_key_material : List String → List String → Bool
has_key_material own [] = false
has_key_material own (f ∷ fs) = mentions own f || has_key_material own fs

-- `input.execution_wallet_creation_mode ?? 'manual'`
abbrev pub or_manual : Arg CreationMode → Arg CreationMode
or_manual absent = given CreationMode.manual
or_manual mode = mode

pub new_wallet : String → CreationMode → RegisterRequest → Wallet
new_wallet id mode input = record {
  execution_wallet_id = id;
  execution_wallet_address = input.execution_wallet_address;
  execution_wallet_status = ExecutionWalletStatus.warming_up;
  execution_wallet_creation_mode = mode;
  funding_wallet_id = input.funding_wallet_id;
  settlement_wallet_id = input.settlement_wallet_id;
}

-- `none` is an argument that is no plain object, or one that the `catch` answers.
unfoldable pub register : Registry → Option RegisterRequest → Registry × Reply Reason String
unfolding new_wallet
register m none = (m, refused invalid_request)
register m (some input) = elim (is_str input.execution_wallet_id) [
  | none ↦ (m, refused execution_wallet_id_required)
  | some id ↦
      if contains id m
      then (m, refused execution_wallet_exists)
      else if has_key_material input.own_fields forbidden_fields
      then (m, refused key_material_not_accepted)
      else elim (includes (or_manual input.execution_wallet_creation_mode)) [
        | none ↦ (m, refused invalid_execution_wallet_creation_mode)
        | some mode ↦ (insert id (new_wallet id mode input) m, ok id)
      ]
]

unfoldable pub transition :
    Registry → String → Arg ExecutionWalletStatus → Registry × Reply Reason ExecutionWalletStatus
transition m id to_status = elim (lookup id m) [
  | none ↦ (m, refused execution_wallet_not_found)
  | some cur ↦ elim (includes to_status) [
    | none ↦ (m, refused invalid_execution_wallet_status)
    | some to ↦
        if allowed cur.execution_wallet_status to
        then (insert cur.execution_wallet_id (record cur { execution_wallet_status = to }) m, ok to)
        else (
          m,
          coded ApiErrorCode.command_not_allowed_in_state
              (illegal_transition cur.execution_wallet_status to),
        )
  ]
]

unfoldable pub is_action_allowed : Registry → String → Arg Action → Bool
is_action_allowed m id action = elim (lookup id m) [
  | none ↦ false
  | some cur ↦ elim (includes action) [
    | none ↦ false
    | some a ↦ action_policy cur.execution_wallet_status a
  ]
]

-- `isTerminal(id)`
pub is_terminal : Registry → String → Bool
is_terminal m id = elim (lookup id m) [
  | none ↦ false
  | some r ↦ is_terminal_wallet_status r.execution_wallet_status
]

pub data Call : Type 0 where
  register_call : Option RegisterRequest → Call
  transition_call : String → Arg ExecutionWalletStatus → Call

unfoldable pub call : Registry → Call → Registry
call m (register_call input) = (register m input).0
call m (transition_call id to) = (transition m id to).0

unfoldable pub run : Registry → List Call → Registry
run m [] = m
run m (c ∷ cs) = run (call m c) cs

-- The word of a status in a text.
abbrev pub status_name : ExecutionWalletStatus → String
status_name ExecutionWalletStatus.warming_up = "WARMING_UP"
status_name ExecutionWalletStatus.active = "ACTIVE"
status_name ExecutionWalletStatus.disabled = "DISABLED"
status_name ExecutionWalletStatus.draining = "DRAINING"
status_name ExecutionWalletStatus.retired = "RETIRED"
status_name ExecutionWalletStatus.revoked = "REVOKED"

abbrev pub reason_name : Reason → String
reason_name invalid_request = "invalid_request"
reason_name execution_wallet_id_required = "execution_wallet_id_required"
reason_name execution_wallet_exists = "execution_wallet_exists"
reason_name key_material_not_accepted = "key_material_not_accepted"
reason_name invalid_execution_wallet_creation_mode = "invalid_execution_wallet_creation_mode"
reason_name execution_wallet_not_found = "execution_wallet_not_found"
reason_name invalid_execution_wallet_status = "invalid_execution_wallet_status"
reason_name (illegal_transition from to) = "illegal_transition"
