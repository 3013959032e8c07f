-- ===== src/ExecutionWalletRegistry/Service.antt =====
-- What a wallet may do, over any sequence of registrations and transitions.
use solana_trading_bot.Prelude.{
  coded, ApiErrorCode, String, ◌≡◌, refl, inl, inr, none, some, true, false, arith, given, List, ok,
  includes, Option-cases,
}
use solana_trading_bot.Ssot.{ExecutionWalletStatus, CreationMode}
use solana_trading_bot.Store.{lookup, insert, lookup-insert_self}
use solana_trading_bot.ExecutionWalletRegistry.{
  transition, illegal_transition, Wallet, Registry, RegisterRequest, new_wallet, has_key_material,
  forbidden_fields, register, is_action_allowed, Action, new_entry, new_admission, Call, run,
  or_manual,
}
use solana_trading_bot.ExecutionWalletRegistry.Graph.{is_leaving, Reach-is_leaving, Reach-revoked}
use solana_trading_bot.ExecutionWalletRegistry.Invariant.{IsValid, run-Evolves}

-- An action is permitted on a wallet that is found exactly by its status.
allowed_by_status :
    (m : Registry) (id : String) (w : Wallet)
    → lookup id m ≡ some w
    → is_leaving w.execution_wallet_status ≡ true
    → (is_action_allowed m id (given new_entry) ≡ false)
      × (is_action_allowed m id (given new_admission) ≡ false)
unfolding is_action_allowed
allowed_by_status m id w found h = ground arith

-- A wallet of a valid registry that drains, is retired or is revoked never comes back into service:
-- after any calls it is still there and still in one of these states, no new entry or admission is
-- permitted on it.
pub out_of_service_for_good :
    (m : Registry) (cs : List Call) (id : String) (w : Wallet)
    → IsValid m
    → lookup id m ≡ some w
    → is_leaving w.execution_wallet_status ≡ true
    → (v : Wallet) × (lookup id (run m cs) ≡ some v)
      × (is_leaving v.execution_wallet_status ≡ true)
      × (is_action_allowed (run m cs) id (given new_entry) ≡ false)
      × (is_action_allowed (run m cs) id (given new_admission) ≡ false)
out_of_service_for_good m cs id w valid found h =
    let (v, found_v, f) = run-Evolves m cs valid id w found in
    let gone = Reach-is_leaving h f.status_reached in
    let blocked = allowed_by_status (run m cs) id v found_v gone in
    (v, found_v, gone, blocked.0, blocked.1)

warm_blocks :
    (m : Registry) (id : String) (w : Wallet) (a : Action)
    → lookup id m ≡ some w
    → w.execution_wallet_status ≡ ExecutionWalletStatus.warming_up
    → is_action_allowed m id (given a) ≡ false
unfolding is_action_allowed
warm_blocks m id w a found h = ground arith

register_ok :
    (m : Registry) (input : RegisterRequest) (id : String)
    → (register m (some input)).1 ≡ ok id
    → (mode : CreationMode) × (has_key_material input.own_fields forbidden_fields ≡ false)
      × (lookup id m ≡ none)
      × ((register m (some input)).0 ≡ insert id (new_wallet id mode input) m)
unfolding register
register_ok m input id h =
    elim (Option-cases (includes (or_manual input.execution_wallet_creation_mode))) [
      | inl bad ↦ absurd (ground arith)
      | inr (mode, e) ↦ (mode, ground arith, ground arith, ground arith)
    ]

-- A registration that is accepted names no key material, takes an id that no wallet had, and makes a
-- wallet that warms up and on which no action is permitted.
pub register_accepts :
    (m : Registry) (input : RegisterRequest) (id : String)
    → (register m (some input)).1 ≡ ok id
    → (has_key_material input.own_fields forbidden_fields ≡ false)
      × (lookup id m ≡ none)
      × (w : Wallet) × (lookup id (register m (some input)).0 ≡ some w)
      × (w.execution_wallet_status ≡ ExecutionWalletStatus.warming_up)
      × ((a : Action) → is_action_allowed (register m (some input)).0 id (given a) ≡ false)
unfolding new_wallet
register_accepts m input id h =
    let (mode, clean, fresh, stored) = register_ok m input id h in
    let w : Wallet = new_wallet id mode input in
    let found : lookup id (register m (some input)).0 ≡ some w =
      rw stored (lookup-insert_self id w m) in
    (clean, fresh, w, found, refl, λ a. warm_blocks (register m (some input)).0 id w a found refl)

-- A revoked wallet of a valid registry is still there and still revoked after any calls, and the
-- registry refuses to move it to any other status.
pub revoked_for_good :
    (m : Registry) (cs : List Call) (id : String) (w : Wallet) (to : ExecutionWalletStatus)
    → IsValid m
    → lookup id m ≡ some w
    → w.execution_wallet_status ≡ ExecutionWalletStatus.revoked
    → (v : Wallet) × (lookup id (run m cs) ≡ some v)
      × (v.execution_wallet_status ≡ ExecutionWalletStatus.revoked)
      × (transition (run m cs) id (given to) ≡ (
        run m cs,
        coded ApiErrorCode.command_not_allowed_in_state
            (illegal_transition ExecutionWalletStatus.revoked to),
      ))
unfolding transition
revoked_for_good m cs id w to valid found h =
    let (v, found_v, f) = run-Evolves m cs valid id w found in
    let still : v.execution_wallet_status ≡ ExecutionWalletStatus.revoked =
      Reach-revoked h f.status_reached in
    (v, found_v, still, ground arith)
