-- ===== src/Admission/Gate.antt =====
-- What an admission has seen, and what it does to the wallet.
use solana_trading_bot.Prelude.{
  String, true, false, not, ◌&&◌, ◌||◌, ◌≡◌, inl, inr, refl, Option, none, some, List, Arg, given,
  is_ok, same_text, arith, Option-cases, Number,
}
use solana_trading_bot.Prelude.Values.{Value}
use solana_trading_bot.Ssot.{ExecutionWalletStatus, SignerProfileStatus, KeyCustodyMode}
use solana_trading_bot.Store.{lookup, insert, lookup-insert_self}
use solana_trading_bot.LiveModel.{value_at}
use solana_trading_bot.ExecutionWalletRegistry.{
  Wallet, Registry, transition, is_action_allowed, new_entry,
}
use solana_trading_bot.ExecutionWalletRegistry.Invariant.{IsValid}
use solana_trading_bot.SignerProfiles.{Profile, Profiles}
use solana_trading_bot.Config.Rules.{Field}
use solana_trading_bot.Config.{ConfigObject, fields_of}
use solana_trading_bot.Config.Validate.{own_entries, validate_config}
use solana_trading_bot.Config.Limits.{IsLimit, real_live_limits}
use solana_trading_bot.Admission.{
  ActivateRequest, find, check_permission, check_wallet, check_signer, check_readiness, risk_only,
  check_risk, or_else, refusal, admit, activate_execution_wallet,
}

-- What the checks have seen of a wallet `w` and a signer profile `p`.
pub record Passed (wallets : Registry) (signers : Profiles) (req : ActivateRequest) (w : Wallet)
    (p : Profile) : Type 0 where
  pub role :
      (same_text req.permission_role "admin" || same_text req.permission_role "signer_control")
      ≡ true
  pub control :
      (req.links_signer_or_custody && not (same_text req.permission_role "signer_control")) ≡ false
  pub wallet_found : find req.execution_wallet_id wallets ≡ some w
  pub warming_up : w.execution_wallet_status ≡ ExecutionWalletStatus.warming_up
  pub signer_found : find req.signer_profile_id signers ≡ some p
  pub signer_active : p.signer_profile_status ≡ SignerProfileStatus.active
  pub custody : (mode : KeyCustodyMode) × (p.key_custody_mode ≡ some mode)
  pub verified : req.key_custody_verified ≡ true
  pub is_funded : req.funded ≡ true
  pub reachable : req.signer_reachable ≡ true

or_else-none {ℓ} : {A : Type ℓ} (a b : Option A) → or_else a b ≡ none → (a ≡ none) × (b ≡ none)
or_else-none none b h = (refl, h)
or_else-none (some a) b h = absurd (ground arith)

wallet_passed :
    (o : Option Wallet)
    → check_wallet o ≡ none
    → (w : Wallet) × (o ≡ some w) × (w.execution_wallet_status ≡ ExecutionWalletStatus.warming_up)
wallet_passed none h = absurd (ground arith)
wallet_passed (some w) h = (w, refl, ground arith)

signer_passed :
    (o : Option Profile)
    → check_signer o ≡ none
    → (p : Profile) × (o ≡ some p)
      × (p.signer_profile_status ≡ SignerProfileStatus.active)
      × ((mode : KeyCustodyMode) × (p.key_custody_mode ≡ some mode))
signer_passed none h = absurd (ground arith)
signer_passed (some p) h = elim (Option-cases p.key_custody_mode) [
  | inl missing ↦ absurd (ground arith)
  | inr (mode, there) ↦ (p, refl, ground arith, (mode, there))
]

refusal-Passed :
    (wallets : Registry) (signers : Profiles) (req : ActivateRequest)
    → refusal wallets signers req ≡ none
    → (w : Wallet) × (p : Profile) × Passed wallets signers req w p
      × ((validate_config (risk_only req.risk_config)).real_live_config_valid ≡ true)
unfolding refusal
refusal-Passed wallets signers req h =
    let (permission, h1) = or_else-none (check_permission req) _ h in
    let (wallet, h2) = or_else-none (check_wallet (find req.execution_wallet_id wallets)) _ h1 in
    let (signer, h3) = or_else-none (check_signer (find req.signer_profile_id signers)) _ h2 in
    let (ready, risk) = or_else-none (check_readiness req) (check_risk req) h3 in
    let (w, wallet_found, warming_up) = wallet_passed _ wallet in
    let (p, signer_found, signer_active, custody) = signer_passed _ signer in
    let passed : Passed wallets signers req w p = record {
      role = ground arith;
      control = ground arith;
      wallet_found = wallet_found;
      warming_up = warming_up;
      signer_found = signer_found;
      signer_active = signer_active;
      custody = custody;
      verified = ground arith;
      is_funded = ground arith;
      reachable = ground arith;
    } in
    (w, p, passed, ground arith)

accepted-refusal :
    (wallets : Registry) (signers : Profiles) (req : ActivateRequest)
    → is_ok (activate_execution_wallet wallets signers (some req)).1 ≡ true
    → (activate_execution_wallet wallets signers (some req) ≡ admit wallets req.execution_wallet_id)
      × (refusal wallets signers req ≡ none)
unfolding activate_execution_wallet refusal
accepted-refusal wallets signers req h = elim (Option-cases (refusal wallets signers req)) [
  | inl passed ↦ (ground arith, passed)
  | inr (answer, e) ↦ absurd (ground arith)
]

find-given {ℓ} :
    {V : Type ℓ} (a : Arg String) (m : List (String × V)) (v : V)
    → find a m ≡ some v
    → (id : String) × (a ≡ given id) × (lookup id m ≡ some v)
find-given (given id) m v h = (id, refl, h)
find-given Arg.absent m v h = absurd (ground arith)
find-given Arg.foreign m v h = absurd (ground arith)

activated : Wallet → Wallet
activated w = record w { execution_wallet_status = ExecutionWalletStatus.active }

activates :
    (wallets : Registry) (id : String) (w : Wallet)
    → lookup id wallets ≡ some w
    → w.execution_wallet_id ≡ id
    → w.execution_wallet_status ≡ ExecutionWalletStatus.warming_up
    → (admit wallets (given id)).0 ≡ insert id (activated w) wallets
unfolding transition activated
activates wallets id w found keyed warming_up = ground arith

new_entry_permitted :
    (m : Registry) (id : String) (w : Wallet)
    → lookup id m ≡ some (activated w)
    → is_action_allowed m id (given new_entry) ≡ true
unfolding is_action_allowed activated
new_entry_permitted m id w found = ground arith

-- An accepted activation, in a registry whose wallets stand under their ids, has seen a wallet that is
-- WARMING_UP, an ACTIVE signer profile with a custody mode, the role and the flags that it needs, and for
-- each hard-risk field a number of its kind; and it permits new entries on the wallet.
pub admission_needs_limits :
    (wallets : Registry) (signers : Profiles) (req : ActivateRequest) (name : String) (f : Field)
    → IsValid wallets
    → is_ok (activate_execution_wallet wallets signers (some req)).1 ≡ true
    → lookup name (fields_of ConfigObject.risk_config) ≡ some f
    → (id : String) × (w : Wallet) × (p : Profile) × (n : Number) × (req.execution_wallet_id
        ≡ given id)
      × Passed wallets signers req w p
      × (value_at name (own_entries req.risk_config) ≡ some (Value.number n))
      × IsLimit f.rule n
      × (is_action_allowed
            (activate_execution_wallet wallets signers (some req)).0
            id
            (given new_entry)
          ≡ true)
unfolding lookup
admission_needs_limits wallets signers req name f keyed h known =
    let (admitted, none_refused) = accepted-refusal wallets signers req h in
    let (w, p, passed, risk_valid) = refusal-Passed wallets signers req none_refused in
    let (id, named, found) = find-given req.execution_wallet_id wallets w passed.wallet_found in
    let (n, set, limit) = real_live_limits _ name f risk_valid known in
    let after : (activate_execution_wallet wallets signers (some req)).0
        ≡ insert id (activated w) wallets =
      rw (admitted, named) (activates wallets id w found (keyed id w found) passed.warming_up) in
    (
      id,
      w,
      p,
      n,
      named,
      passed,
      set,
      limit,
      rw after (
          new_entry_permitted (insert id (activated w) wallets) id w
            (lookup-insert_self id (activated w) wallets)),
    )

-- A refused activation leaves the registry as it was.
pub refused_activation_keeps :
    (wallets : Registry) (signers : Profiles) (req : Option ActivateRequest)
    → is_ok (activate_execution_wallet wallets signers req).1 ≡ false
    → (activate_execution_wallet wallets signers req).0 ≡ wallets
unfolding activate_execution_wallet transition
refused_activation_keeps wallets signers none h = refl
refused_activation_keeps wallets signers (some req) h =
    elim (Option-cases (refusal wallets signers req)) [
      | inr (answer, e) ↦ ground arith
      | inl passed ↦ ground arith
    ]
