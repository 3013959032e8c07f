-- ===== src/SignerProfiles/Steps.antt =====
-- What each call does to the profiles.
use solana_trading_bot.Prelude.{
  String, ◌≡◌, refl, inl, inr, none, some, true, false, arith, Arg, Option, is_str, includes,
  Bool-cases, Option-cases,
}
use solana_trading_bot.Ssot.{SignerProfileStatus, KeyCustodyMode}
use solana_trading_bot.Store.{lookup, insert}
use solana_trading_bot.ExecutionWalletRegistry.{has_key_material}
use solana_trading_bot.SignerProfiles.{
  Profile, Profiles, RegisterRequest, allowed, has_signer_control, forbidden_fields,
  checked_custody, new_profile, register_checked, Input, no_object, throwing, request, register,
  transition, Call, register_call, transition_call, role_of, call,
}

pub data Step (m n : Profiles) : Type 0 where
  unchanged : n ≡ m → Step m n
  added :
      (id : String) (custody : Option KeyCustodyMode)
      → lookup id m ≡ none
      → n ≡ insert id (new_profile id custody) m
      → Step m n
  moved :
      (id : String) (cur : Profile) (to : SignerProfileStatus)
      → lookup id m ≡ some cur
      → allowed cur.signer_profile_status to ≡ true
      → n ≡ insert cur.signer_profile_id (record cur { signer_profile_status = to }) m
      → Step m n

register_checked-Step :
    (m : Profiles) (input : RegisterRequest) → Step m (register_checked m input).0
unfolding register_checked
register_checked-Step m input = elim (Option-cases (is_str input.signer_profile_id)) [
  | inl missing ↦ unchanged (ground arith)
  | inr (id, named) ↦ elim (Option-cases (lookup id m)) [
    | inr (old, exists) ↦ unchanged (ground arith)
    | inl fresh ↦ elim (Bool-cases (has_key_material input.own_fields forbidden_fields)) [
      | inl keys ↦ unchanged (ground arith)
      | inr clean ↦ elim (Option-cases (checked_custody input.key_custody_mode)) [
        | inl bad ↦ unchanged (ground arith)
        | inr (custody, e) ↦ added id custody fresh (ground arith)
      ]
    ]
  ]
]

register-Step :
    (m : Profiles) (input : Input) (role : Arg String) → Step m (register m input role).0
unfolding register
register-Step m no_object role = unchanged refl
register-Step m throwing role = unchanged (ground arith)
register-Step m (request input) role = elim (Bool-cases (has_signer_control role)) [
  | inr stranger ↦ unchanged (ground arith)
  | inl control ↦ rw control (register_checked-Step m input)
]

transition-Step :
    (m : Profiles) (id : String) (to_status : Arg SignerProfileStatus) (role : Arg String)
    → Step m (transition m id to_status role).0
unfolding transition
transition-Step m id to_status role = elim (Option-cases (lookup id m)) [
  | inl missing ↦ unchanged (ground arith)
  | inr (cur, found) ↦ elim (Option-cases (includes to_status)) [
    | inl bad ↦ unchanged (ground arith)
    | inr (to, e) ↦ elim (Bool-cases (has_signer_control role)) [
      | inr stranger ↦ unchanged (ground arith)
      | inl control ↦ elim (Bool-cases (allowed cur.signer_profile_status to)) [
        | inr illegal ↦ unchanged (ground arith)
        | inl edge ↦ moved id cur to found edge (ground arith)
      ]
    ]
  ]
]

pub call-Step : (m : Profiles) (c : Call) → Step m (call m c)
unfolding call
call-Step m (register_call input role) = register-Step m input role
call-Step m (transition_call id to role) = transition-Step m id to role

-- A call by anyone without signer control leaves every profile as it was.
pub only_signer_control_writes :
    (m : Profiles) (c : Call) → has_signer_control (role_of c) ≡ false → call m c ≡ m
unfolding call register transition
only_signer_control_writes m (register_call no_object role) h = refl
only_signer_control_writes m (register_call throwing role) h = ground arith
only_signer_control_writes m (register_call (request input) role) h = ground arith
only_signer_control_writes m (transition_call id to role) h = elim (Option-cases (lookup id m)) [
  | inl missing ↦ ground arith
  | inr (cur, found) ↦ elim (Option-cases (includes to)) [
    | inl bad ↦ ground arith
    | inr (status, e) ↦ ground arith
  ]
]
