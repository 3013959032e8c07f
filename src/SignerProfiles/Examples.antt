-- ===== src/SignerProfiles/Examples.antt =====
-- A revoked profile, and calls that try to bring it back.
use solana_trading_bot.Prelude.{◌≡◌, refl, some, given, List, [], ◌∷◌, arith}
use text.Mathlib.TextEquality.{eq_iff}
use solana_trading_bot.Ssot.{SignerProfileStatus, KeyCustodyMode}
use solana_trading_bot.Store.{lookup}
use solana_trading_bot.SignerProfiles.{
  Profile, Profiles, request, Call, register_call, transition_call, call,
}
use solana_trading_bot.SignerProfiles.Steps.{only_signer_control_writes}
use solana_trading_bot.SignerProfiles.Revocation.{IsValid}

abbrev profile : Profile
profile = record {
  signer_profile_id = "s1";
  signer_profile_status = SignerProfileStatus.revoked;
  key_custody_mode = some KeyCustodyMode.isolated_signer;
}

abbrev profiles : Profiles
profiles = ("s1", profile) ∷ []

profiles-IsValid : IsValid profiles
unfolding lookup
profiles-IsValid k p found = ground (arith, eq_iff "s1" k)

found : lookup "s1" profiles ≡ some profile
unfolding lookup
found = refl

abbrev again : Call
again =
    register_call
      (request (record {
        signer_profile_id = given "s1";
        key_custody_mode = given KeyCustodyMode.isolated_signer;
        own_fields = "signer_profile_id" ∷ [];
      }))
      (given "signer_control")

abbrev calls : List Call
calls =
    again ∷ transition_call "s1" (given SignerProfileStatus.active) (given "signer_control") ∷ []

only_signer_control_writes_example :
    call profiles (transition_call "s1" (given SignerProfileStatus.active) (given "admin"))
    ≡ profiles
only_signer_control_writes_example =
    only_signer_control_writes profiles
      (transition_call "s1" (given SignerProfileStatus.active) (given "admin")) refl
