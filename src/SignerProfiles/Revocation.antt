-- ===== src/SignerProfiles/Revocation.antt =====
-- A profile over any sequence of calls.
use solana_trading_bot.Prelude.{
  String, ◌≡◌, refl, ◌∙◌, sym, inl, inr, some, true, false, arith, Arg, List, [], ◌∷◌, includes,
  is_ok, Bool-cases, Option-cases,
}
use solana_trading_bot.Ssot.{SignerProfileStatus}
use solana_trading_bot.Store.{lookup}
use solana_trading_bot.Store.Evolution.{
  Every, Every-insert, Evolves, Evolves-refl, Evolves-trans, Evolves-insert, Evolves-insert_new,
}
use solana_trading_bot.StatusGraph.{Reach, here, next, Reach-trans, Reach-stuck}
use solana_trading_bot.SignerProfiles.{
  Profile, Profiles, allowed, is_terminal_signer_status, has_signer_control, transition, Call, call,
  run,
}
use solana_trading_bot.SignerProfiles.Steps.{Step, unchanged, added, moved, call-Step}

-- Every profile stands under its id.
abbrev pub IsValid : Profiles → Type 0
IsValid m = Every (λ k p. p.signer_profile_id ≡ k) m

-- `q` is a later state of the profile `p`.
pub record Follows (p q : Profile) : Type 0 where
  pub id_kept : q.signer_profile_id ≡ p.signer_profile_id
  pub custody_kept : q.key_custody_mode ≡ p.key_custody_mode
  pub status_reached : Reach allowed p.signer_profile_status q.signer_profile_status

Follows-refl : (p : Profile) → Follows p p
Follows-refl p = record { id_kept = refl; custody_kept = refl; status_reached = here }

Follows-trans : (p q r : Profile) → Follows p q → Follows q r → Follows p r
Follows-trans p q r f g = record {
  id_kept = g.id_kept ∙ f.id_kept;
  custody_kept = g.custody_kept ∙ f.custody_kept;
  status_reached = Reach-trans allowed f.status_reached g.status_reached;
}

Step-IsValid : {m n : Profiles} → Step m n → IsValid m → IsValid n
Step-IsValid {m} (unchanged e) h = rw e h
Step-IsValid {m} (added id custody fresh e) h =
    rw e (Every-insert (λ k p. p.signer_profile_id ≡ k) id _ m h refl)
Step-IsValid {m} (moved id cur to found edge e) h =
    rw e (Every-insert (λ k p. p.signer_profile_id ≡ k) cur.signer_profile_id _ m h refl)

Step-Evolves : {m n : Profiles} → Step m n → IsValid m → Evolves Follows m n
Step-Evolves {m} (unchanged e) h = rw e (Evolves-refl Follows Follows-refl m)
Step-Evolves {m} (added id custody fresh e) h =
    rw e (Evolves-insert_new Follows Follows-refl id _ m fresh)
Step-Evolves {m} (moved id cur to found edge e) h =
    let g : Follows cur (record cur { signer_profile_status = to }) = record {
      id_kept = refl;
      custody_kept = refl;
      status_reached = next here edge;
    } in
    rw e (
      Evolves-insert Follows Follows-refl cur.signer_profile_id cur _ m
        (simp (h id cur found) found) g)

run-Evolves : (m : Profiles) (cs : List Call) → IsValid m → Evolves Follows m (run m cs)
unfolding run
run-Evolves m [] h = Evolves-refl Follows Follows-refl m
run-Evolves m (c ∷ cs) h =
    let st = call-Step m c in
    Evolves-trans Follows Follows-trans m (call m c) (run (call m c) cs) (Step-Evolves st h)
      (run-Evolves (call m c) cs (Step-IsValid st h))

no_exit :
    (t u : SignerProfileStatus) → is_terminal_signer_status t ≡ true → allowed t u ≡ true → t ≡ u
no_exit t u h a = ground arith

refuses_terminal :
    (m : Profiles) (id : String) (p : Profile) (to : Arg SignerProfileStatus) (role : Arg String)
    → lookup id m ≡ some p
    → is_terminal_signer_status p.signer_profile_status ≡ true
    → is_ok (transition m id to role).1 ≡ false
unfolding transition
refuses_terminal m id p to role found over = elim (Option-cases (includes to)) [
  | inl bad ↦ ground arith
  | inr (status, e) ↦ elim (Bool-cases (has_signer_control role)) [
    | inr stranger ↦ ground arith
    | inl control ↦ elim (Bool-cases (allowed p.signer_profile_status status)) [
      | inr illegal ↦ ground arith
      | inl edge ↦ absurd (ground arith)
    ]
  ]
]

-- A revoked profile of a valid registry is still there after any calls, with the same custody mode and
-- still revoked, and no transition of it is accepted then, whoever asks.
pub revoked_profile_for_good :
    (m : Profiles) (cs : List Call) (id : String) (p : Profile) (to : Arg SignerProfileStatus)
    (role : Arg String)
    → IsValid m
    → lookup id m ≡ some p
    → is_terminal_signer_status p.signer_profile_status ≡ true
    → (q : Profile) × (lookup id (run m cs) ≡ some q)
      × (q.key_custody_mode ≡ p.key_custody_mode)
      × (q.signer_profile_status ≡ p.signer_profile_status)
      × (is_ok (transition (run m cs) id to role).1 ≡ false)
revoked_profile_for_good m cs id p to role h found over =
    let (q, there, f) = run-Evolves m cs h id p found in
    let same = Reach-stuck allowed is_terminal_signer_status no_exit over f.status_reached in
    (
      q,
      there,
      f.custody_kept,
      sym same,
      refuses_terminal (run m cs) id q to role there (rw (← same) over),
    )
