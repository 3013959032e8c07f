-- ===== src/KeylessCustody/Steps.antt =====
-- How the calls of the custody lifecycle change the sessions.
use solana_trading_bot.Prelude.{
  String, ◌≡◌, refl, inl, inr, none, some, true, false, arith, Arg, List, [], ◌∷◌, is_str,
  same_text, Bool-cases, Option-cases, Reply, ok, refused, coded,
}
use solana_trading_bot.Store.{Store, lookup, insert}
use solana_trading_bot.Store.Evolution.{
  Evolves, Evolves-refl, Evolves-trans, Evolves-insert, Evolves-insert_new,
}
use solana_trading_bot.KeylessCustody.{
  Phase, loaded, zeroized, degraded, Session, Custody, Context, CustodyRequest, Refusal,
  session_or_new, update_session, to_phase, gate, record_entry,
}
use solana_trading_bot.KeylessCustody.Commands.{
  after_load_gate, after_use_gate, request_load, use_custody, report_custody_failure, zeroize,
  controlled, revoked_session, revoke, disabled_session, disable, session_ids, zeroize_each,
  zeroize_all, Call, load_call, use_call, failure_call, zeroize_call, revoke_call, disable_call,
  zeroize_all_call, call, run,
}

-- A session is revoked if it was.
unfoldable pub Keeps : Session → Session → Type 0
Keeps x y = x.revoked ≡ true → y.revoked ≡ true

-- How a call changes the sessions: writes of sessions that keep the revocation.
data Step (m n : Store Session) : Type 0 where
  kept : n ≡ m → Step m n
  updated :
      (id : String) (f : Session → Session)
      → ((x : Session) → Keeps x (f x))
      → n ≡ insert id (f (session_or_new (lookup id m))) m
      → Step m n

Keeps-refl : (x : Session) → Keeps x x
unfolding Keeps
Keeps-refl x h = h

Keeps-trans : (x y z : Session) → Keeps x y → Keeps y z → Keeps x z
unfolding Keeps
Keeps-trans x y z f g h = g (f h)

Step-Evolves : {m n : Store Session} → Step m n → Evolves Keeps m n
Step-Evolves {m} (kept e) = rw e (Evolves-refl Keeps Keeps-refl m)
Step-Evolves {m} (updated id f keeps e) = elim (Option-cases (lookup id m)) [
  | inl fresh ↦ rw (e, fresh) (Evolves-insert_new Keeps Keeps-refl id _ m fresh)
  | inr (x, found) ↦ rw (e, found) (Evolves-insert Keeps Keeps-refl id x _ m found (keeps x))
]

to_phase-Keeps : (p : Phase) (x : Session) → Keeps x (to_phase p x)
unfolding Keeps
to_phase-Keeps p x h = h

load-Step :
    (s : Custody) (req : CustodyRequest) (r : Reply Refusal String)
    → Step s.sessions (after_load_gate s req r).0.sessions
unfolding update_session
load-Step s req (refused why) = kept refl
load-Step s req (coded code why) = kept refl
load-Step s req (ok id) = elim (Bool-cases req.custody_available) [
  | inl up ↦ rw up (updated id (to_phase loaded) (to_phase-Keeps loaded) refl)
  | inr down ↦ rw down (updated id (to_phase degraded) (to_phase-Keeps degraded) refl)
]

use-Step :
    (s : Custody) (req : CustodyRequest) (r : Reply Refusal String)
    → Step s.sessions (after_use_gate s req r).0.sessions
unfolding update_session
use-Step s req (refused why) = kept refl
use-Step s req (coded code why) = kept refl
use-Step s req (ok id) = elim (Bool-cases req.custody_available) [
  | inl up ↦ rw up (kept refl)
  | inr down ↦ rw down (updated id (to_phase degraded) (to_phase-Keeps degraded) refl)
]

controlled-Step :
    (command denied done : String) (f : Session → Session)
    → ((x : Session) → Keeps x (f x))
    → (s : Custody) (profile_id : Arg String) (ctx : Context)
    → Step s.sessions (controlled command denied done f s profile_id ctx).0.sessions
unfolding update_session
controlled-Step command denied done f keeps s profile_id ctx =
    elim (Option-cases (is_str ctx.audit_actor)) [
      | inl anonymous ↦ kept (ground arith)
      | inr (actor, a) ↦ elim (Bool-cases (same_text ctx.permission_role "signer_control")) [
        | inr stranger ↦ kept (ground arith)
        | inl control ↦ elim (Option-cases (is_str profile_id)) [
          | inl missing ↦ kept (ground arith)
          | inr (id, named) ↦ updated id f keeps (ground arith)
        ]
      ]
    ]

zeroize_each-Evolves :
    (ids : List String) (s : Custody) → Evolves Keeps s.sessions (zeroize_each ids s).sessions
unfolding zeroize_each update_session
zeroize_each-Evolves [] s = Evolves-refl Keeps Keeps-refl s.sessions
zeroize_each-Evolves (id ∷ ids) s =
    Evolves-trans Keeps Keeps-trans s.sessions (update_session s id (to_phase zeroized)).sessions
      (zeroize_each ids (update_session s id (to_phase zeroized))).sessions
      (Step-Evolves (updated id (to_phase zeroized) (to_phase-Keeps zeroized) refl))
      (zeroize_each-Evolves ids (update_session s id (to_phase zeroized)))

call-Evolves : (s : Custody) (c : Call) → Evolves Keeps s.sessions (call s c).sessions
unfolding call request_load use_custody report_custody_failure zeroize revoke disable zeroize_all
    update_session Keeps
call-Evolves s (load_call none) = Evolves-refl Keeps Keeps-refl s.sessions
call-Evolves s (load_call (some req)) = elim (Option-cases (is_str req.context.audit_actor)) [
  | inl anonymous ↦ Step-Evolves (kept (ground arith))
  | inr (actor, a) ↦
      let attempt = record_entry s req.context "custody_load_attempt" none in
      let e : call s (load_call (some req))
          ≡ (after_load_gate attempt req (gate s.sessions req false)).0 =
        ground arith in
      rw e (Step-Evolves (load-Step attempt req (gate s.sessions req false)))
]
call-Evolves s (use_call none) = Evolves-refl Keeps Keeps-refl s.sessions
call-Evolves s (use_call (some req)) = elim (Option-cases (is_str req.context.audit_actor)) [
  | inl anonymous ↦ Step-Evolves (kept (ground arith))
  | inr (actor, a) ↦
      let attempt = record_entry s req.context "custody_use_attempt" none in
      let e : call s (use_call (some req))
          ≡ (after_use_gate attempt req (gate s.sessions req true)).0 =
        ground arith in
      rw e (Step-Evolves (use-Step attempt req (gate s.sessions req true)))
]
call-Evolves s (failure_call ctx profile_id) = elim (Option-cases (is_str ctx.audit_actor)) [
  | inl anonymous ↦ Step-Evolves (kept (ground arith))
  | inr (actor, a) ↦ elim (Option-cases (is_str profile_id)) [
    | inl missing ↦ Step-Evolves (kept (ground arith))
    | inr (id, named) ↦
        Step-Evolves (updated id (to_phase degraded) (to_phase-Keeps degraded) (ground arith))
  ]
]
call-Evolves s (zeroize_call profile_id ctx) = elim (Option-cases (is_str ctx.audit_actor)) [
  | inl anonymous ↦ Step-Evolves (kept (ground arith))
  | inr (actor, a) ↦ elim (Option-cases (is_str profile_id)) [
    | inl missing ↦ Step-Evolves (kept (ground arith))
    | inr (id, named) ↦
        Step-Evolves (updated id (to_phase zeroized) (to_phase-Keeps zeroized) (ground arith))
  ]
]
call-Evolves s (revoke_call profile_id ctx) =
    Step-Evolves (controlled-Step _ _ _ revoked_session (λ x h. refl) s profile_id ctx)
call-Evolves s (disable_call profile_id ctx) =
    Step-Evolves (controlled-Step _ _ _ disabled_session (λ x h. h) s profile_id ctx)
call-Evolves s (zeroize_all_call actor kind) = zeroize_each-Evolves (session_ids s.sessions) s

pub run-Evolves : (s : Custody) (cs : List Call) → Evolves Keeps s.sessions (run s cs).sessions
unfolding run
run-Evolves s [] = Evolves-refl Keeps Keeps-refl s.sessions
run-Evolves s (c ∷ cs) =
    Evolves-trans Keeps Keeps-trans s.sessions (call s c).sessions (run (call s c) cs).sessions
      (call-Evolves s c) (run-Evolves (call s c) cs)
