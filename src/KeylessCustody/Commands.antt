-- ===== src/KeylessCustody/Commands.antt =====
-- The methods of the custody lifecycle. `none` is a request that is no object.
use solana_trading_bot.Prelude.{
  String, ℕ, Bool, true, false, not, Option, none, some, List, [], ◌∷◌, if◌then◌else◌, Arg, given,
  is_str, same_text, template, Reply, ok, refused, coded, length,
}
use solana_trading_bot.Prelude.Decimal.{decimal}
use solana_trading_bot.Store.{Store, lookup}
use solana_trading_bot.Audit.{empty_entry, append}
use solana_trading_bot.KeylessCustody.{
  Phase, loaded, degraded, zeroized, Session, Custody, Context, CustodyRequest, Refusal,
  invalid_request, audit_actor_required, missing_signer_profile_id, custody_unavailable_degraded,
  signer_control_required, refusal_name, record_entry, update_session, to_phase, gate,
}

-- Custody is not available: the session is degraded.
abbrev pub degrade : Custody → Context → String → String → Custody
degrade s ctx id why = record_entry (update_session s id (to_phase degraded)) ctx why none

-- `requestLoad` after the gate.
abbrev pub after_load_gate :
    Custody → CustodyRequest → Reply Refusal String → Custody × Reply Refusal Phase
after_load_gate s req (refused why) = (
  record_entry s req.context (template ("custody_load_refused:" ∷ refusal_name why ∷ [])) none,
  refused why,
)
after_load_gate s req (coded code why) = (s, refused why)
after_load_gate s req (ok id) =
    if req.custody_available
    then (
      record_entry (update_session s id (to_phase loaded)) req.context "custody_loaded" none,
      ok loaded,
    )
    else (
      degrade s req.context id "custody_unavailable_degraded",
      refused custody_unavailable_degraded,
    )

unfoldable pub request_load : Custody → Option CustodyRequest → Custody × Reply Refusal Phase
unfolding update_session
request_load s none = (s, refused invalid_request)
request_load s (some req) = elim (is_str req.context.audit_actor) [
  | none ↦ (s, refused audit_actor_required)
  | some _ ↦
      after_load_gate (record_entry s req.context "custody_load_attempt" none) req
        (gate s.sessions req false)
]

-- `use` after the gate.
abbrev pub after_use_gate :
    Custody → CustodyRequest → Reply Refusal String → Custody × Reply Refusal Phase
after_use_gate s req (refused why) = (
  record_entry s req.context (template ("custody_use_refused:" ∷ refusal_name why ∷ [])) none,
  refused why,
)
after_use_gate s req (coded code why) = (s, refused why)
after_use_gate s req (ok id) =
    if req.custody_available then (record_entry s req.context "custody_used" none, ok loaded) else (
      degrade s req.context id "custody_unavailable_degraded",
      refused custody_unavailable_degraded,
    )

unfoldable pub use_custody : Custody → Option CustodyRequest → Custody × Reply Refusal Phase
unfolding update_session
use_custody s none = (s, refused invalid_request)
use_custody s (some req) = elim (is_str req.context.audit_actor) [
  | none ↦ (s, refused audit_actor_required)
  | some _ ↦
      after_use_gate (record_entry s req.context "custody_use_attempt" none) req
        (gate s.sessions req true)
]

unfoldable pub report_custody_failure :
    Custody → Context → Arg String → Custody × Reply Refusal Phase
unfolding update_session
report_custody_failure s ctx profile_id = elim (is_str ctx.audit_actor) [
  | none ↦ (s, refused audit_actor_required)
  | some _ ↦ elim (is_str profile_id) [
    | none ↦ (
      record_entry s ctx "custody_failure_refused:missing_signer_profile_id" none,
      refused missing_signer_profile_id,
    )
    | some id ↦ (degrade s ctx id "custody_failure_degraded", ok degraded)
  ]
]

abbrev pub was_zeroized : Option Session → Bool
was_zeroized (some x) = elim x.custody_phase [ zeroized ↦ true | _ ↦ false ]
was_zeroized none = false

-- The answer says whether the session was zeroized already.
unfoldable pub zeroize : Custody → Arg String → Context → Custody × Reply Refusal Bool
unfolding update_session
zeroize s profile_id ctx = elim (is_str ctx.audit_actor) [
  | none ↦ (s, refused audit_actor_required)
  | some _ ↦ elim (is_str profile_id) [
    | none ↦ (s, refused missing_signer_profile_id)
    | some id ↦
        let already = was_zeroized (lookup id s.sessions) in
        (
          record_entry (update_session s id (to_phase zeroized)) ctx
              (if already then "custody_zeroize_idempotent" else "custody_zeroized") none,
          ok already,
        )
  ]
]

-- The two commands that need signer control: the guards, and then `f` on the session.
abbrev pub controlled :
    String
    → String
    → String
    → (Session → Session)
    → Custody
    → Arg String
    → Context
    → Custody × Reply Refusal (Unit {0})
controlled command denied done f s profile_id ctx = elim (is_str ctx.audit_actor) [
  | none ↦ (s, refused audit_actor_required)
  | some _ ↦
      if not (same_text ctx.permission_role "signer_control")
      then (record_entry s ctx denied (some command), refused signer_control_required)
      else elim (is_str profile_id) [
        | none ↦ (s, refused missing_signer_profile_id)
        | some id ↦ (record_entry (update_session s id f) ctx done (some command), ok tt)
      ]
]

abbrev pub revoked_session : Session → Session
revoked_session x = record x { custody_phase = zeroized; revoked = true }

unfoldable pub revoke : Custody → Arg String → Context → Custody × Reply Refusal (Unit {0})
unfolding update_session
revoke =
    controlled "revoke_signer_profile" "custody_revoke_refused:signer_control_required"
      "custody_revoked_zeroized" revoked_session

-- `setPhase(id, sess ? sess.custody_phase : IDLE, { disabled: true })`
abbrev pub disabled_session : Session → Session
disabled_session x = record x { disabled = true }

unfoldable pub disable : Custody → Arg String → Context → Custody × Reply Refusal (Unit {0})
unfolding update_session
disable =
    controlled "disable_signer_profile" "custody_disable_refused:signer_control_required"
      "custody_disabled" disabled_session

-- `[...sessions.keys()]`
unfoldable pub session_ids : Store Session → List String
session_ids [] = []
session_ids ((id, x) ∷ m) = id ∷ session_ids m

-- The loop over the ids.
unfoldable pub zeroize_each : List String → Custody → Custody
zeroize_each [] s = s
zeroize_each (id ∷ ids) s = zeroize_each ids (update_session s id (to_phase zeroized))

-- `typeof ctx.audit_actor === 'string' ? ctx.audit_actor : 'system'`
abbrev pub or_system : Arg String → String
or_system (given actor) = actor
or_system _ = "system"

-- `kind` is shutdown or panic; the answer is the number of sessions.
unfoldable pub zeroize_all : Custody → Arg String → String → Custody × ℕ
zeroize_all s audit_actor kind =
    let ids = session_ids s.sessions in
    let t = zeroize_each ids s in
    (
      record t {
        audit = append t.audit (record empty_entry {
          resource_type = some "signer_profile";
          audit_scope = some "signer_profile";
          audit_actor = some (or_system audit_actor);
          audit_reason =
              some (template ("custody_" ∷ kind ∷ "_zeroize_all:" ∷ decimal (length ids) ∷ []));
        });
      },
      length ids,
    )

pub data Call : Type 0 where
  load_call use_call : Option CustodyRequest → Call
  failure_call : Context → Arg String → Call
  zeroize_call revoke_call disable_call : Arg String → Context → Call
  zeroize_all_call : Arg String → String → Call

unfoldable pub call : Custody → Call → Custody
call s (load_call req) = (request_load s req).0
call s (use_call req) = (use_custody s req).0
call s (failure_call ctx id) = (report_custody_failure s ctx id).0
call s (zeroize_call id ctx) = (zeroize s id ctx).0
call s (revoke_call id ctx) = (revoke s id ctx).0
call s (disable_call id ctx) = (disable s id ctx).0
call s (zeroize_all_call actor kind) = (zeroize_all s actor kind).0

unfoldable pub run : Custody → List Call → Custody
run s [] = s
run s (c ∷ cs) = run (call s c) cs
