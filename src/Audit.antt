-- ===== src/Audit.antt =====
-- packages/data/src/audit.mjs: the append-only audit log. An entry is a record whose fields are the
-- columns of AUDIT_COLUMNS that the modelled packages write (packages/data/src/schema.mjs), so the
-- check that throws on an unknown column has nothing to refuse here. `none` is a column left out.
use solana_trading_bot.Prelude.{
  String, ◌≡◌, refl, sym, Option, none, List, [], ◌∷◌, ◌++◌, length, ◌+◌, arith,
}
use mathlib.Core.List.{append-nil, append_assoc}

pub record Entry : Type 0 where
  pub command_type : Option String
  pub resource_type : Option String
  pub audit_scope : Option String
  pub audit_actor : Option String
  pub audit_reason : Option String
  pub permission_role : Option String
  pub api_error_code : Option String
  pub request_id : Option String
  pub idempotency_key : Option String
  pub event_timestamp : Option String

abbrev pub empty_entry : Entry
empty_entry = record {
  command_type = none;
  resource_type = none;
  audit_scope = none;
  audit_actor = none;
  audit_reason = none;
  permission_role = none;
  api_error_code = none;
  request_id = none;
  idempotency_key = none;
  event_timestamp = none;
}

abbrev pub AuditLog : Type 0
AuditLog = List Entry

-- The only write.
unfoldable pub append : AuditLog → Entry → AuditLog
append log e = log ++ e ∷ []

-- The log `new` is the log `old` with entries put behind it.
abbrev pub Extends : AuditLog → AuditLog → Type 0
Extends old new = (rest : List Entry) × (new ≡ old ++ rest)

pub Extends-refl : (log : AuditLog) → Extends log log
Extends-refl log = ([], sym (append-nil log))

pub append-Extends : (log : AuditLog) (e : Entry) → Extends log (append log e)
unfolding append
append-Extends log e = (e ∷ [], refl)

pub Extends-trans : (l m n : AuditLog) → Extends l m → Extends m n → Extends l n
Extends-trans l m n (xs, p) (ys, q) = (xs ++ ys, simp (q, p, append_assoc))

pub length-append : (log : AuditLog) (e : Entry) → length (append log e) ≡ length log + 1
unfolding append
length-append [] e = refl
length-append (x ∷ log) e = omega (arith, length-append log e)
