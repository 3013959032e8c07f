-- ===== src/ExecutionWalletLifecycle/Effects.antt =====
-- What a lifecycle command does to the registry and to the audit log.
use solana_trading_bot.Prelude.{
  String, ◌≡◌, ◌≢◌, ◌↔◌, refl, ◌⊎◌, inl, inr, none, some, true, false, arith, Arg, absent, foreign,
  given, is_str, Option, Bool-cases, Option-cases, ok, refused, is_ok,
}
use solana_trading_bot.Store.{lookup, insert}
use solana_trading_bot.Audit.{append}
use solana_trading_bot.ExecutionWalletRegistry.{Registry, Wallet, allowed, transition}
use solana_trading_bot.ExecutionWalletRegistry.Invariant.{Step, unchanged, moved}
use solana_trading_bot.ExecutionWalletLifecycle.{
  Command, to_status, require_signer_control, permitted, command_name, arrow_text, Trace, Request,
  invalid_request, State, command_entry, wallet_at, log_and_answer, run_command,
}

-- The request may move the wallet: its actor is named, its role is permitted, the wallet is found and
-- the status graph has the edge.
pub record MayMove (s : State) (c : Command) (req : Request) (id : String) (w : Wallet)
    : Type 0 where
  pub actor : is_str req.audit_actor ≢ none
  pub role : permitted req.permission_role (require_signer_control c) ≡ true
  pub wallet : req.execution_wallet_id ≡ given id
  pub found : lookup id s.registry ≡ some w
  pub edge : allowed w.execution_wallet_status (to_status c) ≡ true

-- The registry after the wallet has moved.
abbrev pub moved_registry : Registry → Wallet → Command → Registry
moved_registry m w c =
    insert w.execution_wallet_id (record w { execution_wallet_status = to_status c }) m

pub run-moves :
    (s : State) (c : Command) (req : Request) (id : String) (w : Wallet)
    → MayMove s c req id w
    → (run_command s c (some req)).0.registry ≡ moved_registry s.registry w c
unfolding run_command transition
run-moves s c req id w h = ground arith

found_or_not :
    (a : Arg String) (m : Registry)
    → (wallet_at a m ≡ none)
      ⊎ ((id : String) × (w : Wallet) × (a ≡ given id) × (lookup id m ≡ some w))
found_or_not absent m = inl refl
found_or_not foreign m = inl refl
found_or_not (given id) m = elim (Option-cases (lookup id m)) [
  | inl missing ↦ inl missing
  | inr (w, found) ↦ inr (id, w, refl, found)
]

-- A command leaves the registry as it was, or it moves one wallet to the command's status along the
-- status graph, and then the actor is named and the role is one that the command permits.
pub run-effect :
    (s : State) (c : Command) (req : Request)
    → ((run_command s c (some req)).0.registry ≡ s.registry)
      ⊎ ((id : String) × (w : Wallet) × MayMove s c req id w
          × ((run_command s c (some req)).0.registry ≡ moved_registry s.registry w c))
unfolding run_command transition
run-effect s c req = elim (Option-cases (is_str req.audit_actor)) [
  | inl anonymous ↦ inl (ground arith)
  | inr (a, actor) ↦ elim (Bool-cases (permitted req.permission_role (require_signer_control c))) [
    | inr denied ↦ inl (ground arith)
    | inl role ↦ elim (found_or_not req.execution_wallet_id s.registry) [
      | inl missing ↦ inl (ground arith)
      | inr (id, w, wallet, found) ↦
          elim (Bool-cases (allowed w.execution_wallet_status (to_status c))) [
            | inr illegal ↦ inl (ground arith)
            | inl edge ↦
                let h : MayMove s c req id w = record {
                  actor = (λ e. cc);
                  role = role;
                  wallet = wallet;
                  found = found;
                  edge = edge;
                } in
                inr (id, w, h, run-moves s c req id w h)
          ]
    ]
  ]
]

-- Whatever a command answers, the registry takes at most one step of its own.
pub run-Step :
    (s : State) (c : Command) (req : Option Request)
    → Step s.registry (run_command s c req).0.registry
unfolding run_command
run-Step s c none = unchanged refl
run-Step s c (some req) = elim (run-effect s c req) [
  | inl same ↦ unchanged same
  | inr (id, w, h, e) ↦ moved id w (to_status c) h.found h.edge e
]

-- Where the request may move the wallet and its tracing fields can be read, the command answers with
-- the new status, and the move is the only change but for one audit entry that names the actor, the
-- command and the two statuses.
pub run-audits :
    (s : State) (c : Command) (req : Request) (id : String) (w : Wallet) (t : Trace)
    → MayMove s c req id w
    → req.trace ≡ some t
    → run_command s c (some req) ≡ (
      record {
        registry = moved_registry s.registry w c;
        audit = append s.audit (
            command_entry c req t
              (arrow_text (command_name c) w.execution_wallet_status (to_status c))
              none);
      },
      ok (to_status c),
    )
unfolding run_command transition
run-audits s c req id w t h e = ground arith

-- Where a tracing field throws when it is read, a permitted move still happens.
unreadable_request_unaudited :
    (s : State) (c : Command) (req : Request) (id : String) (w : Wallet)
    → MayMove s c req id w
    → req.trace ≡ none
    → run_command s c (some req) ≡ (
      record { registry = moved_registry s.registry w c; audit = s.audit },
      refused invalid_request,
    )
unfolding run_command transition
unreadable_request_unaudited s c req id w h e = ground arith

-- A request whose tracing fields cannot be read is never accepted.
unreadable_refused :
    (s : State) (c : Command) (req : Request)
    → req.trace ≡ none
    → is_ok (run_command s c (some req)).1 ≡ false
unfolding run_command transition log_and_answer
unreadable_refused s c req e = ground arith

accepted-moves :
    (s : State) (c : Command) (req : Request)
    → is_ok (run_command s c (some req)).1 ≡ true
    → (id : String) × (w : Wallet) × MayMove s c req id w
unfolding run_command transition log_and_answer
accepted-moves s c req h = elim (Option-cases (is_str req.audit_actor)) [
  | inl anonymous ↦ absurd (ground arith)
  | inr (a, actor) ↦ elim (Bool-cases (permitted req.permission_role (require_signer_control c))) [
    | inr denied ↦ absurd (ground arith)
    | inl role ↦ elim (found_or_not req.execution_wallet_id s.registry) [
      | inl missing ↦ absurd (ground arith)
      | inr (id, w, wallet, found) ↦
          elim (Bool-cases (allowed w.execution_wallet_status (to_status c))) [
            | inr illegal ↦ absurd (ground arith)
            | inl edge ↦ (
              id,
              w,
              record {
                actor = (λ e. cc);
                role = role;
                wallet = wallet;
                found = found;
                edge = edge;
              },
            )
          ]
    ]
  ]
]

-- A command is accepted exactly when the three tracing fields can be read and the request may move a
-- wallet: its actor is named, its role is one that the command permits, and the status graph has the edge
-- from the status of the wallet that it names.
pub accepted_iff_MayMove :
    (s : State) (c : Command) (req : Request)
    → (is_ok (run_command s c (some req)).1 ≡ true)
      ↔ ((req.trace ≢ none) × ((id : String) × (w : Wallet) × MayMove s c req id w))
accepted_iff_MayMove s c req = (
  λ h. (λ e. let q = unreadable_refused s c req e in cc, accepted-moves s c req h),
  λ h.
      let (id, w, may) = h.1 in
      elim (Option-cases req.trace) [
        | inl unreadable ↦ absurd (h.0 unreadable)
        | inr (t, e) ↦ rw (run-audits s c req id w t may e) refl
      ],
)

-- A request with readable fields that is not accepted leaves the registry as it was.
pub refused_keeps_registry :
    (s : State) (c : Command) (req : Request) (t : Trace)
    → req.trace ≡ some t
    → is_ok (run_command s c (some req)).1 ≡ false
    → (run_command s c (some req)).0.registry ≡ s.registry
refused_keeps_registry s c req t e h = elim (run-effect s c req) [
  | inl same ↦ same
  | inr (id, w, may, moves) ↦
      let answered : is_ok (run_command s c (some req)).1 ≡ true =
        rw (run-audits s c req id w t may e) in
      cc
]
