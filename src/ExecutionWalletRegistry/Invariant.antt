-- ===== src/ExecutionWalletRegistry/Invariant.antt =====
-- What any sequence of registrations and transitions does to the wallets.
use solana_trading_bot.Prelude.{
  String, ◌≡◌, refl, ◌∙◌, inl, inr, none, some, true, arith, Arg, includes, is_str, Bool-cases,
  Option-cases, List, [], ◌∷◌, Option,
}
use solana_trading_bot.Ssot.{ExecutionWalletStatus}
use solana_trading_bot.Store.{lookup, insert}
use solana_trading_bot.Store.Evolution.{
  Every, Every-insert, Evolves, Evolves-refl, Evolves-trans, Evolves-insert, Evolves-insert_new,
}
use solana_trading_bot.ExecutionWalletRegistry.{
  Wallet, Registry, RegisterRequest, allowed, new_wallet, has_key_material, forbidden_fields,
  or_manual, register, transition, Call, register_call, transition_call, call, run,
}
use solana_trading_bot.ExecutionWalletRegistry.Graph.{Reach, here, next, Reach-trans}

-- Every wallet stands under its id.
abbrev pub IsValid : Registry → Type 0
IsValid m = Every (λ k w. w.execution_wallet_id ≡ k) m

-- `q` is a later record of the wallet `p`.
pub record Follows (p q : Wallet) : Type 0 where
  pub id_kept : q.execution_wallet_id ≡ p.execution_wallet_id
  pub address_kept : q.execution_wallet_address ≡ p.execution_wallet_address
  pub creation_mode_kept : q.execution_wallet_creation_mode ≡ p.execution_wallet_creation_mode
  pub funding_kept : q.funding_wallet_id ≡ p.funding_wallet_id
  pub settlement_kept : q.settlement_wallet_id ≡ p.settlement_wallet_id
  pub status_reached : Reach p.execution_wallet_status q.execution_wallet_status

pub Follows-refl : (p : Wallet) → Follows p p
Follows-refl p = record {
  id_kept = refl;
  address_kept = refl;
  creation_mode_kept = refl;
  funding_kept = refl;
  settlement_kept = refl;
  status_reached = here;
}

pub Follows-trans : (p q r : Wallet) → Follows p q → Follows q r → Follows p r
Follows-trans p q r f g = record {
  id_kept = g.id_kept ∙ f.id_kept;
  address_kept = g.address_kept ∙ f.address_kept;
  creation_mode_kept = g.creation_mode_kept ∙ f.creation_mode_kept;
  funding_kept = g.funding_kept ∙ f.funding_kept;
  settlement_kept = g.settlement_kept ∙ f.settlement_kept;
  status_reached = Reach-trans f.status_reached g.status_reached;
}

pub data Step (m n : Registry) : Type 0 where
  unchanged : n ≡ m → Step m n
  added :
      (w : Wallet)
      → lookup w.execution_wallet_id m ≡ none
      → w.execution_wallet_status ≡ ExecutionWalletStatus.warming_up
      → n ≡ insert w.execution_wallet_id w m
      → Step m n
  moved :
      (id : String) (w : Wallet) (to : ExecutionWalletStatus)
      → lookup id m ≡ some w
      → allowed w.execution_wallet_status to ≡ true
      → n ≡ insert w.execution_wallet_id (record w { execution_wallet_status = to }) m
      → Step m n

pub register-Step : (m : Registry) (input : Option RegisterRequest) → Step m (register m input).0
unfolding register new_wallet
register-Step m none = Step.unchanged refl
register-Step m (some input) = elim (Option-cases (is_str input.execution_wallet_id)) [
  | inl missing ↦ Step.unchanged (ground arith)
  | inr (id, given_id) ↦ elim (Option-cases (lookup id m)) [
    | inr (old, exists) ↦ Step.unchanged (ground arith)
    | inl fresh ↦ elim (Bool-cases (has_key_material input.own_fields forbidden_fields)) [
      | inl keys ↦ Step.unchanged (ground arith)
      | inr clean ↦
          elim (Option-cases (includes (or_manual input.execution_wallet_creation_mode))) [
            | inl bad ↦ Step.unchanged (ground arith)
            | inr (mode, e) ↦ Step.added (new_wallet id mode input) fresh refl (ground arith)
          ]
    ]
  ]
]

pub transition-Step :
    (m : Registry) (id : String) (to_status : Arg ExecutionWalletStatus)
    → Step m (transition m id to_status).0
unfolding transition
transition-Step m id to_status = elim (Option-cases (lookup id m)) [
  | inl missing ↦ Step.unchanged (ground arith)
  | inr (cur, found) ↦ elim (Option-cases (includes to_status)) [
    | inl bad ↦ Step.unchanged (ground arith)
    | inr (to, e) ↦ elim (Bool-cases (allowed cur.execution_wallet_status to)) [
      | inl edge ↦ Step.moved id cur to found edge (ground arith)
      | inr refused ↦ Step.unchanged (ground arith)
    ]
  ]
]

pub Step-IsValid : {m n : Registry} → Step m n → IsValid m → IsValid n
Step-IsValid {m} (Step.unchanged e) h = rw e h
Step-IsValid {m} (Step.added w fresh warm e) h =
    rw e (Every-insert (λ k w. w.execution_wallet_id ≡ k) w.execution_wallet_id w m h refl)
Step-IsValid {m} (Step.moved id w to found edge e) h =
    rw e (Every-insert (λ k w. w.execution_wallet_id ≡ k) w.execution_wallet_id _ m h refl)

pub Step-Evolves : {m n : Registry} → Step m n → IsValid m → Evolves Follows m n
Step-Evolves {m} (Step.unchanged e) h = rw e (Evolves-refl Follows Follows-refl m)
Step-Evolves {m} (Step.added w fresh warm e) h =
    rw e (Evolves-insert_new Follows Follows-refl w.execution_wallet_id w m fresh)
Step-Evolves {m} (Step.moved id w to found edge e) h =
    let f : Follows w (record w { execution_wallet_status = to }) = record {
      id_kept = refl;
      address_kept = refl;
      creation_mode_kept = refl;
      funding_kept = refl;
      settlement_kept = refl;
      status_reached = next here edge;
    } in
    rw e (
      Evolves-insert Follows Follows-refl w.execution_wallet_id w _ m (simp (h id w found) found) f)

pub call-Step : (m : Registry) (c : Call) → Step m (call m c)
unfolding call
call-Step m (register_call input) = register-Step m input
call-Step m (transition_call id to) = transition-Step m id to

pub run-IsValid : (m : Registry) (cs : List Call) → IsValid m → IsValid (run m cs)
unfolding run
run-IsValid m [] h = h
run-IsValid m (c ∷ cs) h = run-IsValid (call m c) cs (Step-IsValid (call-Step m c) h)

pub run-Evolves : (m : Registry) (cs : List Call) → IsValid m → Evolves Follows m (run m cs)
unfolding run
run-Evolves m [] h = Evolves-refl Follows Follows-refl m
run-Evolves m (c ∷ cs) h =
    let st = call-Step m c in
    Evolves-trans Follows Follows-trans m (call m c) (run (call m c) cs) (Step-Evolves st h)
      (run-Evolves (call m c) cs (Step-IsValid st h))
