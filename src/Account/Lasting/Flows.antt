-- ===== src/Account/Lasting/Flows.antt =====
-- A flow that has been consumed stays consumed (auth_flows.sql.go, store_flows.go).
use go_starter_kit.Base.{
  ℕ, Str, Bool, true, false, List, ◌∷◌, ◌≡◌, ◌⊎◌, inl, inr, refl, ap, arith, str_eq, str_eq-eq,
  str_eq_comm, ◌∙◌, Bool-cases, any_by, update_by, subst, ◌||◌, map, AreDistinct, ◌&&◌,
}
use go_starter_kit.Db.{Result, ok, Session, ok-injective}
use go_starter_kit.Db.Keeps.{Holds, OthersKeep}
use go_starter_kit.Account.Tables.{AuthFlow, Tables}
use go_starter_kit.Account.Flows.{
  flow_pending, flow_processing, flow_verified, flow_authorized, flow_claimed, flow_consumed,
  is_flow_in, claimed, processing, failed, consumed, proven, new_flow, is_failing, CreateFlowParams,
  claim_authorization, claim_flow, create_flow, fail_flow, finish_flow, verify_flow,
}
use go_starter_kit.Account.Env.{Env}
use go_starter_kit.Account.Store.{consumable}
use go_starter_kit.Account.Kept.{
  KeptFlows, IsKept, free_users, free_accounts, free_sessions, free_verifications, free_rest,
}
use go_starter_kit.Account.Calls.{Call, runs, runs-Holds}
use go_starter_kit.Account.Standing.{
  Stands, Stands-update_by, Stands-cons, count-Stands, changed-Stands,
}

abbrev pub is_spent : AuthFlow → Bool
is_spent f = str_eq f.status flow_consumed

-- The flow `id` is there, and consumed.
abbrev pub IsSpent : Str → Tables → Type 0
IsSpent id t = Stands (λ (f : AuthFlow). f.id) id is_spent t.flows

module _ (p : CreateFlowParams) (now : ℕ) (t : Tables) where
  pub create_flow-cases :
      ((create_flow p now t).1 ≡ t)
      ⊎ ((any_by (λ f. str_eq f.id p.id) t.flows ≡ false)
          × ((create_flow p now t).1 ≡ record t { flows = new_flow p now ∷ t.flows }))
  unfolding create_flow
  create_flow-cases = ground arith

-- A flow in another state is not a consumed one.
is_flow_in-spent :
    (id status : Str) (now : ℕ) (f : AuthFlow)
    → str_eq flow_consumed status ≡ false
    → is_flow_in id status now f ≡ true
    → (str_eq f.id id ≡ true) × (is_spent f ≡ false)
is_flow_in-spent id status now f other e =
    let same : f.status ≡ status = str_eq-eq f.status status (ground arith) in
    (ground arith, rw same (str_eq_comm status flow_consumed ∙ other))

differs :
    (status c : Str)
    → str_eq status c ≡ true
    → str_eq flow_consumed c ≡ false
    → str_eq flow_consumed status ≡ false
differs status c e other = rw (str_eq-eq status c e) other

consumable-other : (status : Str) → consumable status ≡ true → str_eq flow_consumed status ≡ false
unfolding consumable
consumable-other status h = elim (Bool-cases (str_eq status flow_processing)) [
  | inl e ↦ differs status flow_processing e refl
  | inr e ↦ elim (Bool-cases (str_eq status flow_verified)) [
    | inl e' ↦ differs status flow_verified e' refl
    | inr e' ↦ elim (Bool-cases (str_eq status flow_authorized)) [
      | inl e'' ↦ differs status flow_authorized e'' refl
      | inr e'' ↦ differs status flow_claimed (ground arith) refl
    ]
  ]
]

module _ (id : Str) where
  -- An UPDATE of a flow in another state.
  moved-IsSpent :
      (at status : Str) (now : ℕ) (f : AuthFlow → AuthFlow) (t : Tables)
      → str_eq flow_consumed status ≡ false
      → ((x : AuthFlow) → (f x).id ≡ x.id)
      → IsSpent id t
      → Stands (λ (f : AuthFlow). f.id) id is_spent (update_by (is_flow_in at status now) f t.flows)
  moved-IsSpent at status now f t other same h =
      Stands-update_by _ id is_spent (is_flow_in at status now) f same
        (λ x e g. let (_, bad) = is_flow_in-spent at status now x other e in absurd (ground arith))
        t.flows h

  flows-IsSpent : KeptFlows (IsSpent id)
  unfolding claim_flow claim_authorization fail_flow verify_flow finish_flow
  flows-IsSpent = record {
    creates = λ p now t fits h. elim (create_flow-cases p now t) [
      | inl same ↦ rw same h
      | inr (fresh, same) ↦ rw same (Stands-cons _ id is_spent (new_flow p now) t.flows fresh h)
    ];
    claims = λ at now t h. moved-IsSpent at flow_pending now processing t refl (λ _. refl) h;
    authorizes =
        λ at by now t h. moved-IsSpent at flow_authorized now (claimed by) t refl (λ _. refl) h;
    finishes = λ at status now t fits h.
        Stands-update_by _ id is_spent (is_flow_in at status now) consumed (λ _. refl)
          (λ x e g. refl) t.flows h;
    fails = λ at now t h.
        Stands-update_by _ id is_spent (is_failing at) failed (λ _. refl)
          (λ x e g. failing_open at x e g) t.flows h;
    verifies =
        λ p v now t fits h. moved-IsSpent p.id flow_processing now (proven p) t refl (λ _. refl) h;
  }
    where
      failing_open :
          (at : Str) (x : AuthFlow)
          → is_failing at x ≡ true
          → is_spent x ≡ true
          → is_spent (failed x) ≡ true
      failing_open at x e g =
          let same : x.status ≡ flow_consumed = str_eq-eq x.status flow_consumed g in
          let bad : (str_eq x.id at
                && (str_eq flow_consumed flow_pending || str_eq flow_consumed flow_processing))
              ≡ true =
            subst
              (λ s. (str_eq x.id at && (str_eq s flow_pending || str_eq s flow_processing)) ≡ true)
              same e in
          absurd (ground arith)

  pub IsKept-IsSpent : IsKept (IsSpent id)
  IsKept-IsSpent = record {
    users = free_users (IsSpent id) λ l t h. h;
    accounts = free_accounts (IsSpent id) λ l t h. h;
    sessions = free_sessions (IsSpent id) λ l t h. h;
    flows = flows-IsSpent;
    verifications = free_verifications (IsSpent id) λ l t h. h;
    rest = free_rest (IsSpent id) λ a b m t h. h;
  }

finish_flow-IsSpent :
    (id status : Str) (now : ℕ) (t : Tables) {t' : Tables}
    → AreDistinct (map (λ (f : AuthFlow). f.id) t.flows)
    → finish_flow id status now t ≡ (ok 1, t')
    → IsSpent id t'
unfolding finish_flow
finish_flow-IsSpent id status now t {t' = t'} distinct e =
    let p = is_flow_in id status now in
    subst (IsSpent id) (ap (λ (x : Result ℕ × Tables). x.1) e) (
      changed-Stands (λ f. f.id) id is_spent p consumed (λ _. refl) (λ x h. ground arith)
        (λ x h. refl) t.flows distinct (ok-injective (ap (λ (x : Result ℕ × Tables). x.0) e)))

runs-IsSpent :
    (id : Str) (calls : List (Env × Call)) (s : Session Tables) (status by : Str) (now : ℕ)
    → Holds (IsSpent id) s
    → consumable status ≡ true
    → ((finish_flow id status now (runs calls s).table).0 ≡ ok 0)
      × (((claim_flow id now (runs calls s).table).0 ≡ ok 0)
          × ((claim_authorization id by now (runs calls s).table).0 ≡ ok 0))
unfolding finish_flow claim_flow claim_authorization
runs-IsSpent id calls s status by now h fits =
    let after = (runs-Holds (IsSpent id) (IsKept-IsSpent id) calls s h).now in
    let none_in = λ (from : Str) (other : str_eq flow_consumed from ≡ false). ap Result.ok (
      count-Stands (λ (f : AuthFlow). f.id) id is_spent (is_flow_in id from now)
        (runs calls s).table.flows (λ f e. is_flow_in-spent id from now f other e) after) in
    (
      none_in status (consumable-other status fits),
      (none_in flow_pending refl, none_in flow_authorized refl),
    )

-- Where the identifiers of the flows are distinct, a flow or proof that was consumed cannot be used again:
-- whatever calls of the service follow, with whatever faults of the database, and whatever the other
-- processes do that leave it consumed, a statement that would consume it from a state that the program
-- may name finds no row, and neither does one that would claim it, as a flow or as a proof.
pub consumed_once :
    (id from : Str) (now : ℕ) (t : Tables) (s : Session Tables) (calls : List (Env × Call))
    (status by : Str) (later : ℕ)
    → AreDistinct (map (λ (f : AuthFlow). f.id) t.flows)
    → finish_flow id from now t ≡ (ok 1, s.table)
    → OthersKeep (IsSpent id) s
    → consumable status ≡ true
    → ((finish_flow id status later (runs calls s).table).0 ≡ ok 0)
      × (((claim_flow id later (runs calls s).table).0 ≡ ok 0)
          × ((claim_authorization id by later (runs calls s).table).0 ≡ ok 0))
consumed_once id from now t s calls status by later distinct done others fits =
    runs-IsSpent id calls s status by later
      (record { now = finish_flow-IsSpent id from now t distinct done; later = others }) fits
