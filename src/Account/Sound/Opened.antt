-- ===== src/Account/Sound/Opened.antt =====
-- The invariants of the sessions and of the flows (user_sessions.sql.go, auth_flows.sql.go, and the
-- rules of CreateSession, CreateFlow, consumeFlow and verifyFlow).
use go_starter_kit.Base.{
  ℕ, Str, Bool, true, false, List, Option, none, some, ◌≡◌, inl, inr, refl, arith, str_eq,
  str_eq-eq, Bool-cases, update_by, length, ltb, leb, ◌==◌, not, ◌&&◌, ◌||◌, is_some,
}
use go_starter_kit.Account.Tables.{UserSession, AuthFlow, Tables}
use go_starter_kit.Account.Enums.{
  method_valid, purpose_valid, public_start, flow_status_valid, initial, verifiable,
}
use go_starter_kit.Account.Sessions.{
  CreateSessionParams, touch_session, revoke_session, revoke_user_sessions, opened, touched, closed,
  revoked,
}
use go_starter_kit.Account.Flows.{
  CreateFlowParams, claim_flow, claim_authorization, finish_flow, fail_flow, verify_flow, new_flow,
  claimed, processing, consumed, failed, proven, flow_consumed, flow_failed, flow_authorized,
  flow_pending, flow_processing, flow_claimed,
}
use go_starter_kit.Account.Store.{valid_session, valid_flow, valid_proof, both_or_none, hash_size}
use go_starter_kit.Account.Env.{VerifiedIdentity}
use go_starter_kit.Account.Kept.{
  KeptSessions, KeptFlows, IsKept, free_users, free_accounts, free_sessions, free_flows,
  free_verifications, free_rest,
}
use go_starter_kit.Account.Lasting.Sessions.{create_session-cases}
use go_starter_kit.Account.Lasting.Flows.{create_flow-cases}
use go_starter_kit.Account.Sound.Rows.{AreRows, AreRows-update_by, AreRows-cons}

-- A session has the digest of its token, one of the two methods, a version from 1 on, and does not
-- outlive its absolute end.
abbrev pub is_proper_session : UserSession → Bool
is_proper_session s =
    ((length s.token_hash == hash_size) && method_valid s.auth_method)
    && (ltb 0 s.auth_version && leb s.idle_expires_at s.absolute_expires_at)

abbrev pub AreSessions : List UserSession → Type 0
AreSessions xs = AreRows (λ (s : UserSession). s.id) (λ s. is_proper_session s ≡ true) xs

opened-proper :
    (p : CreateSessionParams) (now : ℕ)
    → valid_session p ≡ true
    → is_proper_session (opened p now) ≡ true
unfolding valid_session
opened-proper p now fits = ground arith

touched-proper :
    (idle now : ℕ) (s : UserSession)
    → is_proper_session s ≡ true
    → is_proper_session (touched idle now s) ≡ true
touched-proper idle now s h = ground arith

sessions-AreSessions : KeptSessions (λ t. AreSessions t.sessions)
unfolding touch_session revoke_session revoke_user_sessions
sessions-AreSessions = record {
  creates = λ p now t fits h. elim (create_session-cases p now t) [
    | inl same ↦ rw same h
    | inr (fresh, same) ↦ rw same (
        AreRows-cons (λ s. s.id) (λ s. is_proper_session s ≡ true) (opened p now) t.sessions fresh
          (opened-proper p now fits) h)
  ];
  touches = λ idle id user renewal now t h.
      AreRows-update_by (λ s. s.id) (λ s. is_proper_session s ≡ true) _ (touched idle now)
        (λ _. refl) (λ s e g. touched-proper idle now s g) t.sessions h;
  revokes = λ id user now t h.
      AreRows-update_by (λ s. s.id) (λ s. is_proper_session s ≡ true) _ (closed now) (λ _. refl)
        (λ s e g. g) t.sessions h;
  revokes_all = λ user now t h.
      AreRows-update_by (λ s. s.id) (λ s. is_proper_session s ≡ true) _ (revoked now) (λ _. refl)
        (λ s e g. g) t.sessions h;
}

pub IsKept-AreSessions : IsKept (λ t. AreSessions t.sessions)
IsKept-AreSessions =
    let P = λ (t : Tables). AreSessions t.sessions in
    record {
      users = free_users P λ l t h. h;
      accounts = free_accounts P λ l t h. h;
      sessions = sessions-AreSessions;
      flows = free_flows P λ l t h. h;
      verifications = free_verifications P λ l t h. h;
      rest = free_rest P λ a b m t h. h;
    }

abbrev is_over : Str → Bool
is_over s = str_eq s flow_consumed || str_eq s flow_failed

-- A flow has a purpose and a status of the program, a user together with a session, who is missing only
-- where anybody may start it; and one that is over has forgotten its protocol state.
abbrev pub is_proper_flow : AuthFlow → Bool
is_proper_flow f =
    (purpose_valid f.purpose && flow_status_valid f.status)
    && ((both_or_none f.user_id f.session_id && (public_start f.purpose || is_some f.user_id))
        && not (is_over f.status && is_some f.protocol_state))

abbrev pub AreFlows : List AuthFlow → Type 0
AreFlows xs = AreRows (λ (f : AuthFlow). f.id) (λ f. is_proper_flow f ≡ true) xs

over_now : (s c : Str) → str_eq s c ≡ true → is_over c ≡ false → is_over s ≡ false
over_now s c e other = rw (str_eq-eq s c e) other

initial-open : (s : Str) → initial s ≡ true → is_over s ≡ false
unfolding initial
initial-open s h = elim (Bool-cases (str_eq s flow_pending)) [
  | inl e ↦ over_now s flow_pending e refl
  | inr e ↦ over_now s flow_authorized (ground arith) refl
]

new_flow-proper :
    (p : CreateFlowParams) (now : ℕ) → valid_flow p ≡ true → is_proper_flow (new_flow p now) ≡ true
unfolding valid_flow flow_status_valid initial
new_flow-proper p now fits = let h = initial-open p.status (ground arith) in ground arith

-- A step to another state, from one that is not over.
stepped :
    (to : Str) (by : Option Str) (f : AuthFlow)
    → flow_status_valid to ≡ true
    → is_over to ≡ false
    → is_proper_flow f ≡ true
    → is_proper_flow (record f { status = to; claimed_by = by }) ≡ true
stepped to by f valid going h = ground arith

-- The end of a flow, or its proof: the protocol state is forgotten.
forgotten :
    (to namespace subject name : Str) (at : Option ℕ) (f : AuthFlow)
    → flow_status_valid to ≡ true
    → is_proper_flow f ≡ true
    → is_proper_flow (record f {
      status = to;
      verified_namespace = namespace;
      verified_subject = subject;
      verified_name = name;
      authenticated_at = at;
      protocol_state = none;
    })
      ≡ true
forgotten to namespace subject name at f valid h = ground arith

verifiable-valid : (s : Str) → verifiable s ≡ true → flow_status_valid s ≡ true
unfolding verifiable flow_status_valid
verifiable-valid s h = ground arith

valid_proof-verifiable :
    (s : Str) (v : VerifiedIdentity) → valid_proof s v ≡ true → verifiable s ≡ true
unfolding valid_proof
valid_proof-verifiable s v h = ground arith

changes :
    (p : AuthFlow → Bool) (f : AuthFlow → AuthFlow)
    → ((x : AuthFlow) → (f x).id ≡ x.id)
    → ((x : AuthFlow) → is_proper_flow x ≡ true → is_proper_flow (f x) ≡ true)
    → (xs : List AuthFlow) → AreFlows xs
    → AreFlows (update_by p f xs)
changes p f same keep xs h =
    AreRows-update_by (λ x. x.id) (λ x. is_proper_flow x ≡ true) p f same (λ x _ g. keep x g) xs h

flows-AreFlows : KeptFlows (λ t. AreFlows t.flows)
unfolding claim_flow claim_authorization finish_flow fail_flow verify_flow flow_status_valid
flows-AreFlows = record {
  creates = λ p now t fits h. elim (create_flow-cases p now t) [
    | inl same ↦ rw same h
    | inr (fresh, same) ↦ rw same (
        AreRows-cons (λ f. f.id) (λ f. is_proper_flow f ≡ true) (new_flow p now) t.flows fresh
          (new_flow-proper p now fits) h)
  ];
  claims = λ id now t h.
      changes _ processing (λ _. refl) (λ x g. stepped flow_processing x.claimed_by x refl refl g)
        t.flows h;
  authorizes = λ id by now t h.
      changes _ (claimed by) (λ _. refl) (λ x g. stepped flow_claimed (some by) x refl refl g)
        t.flows h;
  finishes = λ id status now t fits h.
      changes _ consumed (λ _. refl) (λ x g. ended flow_consumed x refl g) t.flows h;
  fails = λ id now t h. changes _ failed (λ _. refl) (λ x g. ended flow_failed x refl g) t.flows h;
  verifies = λ p v now t fits h.
      changes _ (proven p) (λ _. refl)
        (λ x g.
          forgotten p.status p.verified_namespace p.verified_subject p.verified_name
            p.authenticated_at x
            (verifiable-valid p.status (valid_proof-verifiable p.status v fits)) g)
        t.flows h;
}
  where
    ended :
        (to : Str) (x : AuthFlow)
        → flow_status_valid to ≡ true
        → is_proper_flow x ≡ true
        → is_proper_flow (record x { status = to; protocol_state = none }) ≡ true
    ended to x valid g =
        forgotten to x.verified_namespace x.verified_subject x.verified_name x.authenticated_at x
          valid g

pub IsKept-AreFlows : IsKept (λ t. AreFlows t.flows)
IsKept-AreFlows =
    let P = λ (t : Tables). AreFlows t.flows in
    record {
      users = free_users P λ l t h. h;
      accounts = free_accounts P λ l t h. h;
      sessions = free_sessions P λ l t h. h;
      flows = flows-AreFlows;
      verifications = free_verifications P λ l t h. h;
      rest = free_rest P λ a b m t h. h;
    }
