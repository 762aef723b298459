-- ===== src/Errors/Laws.antt =====
-- The classification of errors follows the chain of causes, as errors.As documents it.
use mathlib.Core.Option.{some-injective}
use crossplane_provider_slac.Base.{
  String, ◌≡◌, ◌↔◌, refl, subst, ◌∙◌, true, some, eq_iff, eq_refl, arith, ◌⊎◌, Bool-cases,
  Option-cases, inl, inr,
}
use crossplane_provider_slac.Errors.{
  unwrap, has_retriable, is_retriable, is_retriable_error, is_network_error, has_network,
  slack_is_retriable, SlackError, NetworkKind, slack, retriable, network, Error, wrap, plain,
  has_code, as_slack,
}

-- `Unwraps e c`: repeated calls of Unwrap lead from `e` to `c`.
data Unwraps : Error → Error → Type 0 where
  here : (e : Error) → Unwraps e e
  there : (e d c : Error) → unwrap e ≡ some d → Unwraps d c → Unwraps e c

as_slack_sound : (e : Error) (s : SlackError) → as_slack e ≡ some s → Unwraps e (slack s)
unfolding as_slack unwrap
as_slack_sound (slack t) s h =
    subst (λ x. Unwraps (slack t) (slack x)) (some-injective t s h) (here _)
as_slack_sound (retriable e) s h = there _ e _ refl (as_slack_sound e s h)
as_slack_sound (wrap m e) s h = there _ e _ refl (as_slack_sound e s h)
as_slack_sound (network k m) s h = cc
as_slack_sound (plain m) s h = cc

as_slack-unwrap : (e d : Error) → unwrap e ≡ some d → as_slack e ≡ as_slack d
unfolding as_slack unwrap
as_slack-unwrap (slack t) d h = cc
as_slack-unwrap (retriable e) d h = cc
as_slack-unwrap (wrap m e) d h = cc
as_slack-unwrap (network k m) d h = cc
as_slack-unwrap (plain m) d h = cc

as_slack_complete : (e : Error) (s : SlackError) → Unwraps e (slack s) → as_slack e ≡ some s
unfolding as_slack
as_slack_complete _ s (here _) = refl
as_slack_complete _ s (there e d _ h r) = as_slack-unwrap e d h ∙ as_slack_complete d s r

has_retriable-unwrap :
    (e d : Error) → unwrap e ≡ some d → has_retriable d ≡ true → has_retriable e ≡ true
unfolding has_retriable unwrap
has_retriable-unwrap (slack t) d h k = cc
has_retriable-unwrap (retriable e) d h k = refl
has_retriable-unwrap (wrap m e) d h k = cc
has_retriable-unwrap (network n m) d h k = cc
has_retriable-unwrap (plain m) d h k = cc

has_retriable_sound : (e : Error) → has_retriable e ≡ true → (d : Error) × Unwraps e (retriable d)
unfolding has_retriable unwrap
has_retriable_sound (slack t) h = cc
has_retriable_sound (retriable e) h = (e, here _)
has_retriable_sound (wrap m e) h = let (d, u) = has_retriable_sound e h in (d, there _ e _ refl u)
has_retriable_sound (network k m) h = cc
has_retriable_sound (plain m) h = cc

has_retriable_complete : (e d : Error) → Unwraps e (retriable d) → has_retriable e ≡ true
unfolding has_retriable
has_retriable_complete _ d (here _) = refl
has_retriable_complete _ d (there e f _ h r) =
    has_retriable-unwrap e f h (has_retriable_complete f d r)

-- An error is retriable exactly if its chain of causes has a RetriableError, or a Slack error with
-- one of the three retriable codes.
is_retriable_error-Unwraps :
    (e : Error)
    → (is_retriable_error (some e) ≡ true) ↔ (
        ((d : Error) × Unwraps e (retriable d))
        ⊎ ((s : SlackError) × Unwraps e (slack s) × (is_retriable s ≡ true)))
unfolding is_retriable_error slack_is_retriable
is_retriable_error-Unwraps e = (
  elim (Bool-cases (has_retriable e)) [
    | inl h ↦ λ done. inl (has_retriable_sound e h)
    | inr h ↦ elim (Option-cases (as_slack e)) [
      | inl a ↦ rw (h, a) (λ done. cc)
      | inr (s, a) ↦ rw (h, a) (λ done. inr (s, as_slack_sound e s a, done))
    ]
  ],
  λ why. elim why [
    | inl (d, u) ↦ rw (has_retriable_complete e d u) refl
    | inr (s, u, k) ↦ rw (as_slack_complete e s u, k) (ground arith)
  ],
)

has_network-unwrap : (e d : Error) → unwrap e ≡ some d → has_network d ≡ true → has_network e ≡ true
unfolding has_network unwrap
has_network-unwrap (slack t) d h k = cc
has_network-unwrap (retriable e) d h k = cc
has_network-unwrap (wrap m e) d h k = cc
has_network-unwrap (network n m) d h k = refl
has_network-unwrap (plain m) d h k = cc

has_network_sound :
    (e : Error) → has_network e ≡ true → (k : NetworkKind) × (m : String) × Unwraps e (network k m)
unfolding has_network unwrap
has_network_sound (slack t) h = cc
has_network_sound (retriable e) h =
    let (k, m, u) = has_network_sound e h in (k, m, there _ e _ refl u)
has_network_sound (wrap n e) h = let (k, m, u) = has_network_sound e h in (k, m, there _ e _ refl u)
has_network_sound (network k m) h = (k, m, here _)
has_network_sound (plain m) h = cc

has_network_complete :
    (e : Error) (k : NetworkKind) (m : String) → Unwraps e (network k m) → has_network e ≡ true
unfolding has_network
has_network_complete _ k m (here _) = refl
has_network_complete _ k m (there e f _ h r) =
    has_network-unwrap e f h (has_network_complete f k m r)

-- An error is a network error exactly if its chain of causes has an error of one of the four
-- families of network errors.
is_network_error-Unwraps :
    (e : Error)
    → (is_network_error (some e) ≡ true)
      ↔ ((k : NetworkKind) × (m : String) × Unwraps e (network k m))
unfolding is_network_error
is_network_error-Unwraps e = (
  has_network_sound e,
  λ (u : (k : NetworkKind) × (m : String) × Unwraps e (network k m)).
      has_network_complete e u.0 u.1 u.2,
)

-- The code of a Slack error is found exactly if the chain of causes has a Slack error of that code.
has_code-Unwraps :
    (code : String) (e : Error)
    → (has_code code e ≡ true) ↔ ((s : SlackError) × Unwraps e (slack s) × (s.code ≡ code))
unfolding has_code
has_code-Unwraps code e = (
  elim (Option-cases (as_slack e)) [
    | inl a ↦ rw (has_code, a) (λ done. cc)
    | inr (s, a) ↦ rw (has_code, a) (λ done. (s, as_slack_sound e s a, (eq_iff s.code code).0 done))
  ],
  λ (u : (s : SlackError) × Unwraps e (slack s) × (s.code ≡ code)).
      rw (has_code, as_slack_complete e u.0 u.1, u.2) (eq_refl code),
)
