-- ===== src/Setup/Programs/Registered.antt =====
-- Which controllers run when a program has started, and what its scheme recognizes.
use mathlib.Core.List.{append_assoc, append-nil}
use crossplane_provider_slac.Base.{
  ◌≡◌, refl, sym, ap, ◌∙◌, Option, none, some, String, List, [], ◌∷◌, ◌++◌,
}
use crossplane_provider_slac.Errors.{ok}
use crossplane_provider_slac.Act.{Act, ◌>>=◌, ◌>>◌, >>=-eq-ok}
use crossplane_provider_slac.Runtime.{Runtime}
use crossplane_provider_slac.Runtime.Scheme.{SchemeLibrary}
use crossplane_provider_slac.Apis.{Kind}
use crossplane_provider_slac.Setup.{Manager}
use crossplane_provider_slac.Setup.Programs.{Host, ManagerOptions, must}

-- Building a manager registers no controller and sets its scheme; completing a controller registers
-- its kind and keeps the scheme.
pub record Registers {R : Runtime} {S : SchemeLibrary} {W Options Handler : Type 0}
    (host : Host S W Options) (m : Manager R S W Options Handler) (registered : W → List Kind)
    (scheme_of : W → S.Scheme) : Type 0 where
  pub builds :
      (options : ManagerOptions S) (w : W)
      → (host.new_manager options w).0 ≡ ok tt
      → (registered (host.new_manager options w).1 ≡ registered w)
        × (scheme_of (host.new_manager options w).1 ≡ options.scheme)
  pub completes :
      (name : String) (o : Options) (kind : Kind) (h : Handler) (w : W)
      → (m.complete name o kind h w).0 ≡ ok tt
      → (registered (m.complete name o kind h w).1 ≡ registered w ++ (kind ∷ []))
        × (scheme_of (m.complete name o kind h w).1 ≡ scheme_of w)

module _ {W Scheme : Type 0} (registered : W → List Kind) (scheme_of : W → Scheme) where
  -- A last step that is reached, what has been registered before, and the scheme.
  abbrev Reaches : Act W (Unit {0}) → Act W (Unit {0}) → W → List Kind → Type 0
  Reaches run last w kinds =
      (v : W) × (registered v ≡ registered w ++ kinds)
      × (scheme_of v ≡ scheme_of w)
      × (run w ≡ last v)

  -- Steps that register a kind each, if they succeed.
  pub data Adds : List (Act W (Unit {0})) → List Kind → Type 0 where
    adds_none : Adds [] []
    adds_one :
        (m : Act W (Unit {0})) (ms : List (Act W (Unit {0}))) (kind : Kind) (kinds : List Kind)
        → ((w : W)
            → (m w).0 ≡ ok tt
            → (registered (m w).1 ≡ registered w ++ (kind ∷ []))
              × (scheme_of (m w).1 ≡ scheme_of w))
        → Adds ms kinds
        → Adds (m ∷ ms) (kind ∷ kinds)

  abbrev pub run_all : List (Act W (Unit {0})) → Act W (Unit {0}) → Act W (Unit {0})
  run_all [] last = last
  run_all (m ∷ ms) last = m >> run_all ms last

  Adds-Reaches :
      (ms : List (Act W (Unit {0}))) (kinds : List Kind) (last : Act W (Unit {0})) (w : W)
      → Adds ms kinds
      → (run_all ms last w).0 ≡ ok tt
      → Reaches (run_all ms last) last w kinds
  Adds-Reaches _ _ last w adds_none = λ done. (w, sym (append-nil (registered w)), refl, refl)
  Adds-Reaches _ _ last w (adds_one m ms kind kinds one adds) = λ done.
      let (_, p, q) = >>=-eq-ok m (λ _. run_all ms last) w done in
      let (v, e, x, r) = Adds-Reaches ms kinds last (m w).1 adds (ap (λ x. x.0) (sym q) ∙ done) in
      (
        v,
        e ∙ ap (λ ks. ks ++ kinds) (one w p).0 ∙ append_assoc (registered w) (kind ∷ []) kinds,
        x ∙ (one w p).1,
        q ∙ r,
      )

module _ {R : Runtime} {S : SchemeLibrary} {W Options Handler : Type 0} (host : Host S W Options)
    (m : Manager R S W Options Handler) (registered : W → List Kind) (scheme_of : W → S.Scheme)
    (laws : Registers host m registered scheme_of) where
  -- The manager is started in a state where the kinds have been registered, with a scheme.
  abbrev pub Starts : Act W (Unit {0}) → W → List Kind → S.Scheme → Type 0
  Starts run w kinds scheme =
      (v : W) × (registered v ≡ registered w ++ kinds)
      × (scheme_of v ≡ scheme)
      × (run w ≡ host.start v)

  abbrev pub program :
      Option S.Scheme → (S.Scheme → ManagerOptions S) → List (Act W (Unit {0})) → Act W (Unit {0})
  program built options ms = do
    scheme ← must built
    host.new_manager (options scheme)
    run_all registered scheme_of ms host.start

  -- A program that builds a scheme and a manager, takes the steps and starts.
  pub program-Starts :
      (built : Option S.Scheme) (options : S.Scheme → ManagerOptions S)
      (ms : List (Act W (Unit {0}))) (kinds : List Kind) (w : W)
      → ((scheme : S.Scheme) → (options scheme).scheme ≡ scheme)
      → Adds registered scheme_of ms kinds
      → (program built options ms w).0 ≡ ok tt
      → (scheme : S.Scheme) × (built ≡ some scheme)
        × Starts (program built options ms) w kinds scheme
  program-Starts none options ms kinds w same adds = λ done. cc
  program-Starts (some scheme) options ms kinds w same adds = λ done.
      let rest = run_all registered scheme_of ms host.start in
      let (_, p, q) = >>=-eq-ok (host.new_manager (options scheme)) (λ _. rest) w done in
      let (v, e, x, r) =
        Adds-Reaches registered scheme_of ms kinds host.start _ adds
          (ap (λ x. x.0) (sym q) ∙ done) in
      let (k, o) = laws.builds (options scheme) w p in
      (scheme, refl, (v, e ∙ ap (λ ks. ks ++ kinds) k, x ∙ o ∙ same scheme, q ∙ r))
