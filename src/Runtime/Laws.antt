-- ===== src/Runtime/Laws.antt =====
-- What the documented laws of crossplane-runtime say of the two condition types.
use crossplane_provider_slac.Base.{◌≡◌}
use crossplane_provider_slac.Runtime.{Runtime, IsLawful, Condition, ready, synced}

module _ {R : Runtime} (L : IsLawful R) (cs : R.Conditions) where
  pub ready-available : R.get_condition (R.set_condition cs R.available) ready ≡ R.available
  ready-available = rw (← L.available_kind) (L.get-set_condition cs R.available)

  -- Setting Synced leaves Ready alone.
  pub ready_of_synced :
      (c : Condition)
      → c.kind ≡ synced
      → R.get_condition (R.set_condition cs c) ready ≡ R.get_condition cs ready
  ready_of_synced c e = L.get-set_condition_other cs c ready (λ h. cc)
