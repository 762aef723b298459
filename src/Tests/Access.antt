-- ===== src/Tests/Access.antt =====
-- A ProviderConfig, a connection and a reference.
use crossplane_provider_slac.Base.{String, ◌≡◌, refl, none, some, ◌==◌, if◌then◌else◌}
use crossplane_provider_slac.Base.Int.{pos}
use crossplane_provider_slac.Errors.{ok}
use crossplane_provider_slac.Runtime.{Managed, Session}
use crossplane_provider_slac.Apis.Managed.{get_provider_config_reference}
use crossplane_provider_slac.ProviderConfig.{
  Kube, ProviderConfig, validate_token, extract_token, credentials_source_secret,
}
use crossplane_provider_slac.Tests.Fixtures.{test_runtime, no_api, no_kube, session, no_conditions}
use crossplane_provider_slac.Connector.{Connector, connect, resolve_id}
use crossplane_provider_slac.Connector.Laws.{connect-eq-ok}

abbrev token : String
token = "xoxb-1"

abbrev config : ProviderConfig test_runtime
config = record {
  meta = "default";
  credentials = record {
    source = credentials_source_secret;
    secret_ref = some (record { namespace = "ns"; name = "slack"; key = "token" });
  };
  poll_interval = none;
  conditions = no_conditions;
  users = pos 0;
}

abbrev test_kube : Kube test_runtime (Unit {0})
test_kube = record no_kube {
  get_provider_config = λ name w. (ok config, w);
  get_secret = λ namespace name w. (ok (λ key. if key == "token" then some token else none), w);
  get_conversation = λ name w. (ok "C1", w);
}

abbrev connector : Connector test_runtime (Unit {0}) (Managed test_runtime (Unit {0}) (Unit {0}))
connector = record { kube = test_kube; track = λ cr w. (ok tt, w); new_fn = λ t. no_api }

abbrev asked : Session (Managed test_runtime (Unit {0}) (Unit {0})) (Unit {0})
asked = session "" tt tt tt

connected : (connect test_runtime connector asked).0 ≡ ok no_api
unfolding connect get_provider_config_reference extract_token validate_token
connected = refl

connect-eq-ok_example :
    (name : String) × (pc : ProviderConfig test_runtime) × (t : String)
    × (get_provider_config_reference asked.cr ≡ some name)
    × ((connector.track asked.cr tt).0 ≡ ok tt)
    × ((test_kube.get_provider_config name tt).0 ≡ ok pc)
    × ((extract_token test_runtime test_kube pc tt).0 ≡ ok t)
    × (validate_token t ≡ none)
    × (no_api {W = Unit {0}} ≡ connector.new_fn t)
connect-eq-ok_example = connect-eq-ok test_runtime connector asked no_api connected

resolved :
    (resolve_id test_runtime test_kube.get_conversation (some "") (some "news") tt).0 ≡ ok "C1"
unfolding resolve_id
resolved = refl
