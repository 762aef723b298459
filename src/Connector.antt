-- ===== src/Connector.antt =====
-- The Connect methods of the six controllers, which differ in the kind they accept, and the reading
-- of cross-resource references.
pub mod Laws
use crossplane_provider_slac.Base.{String, Bool, Option, none, some, not, ◌&&◌, ◌==◌, if◌then◌else◌}
use crossplane_provider_slac.Errors.{Error, Result, ok, err, wrap, plain}
use crossplane_provider_slac.Act.{Act, pure, fail, ◌>>=◌, ◌>>◌, or_wrap}
use crossplane_provider_slac.Runtime.{Runtime, Managed, Session, Request, as_kind, call, get}
use crossplane_provider_slac.Apis.Managed.{get_provider_config_reference}
use crossplane_provider_slac.ProviderConfig.{ProviderConfig, Kube, validate_token, extract_token}
use crossplane_provider_slac.Slack.Api.{ClientApi}

abbrev pub err_track_usage : String
err_track_usage = "cannot track ProviderConfig usage"

abbrev pub err_get_pc : String
err_get_pc = "cannot get ProviderConfig"

abbrev pub err_extract_token : String
err_extract_token = "cannot extract bot token from secret"

abbrev pub err_validate_token : String
err_validate_token = "invalid bot token"

-- type connector struct: the Kubernetes client, the usage tracker and the client's constructor.
pub record Connector (R : Runtime) (W C : Type 0) : Type 0 where
  pub kube : Kube R W
  pub track : C → Act W (Unit {0})
  pub new_fn : String → ClientApi W

checked : {S : Type 0} → String → Option Error → Act S String
checked token none = pure token
checked token (some e) = fail (wrap err_validate_token e)

module _ (R : Runtime) {W P O : Type 0} (c : Connector R W (Managed R P O)) where
  -- From cr.GetProviderConfigReference().Name on. The nil dereference panics in Go, and is an error
  -- here.
  connect_to : Option String → Act (Session (Managed R P O) W) (ClientApi W)
  unfolding checked
  connect_to none = fail (plain "invalid memory address or nil pointer dereference")
  connect_to (some name) = do
    pc ← or_wrap (call (c.kube.get_provider_config name)) (wrap err_get_pc)
    token ← or_wrap (call (extract_token R c.kube pc)) (wrap err_extract_token)
    token ← checked token (validate_token token)
    pure (c.new_fn token)

  -- The body of Connect, behind the test of the resource's kind.
  unfoldable pub connect : Act (Session (Managed R P O) W) (ClientApi W)
  unfolding connect_to get_provider_config_reference
  connect = do
    cr ← get
    or_wrap (call (c.track cr)) (wrap err_track_usage)
    connect_to (get_provider_config_reference cr)

module _ (R : Runtime) {W : Type 0} (read : String → Act W R.Meta) where
  resolve_ref : Option String → Act W String
  resolve_ref none = pure ""
  resolve_ref (some name) =
      if name == "" then pure "" else do meta ← read name; pure (R.get_external_name meta)

  -- ResolveConversationID and ResolveUserGroupID over the raw ID, the name of the reference and the
  -- read that the reference needs.
  unfoldable pub resolve_id : Option String → Option String → Act W String
  unfolding resolve_ref
  resolve_id none ref = resolve_ref ref
  resolve_id (some id) ref = if id == "" then resolve_ref ref else pure id
