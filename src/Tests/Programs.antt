-- ===== src/Tests/Programs.antt =====
-- A manager that registers every controller and starts.
use mathlib.Core.List.{Memᴰ}
use crossplane_provider_slac.Base.{
  ◌≡◌, refl, sym, ◌∙◌, String, ◌<>◌, ◌==◌, eq_refl, Bool, true, false, ◌&&◌, ◌||◌, none, some, List,
  [], ◌∷◌, ◌++◌, arith,
}
use crossplane_provider_slac.Errors.{ok, err, plain}
use crossplane_provider_slac.Slack.Client.{Library}
use crossplane_provider_slac.Slack.Json.{null}
use crossplane_provider_slac.Apis.{Kind}
use crossplane_provider_slac.Runtime.Scheme.{GroupVersion, SchemeLibrary, IsSchemeLawful}
use crossplane_provider_slac.Setup.{Manager}
use crossplane_provider_slac.Setup.Programs.{Host, Flags, provider_conversation}
use crossplane_provider_slac.Setup.Programs.Registered.{Registers}
use crossplane_provider_slac.Setup.Programs.Started.{
  needed, recognizes_all, conversation_kinds, provider_conversation-registers,
}
use crossplane_provider_slac.ProviderConfig.Reconcile.{no_requeue}
use crossplane_provider_slac.Tests.Fixtures.{test_runtime, no_kube}

-- A kind is a group version with a name; a builder and a scheme say which kinds they have.
abbrev GroupVersionKind : Type 0
GroupVersionKind = GroupVersion × String

abbrev Kinds : Type 0
Kinds = GroupVersionKind → Bool

has_name : String → List String → Bool
has_name name [] = false
has_name name (n ∷ ns) = n == name || has_name name ns

same_version : GroupVersion → GroupVersion → Bool
same_version a b = a.group == b.group && a.version == b.version

abbrev registered_in : GroupVersion → List String → Kinds → Kinds
registered_in gv names kinds k = (same_version gv k.0 && has_name k.1 names) || kinds k

abbrev schemes : SchemeLibrary
schemes = record {
  GroupVersionKind = GroupVersionKind;
  Builder = GroupVersion × Kinds;
  Scheme = Kinds;
  group_kind_text = λ group kind. kind <> ("." <> group);
  with_kind = λ gv kind. (gv, kind);
  builder = λ gv. (gv, λ k. false);
  register = λ b names. (b.0, registered_in b.0 names b.1);
  add_to_scheme = λ b scheme. some (λ k. b.1 k || scheme k);
  client_go_add_to_scheme = λ scheme. some scheme;
  new_scheme = λ k. false;
  recognizes = λ scheme k. scheme k;
}

some-at : {f g : Kinds} (k : GroupVersionKind) → some f ≡ some g → f k ≡ g k
some-at k p = cc

has_name-Mem : (name : String) (names : List String) → Memᴰ name names → has_name name names ≡ true
unfolding has_name
has_name-Mem name [] mem = elim mem [ ]
has_name-Mem name (n ∷ ns) (Memᴰ.head e) = rw (e, eq_refl n) refl
has_name-Mem name (n ∷ ns) (Memᴰ.tail mem) = rw (has_name-Mem name ns mem) (ground arith)

same_version_refl : (gv : GroupVersion) → same_version gv gv ≡ true
unfolding same_version
same_version_refl gv = rw (eq_refl gv.group, eq_refl gv.version) refl

or_left : (a b : Bool) → a ≡ true → (a || b) ≡ true
or_left a b h = rw h refl

or_right : (a b : Bool) → b ≡ true → (a || b) ≡ true
or_right true b h = refl
or_right false b h = h

or_false : (a : Bool) → (a || false) ≡ true → a ≡ true
or_false true h = refl
or_false false h = h

schemes-IsSchemeLawful : IsSchemeLawful schemes
schemes-IsSchemeLawful = record {
  version_of = λ b. b.0;
  version-builder = λ gv. refl;
  version-register = λ b names. refl;
  registers = λ b names name s t mem done.
      sym (some-at (b.0, name) done) ∙ rw (same_version_refl b.0, has_name-Mem name names mem) refl;
  registers_also = λ b names k known s t done.
      sym (some-at k done)
      ∙ or_left _ (s k) (or_right _ (b.1 k) (or_false (b.1 k) (known (λ k. false) _ refl)));
  adds_only = λ b k s t done known. sym (some-at k done) ∙ or_right (b.1 k) (s k) known;
}

-- The world is the list of the kinds that are registered, with the scheme.
abbrev World : Type 0
World = List Kind × Kinds

abbrev nothing : World
nothing = ([], λ k. false)

abbrev manager : Manager test_runtime schemes World (Unit {0}) (Unit {0})
manager = record {
  kube = no_kube;
  update_status = λ pc w. (ok tt, w);
  was_deleted = λ pc. false;
  is_not_found = λ e. false;
  track = λ cr w. (ok tt, w);
  controller_name = λ group_kind. "managed/" <> group_kind;
  provider_config_name = "providerconfig";
  new_reconciler = λ kind policies name c. tt;
  standard_reconciler = λ controller name w. ((no_requeue, none), w);
  complete = λ name o kind h w. (ok tt, (w.0 ++ (kind ∷ []), w.1));
  complete_provider_config = λ name o h w. (ok tt, w);
}

abbrev host : Host schemes World (Unit {0})
host = record {
  new_manager = λ options w. (ok tt, (w.0, options.scheme));
  start = λ w. (ok tt, w);
  no_options = tt;
}

abbrev no_library : Library World (Unit {0})
no_library = record {
  default_http = record {
    send = λ req w. (err (plain "offline"), w);
    clone = λ req. req;
    close = λ resp w. w;
    sleep = λ d w. (ok tt, w);
    random_below = λ limit w. (0, w);
    parse_int = λ text. none;
  };
  new_request = λ url body. ok tt;
  set_header = λ name value req. req;
  set_get_body = λ body req. req;
  encode = λ form. "";
  read_all = λ resp w. (ok "", w);
  parse_json = λ text. ok null;
}

host-Registers : Registers host manager (λ w. w.0) (λ w. w.1)
host-Registers = record {
  builds = λ options w done. (refl, refl);
  completes = λ name o kind h w done. (refl, refl);
}

abbrev flags : Flags
flags = record { sync_period = 36000000000000; leader_election = false }

conversation_starts : (provider_conversation host manager no_library 5 flags nothing).0 ≡ ok tt
unfolding provider_conversation
conversation_starts = refl

provider_conversation-registers_example :
    (scheme : Kinds) × (recognizes_all schemes scheme (needed schemes conversation_kinds) ≡ true)
    × (v : World) × (v.0 ≡ [] ++ conversation_kinds)
    × (v.1 ≡ scheme)
    × (provider_conversation host manager no_library 5 flags nothing ≡ host.start v)
provider_conversation-registers_example =
    provider_conversation-registers schemes-IsSchemeLawful host manager no_library 5 flags
      (λ w. w.0) (λ w. w.1) host-Registers nothing conversation_starts
