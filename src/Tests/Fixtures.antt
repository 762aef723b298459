-- ===== src/Tests/Fixtures.antt =====
-- A runtime with one annotation and two conditions, and clients whose calls fail until a test gives
-- them.
use crossplane_provider_slac.Base.{
  ◌≡◌, ◌≢◌, refl, String, Option, none, some, [], ◌∷◌, ◌==◌, if◌then◌else◌,
}
use crossplane_provider_slac.Errors.{Error, plain, slack}
use crossplane_provider_slac.Act.{Act, fail}
use crossplane_provider_slac.Runtime.{
  Runtime, IsLawful, Condition, ConditionType, ready, synced, status_true, status_unknown, Managed,
  Session,
}
use crossplane_provider_slac.ProviderConfig.{Kube}
use crossplane_provider_slac.Slack.Api.{ClientApi}

pub record TestConditions : Type 0 where
  pub on_ready : Condition
  pub on_synced : Condition

abbrev unset : ConditionType → Condition
unset k = record { kind = k; status = status_unknown; reason = ""; message = "" }

abbrev read : TestConditions → ConditionType → Condition
read cs ready = cs.on_ready
read cs synced = cs.on_synced

abbrev write : ConditionType → TestConditions → Condition → TestConditions
write ready cs c = record cs { on_ready = c }
write synced cs c = record cs { on_synced = c }

abbrev pub test_runtime : Runtime
test_runtime = record {
  Meta = String;
  Conditions = TestConditions;
  get_external_name = λ m. m;
  set_external_name = λ m n. n;
  set_condition = λ cs c. write c.kind cs c;
  get_condition = read;
  available = record { kind = ready; status = status_true; reason = "Available"; message = "" };
}

abbrev pub no_conditions : TestConditions
no_conditions = record { on_ready = unset ready; on_synced = unset synced }

read-write : (k : ConditionType) (cs : TestConditions) (c : Condition) → read (write k cs c) k ≡ c
read-write ready cs c = refl
read-write synced cs c = refl

read-write_other :
    (j k : ConditionType) (cs : TestConditions) (c : Condition)
    → k ≢ j
    → read (write j cs c) k ≡ read cs k
read-write_other ready ready cs c h = absurd (h refl)
read-write_other ready synced cs c h = refl
read-write_other synced ready cs c h = refl
read-write_other synced synced cs c h = absurd (h refl)

pub test_runtime-IsLawful : IsLawful test_runtime
test_runtime-IsLawful = record {
  get-set_external_name = λ m n. refl;
  get-set_condition = λ cs c. read-write c.kind cs c;
  get-set_condition_other = λ cs c k h. read-write_other c.kind k cs c h;
  available_kind = refl;
  available_status = refl;
}

abbrev unused : {W A : Type 0} → Act W A
unused = fail (plain "not in this test")

abbrev pub no_api : {W : Type 0} → ClientApi W
no_api = record {
  create_conversation = λ a b. unused;
  get_conversation_info = λ a. unused;
  find_conversation_by_name = λ a. unused;
  rename_conversation = λ a b. unused;
  set_conversation_topic = λ a b. unused;
  set_conversation_purpose = λ a b. unused;
  archive_conversation = λ a. unused;
  join_conversation = λ a. unused;
  invite_to_conversation = λ a b. unused;
  kick_from_conversation = λ a b. unused;
  get_conversation_members = λ a. unused;
  add_bookmark = λ a b. unused;
  list_bookmarks = λ a. unused;
  edit_bookmark = λ a b c. unused;
  remove_bookmark = λ a b. unused;
  add_pin = λ a b. unused;
  list_pins = λ a. unused;
  remove_pin = λ a b. unused;
  create_user_group = λ a. unused;
  list_user_groups = unused;
  update_user_group = λ a b. unused;
  disable_user_group = λ a. unused;
  list_user_group_members = λ a. unused;
  update_user_group_members = λ a b. unused;
  lookup_user_by_email = λ a. unused;
}

abbrev pub no_kube : {W : Type 0} → Kube test_runtime W
no_kube = record {
  get_provider_config = λ a. unused;
  get_secret = λ a b. unused;
  get_conversation = λ a. unused;
  get_user_group = λ a. unused;
}

-- An error with a code, as Slack answers.
abbrev pub refusal : String → Error
refusal code = slack (record { code = code; message = "" })

-- A table by ID.
abbrev pub Table : Type 0 → Type 0
Table A = String → Option A

abbrev pub put : {A : Type 0} → String → A → Table A → Table A
put id a t i = if i == id then some a else t i

-- A resource with an external name and a state of the world.
abbrev pub session : {P O W : Type 0} → String → P → O → W → Session (Managed test_runtime P O) W
session name p o w = record {
  cr = record {
    meta = name;
    conditions = no_conditions;
    spec = record {
      provider_config_reference = some "default";
      write_connection_secret_to_reference = none;
      management_policies = "*" ∷ [];
      deletion_policy = "Delete";
    };
    for_provider = p;
    at_provider = o;
  };
  world = w;
}
