-- ===== src/Lib.antt =====
-- A model of the Crossplane provider for Slack: six controllers of managed resources, the controller
-- that checks a ProviderConfig's credentials, the Slack client with its requests, answers and
-- retries, and the programs that register the controllers.
--
-- Parts. A managed resource's controller (internal/controller/<kind>/<kind>.go) is called by the
-- managed reconciler of crossplane-runtime: Connect makes a Slack client from the token of the
-- ProviderConfig, Observe compares Slack with the resource, and Create, Update and Delete change
-- Slack. The controllers differ in the Slack objects that they manage:
--   Conversation         internal/controller/conversation, apis/conversation/v1alpha1;
--                        Conversation/AutoLink is stripSlackAutoLinks
--   UserGroup            internal/controller/usergroup, apis/usergroup/v1alpha1
--   UserGroupMembers     internal/controller/usergroupmembers, apis/usergroupmembers/v1alpha1;
--                        UserGroupMembers/SetsEqual is setsEqual
--   Bookmark             internal/controller/bookmark, apis/bookmark/v1alpha1
--   Pin                  internal/controller/pin, apis/pin/v1alpha1
--   ConversationMember   internal/controller/conversationmember, apis/conversationmember/v1alpha1
--   Apis                 apis: the group versions, kinds and registered types, the methods of managed.go
--                        and of v1alpha1/providerconfig_interfaces.go
--   Connector            the Connect methods and the Resolve functions of the referencers.go files
--   ProviderConfig       internal/controller/providerconfig/providerconfig.go, and in Reconcile the
--                        Reconcile method of setup.go
--   Setup                internal/controller/<kind>/setup.go, internal/features; Setup/Programs is cmd
--   Errors               internal/clients/slack/errors.go
--   Slack                internal/clients/slack: Types is types.go, Api the ClientAPI interface, Retry
--                        ratelimit.go, Json the decoding by the tags of types.go, Form url.Values,
--                        and Client the HTTP client: client.go, with a child for each file of
--                        methods (Pages has those of conversations.go that read page by page).
--                        Client/Assembly makes the interface of the methods
--   System               the external structs of the controllers, and sequences of their calls over
--                        resources of all kinds
--   Act                  calls with effects: a state, a result or an error, the next state
--   Runtime              crossplane-runtime and the reads of the Kubernetes client, as parameters
--   Base                 shared names, texts, lists and integers
--   Tests                concrete services on which the theorems are applied
--
-- State. A handler runs on a Session: the resource, which the Go code changes through its pointer,
-- and a world, which stands for Slack and Kubernetes and which a handler changes by calls only. Each is a
-- function of type Act, and a second one, with _managed, adds the test of the resource's kind. The
-- Slack client and the Kubernetes client are records of functions on the world. Go's error values
-- are the data type Error; errors.As and errors.Is look along its chain of causes. A panic ends with an
-- error: of utilruntime.Must, and of Connect where the resource names no ProviderConfig.
--
-- The HTTP client. Library stands for net/http, net/url, io and encoding/json: building a request,
-- sending it, reading a body, encoding a form, parsing a text into a Json value. What Unmarshal does
-- with the value, by the tags of a struct, is modelled. The controllers take any ClientApi;
-- slack_client is the one of the program, and the theorems in the Remote modules are on a controller
-- with slack_client, from the answer to the conditions of the resource. The Http modules of
-- Conversation, Bookmark, Pin, ConversationMember, UserGroup and UserGroupMembers state what Slack keeps
-- of channels, bookmarks, pins, members and user groups by the methods and forms of its API, in place of
-- the calls of the interface.
--
-- Laws of the surroundings. Theorems on what Observe reports after another handler take a record of
-- laws, in the Service module of the controller or in its Http module, that says what Slack keeps: a new channel has the
-- name it was given, a text is stored in a form of Slack's own, a removed pin is no longer listed.
-- IsLawful in Runtime says that annotations and conditions read back as written. Runtime/Scheme has
-- apimachinery's schemes, with the law that a scheme recognizes what has been registered with a builder
-- that was added to it. Tests has an instance of each.
--
-- Order of calls. The reconcilers decide which handler is called next, and when. System leaves this
-- open: an event is any call with any resource, or any change of the world by somebody else, and its
-- theorems are on all lists of events. The Frame modules say what one call leaves of a resource.
--
-- Texts are Go strings that hold UTF-8; the bytes that the code looks at are ASCII. Loops are
-- recursions on lists and texts, so no fuel is needed; doWithRetry recurses on the attempts that are
-- left, at most three; the matcher of stripSlackAutoLinks counts the characters of a match down. The
-- two loops over pages have no bound in the code, which goes on as long as Slack gives cursors; here
-- a number bounds the pages, and the error unfinished stands for a loop that has not ended within it.
-- A bound of at least the number of pages that Slack gives is enough.
-- int64 fields are integers and are only copied; the product of a Retry-After in seconds and a
-- second wraps around at 2 ^ 63.
--
-- Not modelled: the parsing of JSON texts, the URL encoding and the HTTP transport, which are the Go
-- library; the standard reconcilers of crossplane-runtime, which are parameters; flags, logging and
-- contexts; the generated deep copies, of which a model with immutable values has no use; and the
-- version string, which the build sets.
pub mod Base
pub mod Errors
pub mod Act
pub mod Runtime
pub mod Slack
pub mod ProviderConfig
pub mod Connector
pub mod Conversation
pub mod UserGroup
pub mod UserGroupMembers
pub mod Bookmark
pub mod Pin
pub mod ConversationMember
pub mod Apis
pub mod System
pub mod Setup
pub mod Tests
