-- ===== src/Proto.antt =====
-- src/cxxrtl/proto.ts: the packets of the CXXRTL protocol. The tags `type` and `command` are the
-- constructors; a map from names is the list of its entries, in the order of `Object.entries`.
use rtl_debugger.Common.{ℕ, Bool, List, Option}
use rtl_debugger.Common.Int.{ℤ}
use rtl_debugger.Common.Text.{Text}

-- The source's type of attribute maps holds such maps again.
pub data AttributeMap : Type 0 where
  no_attributes : AttributeMap
  attribute : Text → AttributeMap → AttributeMap → AttributeMap

pub record ScopeDefinition : Type 0 where
  pub src : Option Text
  pub name : Option Text
  pub attributes : AttributeMap

pub record ScopeInstantiation : Type 0 where
  pub src : Option Text
  pub attributes : AttributeMap

pub data ScopeDescription : Type 0 where
  module_scope : ScopeDefinition → ScopeInstantiation → ScopeDescription

abbrev pub ScopeDescriptionMap : Type 0
ScopeDescriptionMap = List (Text × ScopeDescription)

pub record ItemDescriptionNode : Type 0 where
  pub src : Option Text
  pub lsb_at : ℕ
  pub width : ℕ
  pub input : Bool
  pub output : Bool
  pub settable : Bool
  pub attributes : AttributeMap

pub record ItemDescriptionMemory : Type 0 where
  pub src : Option Text
  pub lsb_at : ℕ
  pub width : ℕ
  pub zero_at : ℕ
  pub depth : ℕ
  pub settable : Bool
  pub attributes : AttributeMap

pub data ItemDescription : Type 0 where
  node : ItemDescriptionNode → ItemDescription
  memory : ItemDescriptionMemory → ItemDescription

abbrev pub ItemDescriptionMap : Type 0
ItemDescriptionMap = List (Text × ItemDescription)

pub data ItemDesignation : Type 0 where
  whole : Text → ItemDesignation
  rows : Text → ℤ → ℤ → ItemDesignation

pub data DiagnosticType : Type 0 where
  diagnostic_break diagnostic_print diagnostic_assert diagnostic_assume : DiagnosticType

pub record Diagnostic : Type 0 where
  pub kind : DiagnosticType
  pub text : Text
  pub src : Option Text

-- A sample as it is received; `time` is a text of the protocol.
pub record ProtoSample : Type 0 where
  pub time : Text
  pub item_values : Option Text
  pub diagnostics : Option (List Diagnostic)

pub record QueryInterval : Type 0 where
  pub interval : Text × Text
  pub collapse : Bool
  pub items : Option Text
  pub item_values_encoding : Option Text
  pub diagnostics : Bool

pub record RunSimulation : Type 0 where
  pub until_time : Option Text
  pub until_diagnostics : List DiagnosticType
  pub sample_item_values : Bool

-- The scope that is listed, or all of them.
abbrev CommandListScopes : Type 0
CommandListScopes = Option Text

abbrev CommandListItems : Type 0
CommandListItems = Option Text

pub data Command : Type 0 where
  list_scopes : CommandListScopes → Command
  list_items : CommandListItems → Command
  reference_items : Text → Option (List ItemDesignation) → Command
  query_interval : QueryInterval → Command
  get_simulation_status : Command
  run_simulation : RunSimulation → Command
  pause_simulation : Command

-- Latest time, and in a pause the time of the next sample.
pub data StatusResponse : Type 0 where
  paused : Text → Text → StatusResponse
  running finished : Text → StatusResponse

abbrev ResponseListScopes : Type 0
ResponseListScopes = ScopeDescriptionMap

abbrev ResponseListItems : Type 0
ResponseListItems = ItemDescriptionMap

abbrev ResponseQueryInterval : Type 0
ResponseQueryInterval = List ProtoSample

-- A time of the protocol.
abbrev ResponsePauseSimulation : Type 0
ResponsePauseSimulation = Text

pub data Response : Type 0 where
  scopes_listed : ResponseListScopes → Response
  items_listed : ResponseListItems → Response
  items_referenced : Response
  interval_queried : ResponseQueryInterval → Response
  status_got : StatusResponse → Response
  simulation_started : Response
  pause_requested : ResponsePauseSimulation → Response

pub data PauseCause : Type 0 where
  until_time until_diagnostics : PauseCause

pub data Event : Type 0 where
  simulation_paused : Text → PauseCause → Event
  simulation_finished : Text → Event

pub record ServerGreeting : Type 0 where
  pub version : ℕ
  pub commands : List Text
  pub events : List Text
  pub item_values_encoding : List Text

pub record ErrorPacket : Type 0 where
  pub error : Text
  pub message : Text

-- The client's greeting has version 0.
pub data ClientPacket : Type 0 where
  client_greeting : ClientPacket
  command : Command → ClientPacket

pub data ServerPacket : Type 0 where
  greeting : ServerGreeting → ServerPacket
  response : Response → ServerPacket
  event : Event → ServerPacket
  error : ErrorPacket → ServerPacket
