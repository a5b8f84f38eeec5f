-- ===== src/Lib.antt =====
-- Verification library of the RTL debugger, an extension of an editor that drives a simulation of a
-- circuit over the CXXRTL debug protocol.
--
-- The program's parts. A link (src/cxxrtl/link.ts) turns a stream of bytes into packets at NULs. A
-- connection (src/cxxrtl/client.ts) exchanges packets (src/cxxrtl/proto.ts) with the server: it greets,
-- sends commands, and settles the promise of each command with the next reply. A session
-- (src/debug/session.ts) asks the server, through its connection, for the design, for samples and for
-- the simulation's status, and keeps the time cursor. An observer (src/debug/observer.ts) binds
-- designations (src/model/sample.ts) of variables (src/model/variable.ts) to a reference and reads their
-- values from the samples that the session gets. Times (src/model/time.ts), scopes (src/model/scope.ts),
-- source locations (src/model/source.ts) and texts of values (src/model/styling.ts) serve the tree
-- (src/ui/sidebar.ts) and the status bar (src/ui/status.ts) of the editor. The debugger
-- (src/debugger.ts) launches the simulation, connects to it, and begins and ends the session; the
-- commands of the editor (src/extension.ts) call the debugger, its session, and what is stored in the
-- editor's configuration (src/debug/options.ts, src/debug/watch.ts).
--
-- What models what. In every component's file the functions have the source's names in snake case.
-- Common: lists, numerals and texts as lists of code units, signed integers over native numbers
--   (JavaScript's bigint and numbers), and results of code that may throw.
-- Proto: src/cxxrtl/proto.ts, the packets as data types.
-- Link: src/cxxrtl/link.ts. The data handler of the stream link is a list of its acts; Link.Framing is
--   about the cutting into packets, Link.Flow about the pauses of the stream, Link.Mock about the mock link;
--   Link.Waiting cuts the handler at its await, under a connection and a session.
-- Client: src/cxxrtl/client.ts as a state machine: `perform` in the parts before and behind its await,
--   and the handlers of the link, each with the effects that it has. Client.History has the histories of
--   calls and packets, Client.Packets and Client.Queue are about the queue of promises, Client.Replies
--   about the replies, Client.Calls about the methods and their types, Client.Turns about single turns.
-- Session: src/debug/session.ts: the status with its notices, the time cursor, runs and steps. The
--   replies of the server are a parameter. Session.Database: references and their epochs, and the
--   reading of intervals. Session.Design: which scopes are listed in a scope;
--   Session.Design.Scopes: the scopes that are made of them. Session.Live: the calls cut at their
--   awaits, as steps that overlap (Session.Live.Steps). Session.Live.Stable has what every step keeps,
--   Session.Live.Listeners is about listeners and the range of the cursor, Session.Live.Polling and
--   Session.Live.Timers about the status query and its timers (Session.Live.Timers.Apart has the
--   histories in which the queries do not overlap), Session.Live.Alone about a call that no other
--   overlaps. Session.Live.Connected joins such a session with its connection.
-- Observer: src/debug/observer.ts, `refresh` in the parts before and behind its await. Observer.Steps has
--   what can happen to it, Observer.Ready, Observer.Changes and Observer.Current what holds then,
--   Observer.Idle what follows,
--   Observer.Ends that a refresh ends, Observer.Bound that its reference is the session's current one.
-- Debugger: src/debugger.ts as steps of the process, the timer and the sockets (Debugger.Steps);
--   Debugger.Told is about what listeners are told, Debugger.Fields about what each operation changes,
--   Debugger.Phases about the order of the statuses, Debugger.Running and Debugger.Absent about
--   the session by the status.
-- Sidebar: src/ui/sidebar.ts, the items and their children; Sidebar.Display has what is shown of an item,
--   Sidebar.Provider the provider of the tree with its observer. Sidebar.Values is about the values that
--   are shown, Sidebar.Bits about the bits of one, Sidebar.Watching about the watch list.
-- Status: src/ui/status.ts and src/ui/input.ts. Extension: the commands of src/extension.ts;
--   Extension.Times is about going to a time, Extension.Stored about the radix of each variable,
--   Extension.Views about what the sidebar and the status bar show of the debugger's session, with the
--   status bar's listeners on the sessions themselves (Extension.Views.Listened), and
--   Extension.Commands has the commands of the debugger and its session, in the parts before and behind
--   a prompt, and the editor's contexts.
-- Options, Watch: src/debug/options.ts and src/debug/watch.ts, over the configuration of the editor.
-- Time, Source, Variable, Scope, Sample, Styling: the files of src/model of these names.
--   Sample.Layout also has the loop of src/debug/observer.ts that adds the designations to a reference.
-- The modules named Tests, and Session.Listings, hold runs at concrete values and concrete cases of the results.
--
-- Bounds and fuel. `stepForward` loops until the server has a second sample: look_ahead runs on fuel.
-- Each round doubles the guess, which is one at least, so one round more than the femtoseconds that the
-- first guess falls short of the next sample is enough. groupDecimals runs on the number itself, which
-- each round divides by 1000. All other loops recurse on their lists or counts. The word count of a
-- variable is cut to an int32 as the source cuts it. Numbers that JavaScript rounds beyond 2 ^ 53 are
-- exact here.
--
-- What is not modelled. Streams, JSON, the decoding of base64 and the calls of the editor are the
-- libraries' and are parameters or effects. Calls of a session that ask for items, scopes or samples run
-- with no other call in between. How the steps of the debugger, the session and the observer mix has no
-- model: each is modelled by itself, and what the others do to it is a step.
pub mod Common
pub mod Time
pub mod Source
pub mod Proto
pub mod Variable
pub mod Scope
pub mod Sample
pub mod Session
pub mod Sidebar
pub mod Status
pub mod Extension
pub mod Styling
pub mod Options
pub mod Watch
pub mod Observer
pub mod Debugger
pub mod Link
pub mod Client
