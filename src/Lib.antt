-- ===== src/Lib.antt =====
-- A model of the core of agentgarage, and what is proved of it. Paths are from the repository's root.
--
-- The program runs agents that talk to people. An agent takes a turn in a session: it asks a language
-- model, runs the tools that the model calls in the session's sandbox, and saves the session. Sandboxes
-- are named; a manager starts their compute when a command needs it and stops it when it has been idle.
-- Chat bridges carry a turn's events and its answer to a messenger. A host and a laptop exchange mail
-- and releases through signed objects in a bucket. An agent's sessions, notes and other data lie in
-- tables of a database. Its tools are commands in the sandbox, or those of another server. An agent that
-- works on a repository has a worktree for each task.
--
-- Sandbox.Types, Sandbox.Entry: metaharness/sandbox/manager.go, state.go, observer.go, backend.go. The
--   goroutine of one sandbox (`entry`) is the function `serve` of a request and a machine: the entry,
--   the world of the backend and the clock, and the events observed. doExec, doIdle, doDestroy,
--   doObserve, armIdle, stopTimer, commit, publish and exit are do_exec, do_idle and so on; a part of
--   a function that follows a backend's answer is a helper of its own (prepare_done, stop_done,
--   destroy_done). `snaps` keeps every snapshot published, where the source keeps the last.
-- Sandbox.Manager: metaharness/sandbox/manager.go and handle.go. A pointer to an entry is an index in
--   the heap of all entries ever made; `table` is the map of names. Each call is a function: what it
--   does where no other call comes between its steps. Steps has those steps, which the calls of several
--   goroutines mix in any order: a look at the table under its lock, a request that a sandbox's goroutine
--   serves, the parts of Reconcile and of Close. A timer that fires is `wake`, with any deadline. An
--   idle timeout of 0 stands for every one that is not positive.
-- Agent.Message, Agent.Parts: metaharness/model/message.go and the helpers in metaharness/agent/run.go.
--   Token counts add modulo 2^64.
-- Agent.Session: metaharness/agent/session.go and store.go. A live handle is the name of its sandbox
--   and a number; what closing a handle returns is left out.
-- Agent.Run: metaharness/agent/run.go, the loop of Run from its first round. The model, the store, the
--   tools and the context are operations on an abstract world; a tool does not change the session.
--   `rounds` runs a number of rounds: the source sets no bound, so the theorems hold for each number.
-- Agent.Run.Begin: the same file, from Run's checks on, with a number of rounds; and what a turn leaves
--   alone.
-- Agent.Sessions: metaharness/agent/sessions.go, resuming a stored session.
-- Agent.Wiring: metaharness/agent/agent.go, memory.go and adapt.go: an agent from its options, its
--   system prompt, and the adapter that holds a typed tool to its schema. Schemas and JSON are
--   parameters.
-- Agent.Stream: metaharness/model/stream.go, Collect and Streamed, with a stream as a list.
-- Memory: metaharness/memory/memory.go, the notes in the prompt and the tool that writes them.
-- Tools: metaharness/tools. Strings has Go's functions on strings that the tools call, Shell the quoting
--   and the files of files.go with bash.go and write_file.go, Edit edit_file.go, Read read_file.go, with
--   the wrap-around of its sum of ints, and Skill skill.go. The sandbox is a function of a command.
-- Workspace, Workspace.Tasks, Workspace.Pulls: workspace/workspace.go. A function that runs programs is
--   a chain of steps on the host's world, each of which may fail; git, gh, mise, the files and the
--   environment are the host's.
-- Mcp, Mcp.Names, Mcp.Calls: metaharness/mcp/server.go, tools.go, call.go and observer.go. The events
--   that an observer gets are a list in the server's state; calls do not overlap.
-- Bridge.Split, Bridge.Lines: metaharness/bridge/telegram/text.go; metaharness/bridge/xmpp/text.go has
--   the same functions but for splitting. A text is the list of its code points. The fuel of
--   split_message is the length of the text, which is enough since each message takes at least one.
-- Bridge.Desk, Bridge.Status, Bridge.Turns, Bridge.Commands: what metaharness/bridge/xmpp/bridge.go and
--   metaharness/bridge/telegram/bot.go have in common: the commands of a chat, the status message, a
--   turn with its events. The desk is the current session and the world. The agent runs a turn to its
--   end before its events are read; the lock that keeps turns apart is the order of the calls.
-- Bridge.Xmpp: metaharness/bridge/xmpp/bridge.go and schedule.go. Stanzas is what the stream's handler
--   does, Queue the message queue as steps of two goroutines, Config the checks of a configuration,
--   Schedule the times of day, Serve the loop. The XMPP library, the zone database and the network are
--   parameters; an instant is a number of seconds, in Stanzas of nanoseconds.
-- Bridge.Telegram: metaharness/bridge/telegram/bot.go, from an update on.
-- Store.Keys, Store.Table: metaharness/agentdb/turso/kv.go. The SQL statements are functions on the
--   list of rows; the database's errors and the encoding of times are left out.
-- Store.Sessions, Store.Notes, Store.Migrations: metaharness/agentdb/turso/store.go, notes.go and
--   migrate.go, in the same way. In Sessions and Migrations every call of the database may fail, by a
--   function from calls to errors; a transaction that fails leaves the tables as they were.
-- Bucket.Types, Bucket.Fake, Bucket.Client: bucket/store.go, fake.go and client.go. The client is as
--   one named caller sees it. ed25519, base64 and the rate limiter are parameters.
-- Bucket.Mail: bucket/mail/mail.go, with JSON as a parameter. Sending has as fuel the number of
--   objects and one more; receiving has any fuel above the number of messages that are there.
-- Chatroom: chatroom/chatroom.go. The rows of the table of messages stand in the order of their ids; an
--   inbox is the list of the messages in its channel. Mentions is the search of the regular expression
--   for mentions, as a scan from left to right.
-- Chatroom.Relay: chatroom/mail.go, one pass of the relay, with its cursors; the fuel is that of mail.
-- Hosting.Release: hosting/release.go. A host's directory of releases is a record of what is seen, which
--   binaries are there and which is current; whether a binary runs is a parameter.
-- Hosting.Backup: hosting/backup.go, with a disk as a list of paths and contents; a snapshot is written
--   beside its place and renamed.
-- Prelude: lists, texts, decimal numerals and sorting by a key, over the native numbers.
-- Checks: the theorems at concrete inputs.
--
-- Not modelled: when the timer of the XMPP bridge's next slot fires; the backends that run containers
-- or processes; the clients of the model, the messengers, the object store and the protocol
-- of tool servers; the command line, the user interface and the wiring of the agents; the rest of
-- hosting, the chatroom's Wait and its HTTP handlers; and of the bridges, dialling, polling and the
-- repeated typing action.
mod Prelude
pub mod Sandbox
pub mod Store
pub mod Agent
pub mod Bridge
pub mod Bucket
pub mod Chatroom
pub mod Hosting
pub mod Tools
pub mod Memory
pub mod Workspace
pub mod Mcp
pub mod Checks
