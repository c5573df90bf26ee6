-- ===== src/Lib.antt =====
-- The control plane of the agent runtime client: the hub that browser extensions and desktop
-- workers connect to, the protocol that they speak, and what the hub relies on.
--
-- The parts and their files. Paths are those of the repository.
--   Protocol models domain/entity/control/protocol.go: the messages (Protocol/Message), the statuses of
--   a task (Protocol/Status) and the Validate methods (Protocol/Validate, with base64 in
--   Protocol/Base64). Protocol/Error has the errors as values, with the panic of a write to a nil map
--   among them. Protocol/Accepted and
--   Protocol/Attachments describe the well-formed messages without the code.
--   Store is the interface of domain/irepository/control/store.go.
--   Hub models application/service/control/hub.go. Hub/State has the hub's maps and the monad that its
--   methods run in: the state, the repository's answers, the messages sent on a connection. Hub/Devices
--   has Register, Unregister, Touch, Devices, Diagnostics, BindDevice and ResolveDevice; Hub/Sessions the
--   writes to one session; Hub/Tasks has BeginTask, ActiveSessions, Task, Tasks, SetTaskStatus and the
--   record methods; Hub/Messages has Observe and Progress; Hub/Dispatch has Dispatch and
--   CancelByConversation. The other files of Hub are proofs, and Hub/Steps has the histories: lists of
--   calls of the methods, in any order. Hub/Evolution/Soundness says what the hub needs of a repository
--   that keeps its sessions well formed (Reliable), and Tests/Soundness shows that control_store is one,
--   over a database of lists.
--   Repository models infra/repository/repo/control/store.go and the rows of
--   infra/repository/po/control/control_po.go: its methods over a database (Repository/Queries), and
--   the behaviour of the statements that they rely on (Repository/Laws).
--   Ulid models pkg/ulid/ulid.go, Cron models application/service/scheduledtask/cron.go, and Handler
--   models api/http/handler/control/handler.go.
--   Runtime models application/service/runtime/service.go and control_visual_input.go, with prepareRun
--   and prepareAgent of domain/srv/runtime/service.go and the records of domain/entity/runtime,
--   domain/entity/model and domain/entity/agent (Runtime/Values, Runtime/Events). Runtime/Control has
--   runControlLoop, runAgentControlLoop and runControlStep, Runtime/Dispatching has dispatchControlAction,
--   and Runtime/Context has what the model is told of an observation. Runtime/Models has resolveModel and
--   resolveStoredModel with RequiresAPIKey, Runtime/Hydration has ensureUserModel, hydrateModels and
--   hydrateSubAgentModels, Runtime/Agents has hydrateAgentConfig and hydrateAgentModels. The files below
--   them are proofs.
--   Catalogue models pkg/query/query.go (Catalogue/Query) and the reads of
--   infra/repository/repo/model/sys_model_impl.go (Catalogue/Models), which fill the record ModelService;
--   Catalogue/Filters says what a filter means, and Catalogue/Selection is the proof.
--   Schedule models application/service/scheduledtask/service.go and its rows: the operations of a user
--   in Schedule/Requests, execute in Schedule/Running with truncate in Schedule/Text, and tick in Schedule/Ticks,
--   where a history is a list of examinations of a task, starts and ends of runs, and changes by users.
--   Base has what the parts share, and Tests runs the code on small inputs.
--
-- How they interact. The run service takes the hub with it in its World, and calls its methods by
-- hub_call; the handler calls the hub; the hub validates messages by the protocol and calls
-- the repository through the record Store, which the repository's control_store fills.
--
-- Concurrency. A critical section of the hub is one function on its state. bindDevice and
-- ResolveDevice, whose check and write are two critical sections around a call of the repository, take
-- an argument for what other goroutines do to the hub in between. Dispatch is divided at the select in
-- which it waits: dispatch_start is what comes before it, and receive, cancel_dispatch and
-- expire_dispatch are its three cases, with any steps of the hub between the two. Every other method,
-- and each part of Dispatch, runs here without interruption: that of SetTaskStatus too, which gives up
-- its lock while the repository looks a task up that is not in memory, and saveTask, which writes a copy
-- after the lock is given up.
--
-- While a run waits for a device, Wait says what others do to the hub.
--
-- Parameters. The runtime behind the gateway, the client of a stream, the clock and the JSON texts of a
-- run are fields of Surroundings; the model service and the agent service are records of calls
-- (ModelService, AgentService), and url.Parse and net.ParseIP are Net,
-- or Network with net.SplitHostPort for the handler. The database has the clock that gorm reads for
-- a column updated_at (unix_now) and, for models, its own comparison of values. SHA-256 (Codec), the JSON codec (Json), the database, the clock and the random bytes are
-- arguments of the definitions that use them. A map is an association list, and a range over a map
-- takes its entries in the list's order. A time is a number of nanoseconds.
--
-- Fuel. The control loop has the eight turns of maxDeviceActionIterations. The loop over a cron range has a fuel of 128: a field lies below 60, so that the loop takes at
-- most 60 values before it leaves the range or wraps around to a negative value, and at most 60 after.
--
-- Not modelled: the routes and the listing handlers, the timer of the scheduled task service, the media
-- jobs, memories and recorded conversations of the run service, its gRPC gateway, and the services and
-- handlers that only pass records to their repositories.
pub mod Base
pub mod Protocol
pub mod Store
pub mod Hub
pub mod Runtime
pub mod Ulid
pub mod Cron
pub mod Repository
pub mod Catalogue
pub mod Schedule
pub mod Handler
pub mod Tests
