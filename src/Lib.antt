-- ===== src/Lib.antt =====
-- Orchy: a workflow engine over Redis shards. A workflow is a graph of actions; the engine runs
-- one instance of it, a flow, by executing an action, storing the flow's context and dispatching
-- the actions that follow. This library models the program's own logic and proves what it does.
--
-- How the parts interact. A REST or gRPC request reaches a service (service/), which calls the
-- cluster (cluster/cluster.go). The cluster finds the flow's partition on the hash ring
-- (cluster/ring.go) and calls the engine of that shard (shard/engine.go). The ring follows the
-- events of the membership (cluster/membership.go), which start and stop the shards. The engine
-- reads the flow's machine from the container (shard/flow.go), moves it forward, and writes the
-- context and the requests for the next actions to the shard's storage
-- (persistence/redis/shard.go). The five executors of a shard (shard/executor) poll the storage
-- and call the engine again, or push actions into the queue (persistence/redis/queue.go) from
-- which the workers poll.
--
-- Files, by the code that they model.
-- - Base: Go's int and time.Duration as integers with the wrap-around to 64 bits written out,
--   string as a list of code points, map as an association list whose order stands for the order
--   of iteration, what is used of strconv and strings, results that may be a panic, state passing.
-- - Model: model/*.go and the errors of the packages; Model/Value: a map[string]any.
-- - Util: util/slice.go (Slice; Slice/Laws, Slice/Members), util/param_resolver.go
--   (ParamResolver).
-- - Base/Strconv: strconv.Itoa and Atoi, strings.Split and Join.
-- - Flow: flow/flow.go. Action: action/*.go.
-- - Metadata: metadata/service.go; Metadata/Store: metadata/storage.go; Metadata/Walk: its
--   recursion walk, with an inductive description of its result that has no fuel (Walk/Ends,
--   Walk/Reference); Metadata/Sound: what ValidateFlow accepts; Metadata/Graph: when GetFlow
--   returns; Metadata/Terminals: which terminal sets it finds; Metadata/Params: which parameters
--   the actions of an accepted workflow have.
-- - Shard/Storage: the interface Storage of shard/shard.go, shard/state_change_handlers.go;
--   Shard/Machine: FlowStateMachine; Shard/Container: FlowStateMachineContainer (shard/flow.go);
--   Shard/Engine: shard/engine.go, one function for each method.
-- - Shard/Requests: the requests that reach an engine, as one data type, and the operation that
--   serves each. Shard/Effect: what an operation makes of a stored context, as a function of that
--   context, and the proofs that the engine does this. Shard/Steps: the steps of a context as a
--   relation (Steps), the proof that any sequence of requests, pauses and restarts follows it
--   (Current, Follow, Retries, System, Serve), and what therefore holds after any sequence (Keeps,
--   Invariant, Forever, Outputs, Settled); Start: a flow from its start; Tries: the tries of an
--   action that fails; Delay and Wait: the system actions of these names.
-- - Persistence: persistence/redis/*.go over a client of go-redis, which is a parameter. What the
--   program relies on of a server stands in records: its hashes (ShardStorage/Hashes;
--   ShardStorage/Isolation: two shards on one server), its lists (Queue/Stack). Message: the
--   members of the sorted sets.
-- - Executor: shard/executor/*.go; Executor/Worker/Steps: util/worker.go and the executors' Start
--   and Stop, as a step relation of the caller and the goroutines (Patient: an owner who waits for
--   each Stop; Races: one who does not).
-- - Cluster: cluster/ring.go and cluster/cluster.go; Cluster/Membership: cluster/membership.go,
--   with what its events make of the node table (Table), of the shards (Balance, Progress, Runs)
--   and of the rest of the cluster (Changes).
-- - Service: service/*.go. Rest: rest/*.go, with the routes of rest/server.go (Routes), the
--   handlers of definitions (Definitions, Saved), those of flows and events (Flows, Commands), and
--   the status of each answer (Answers, Replies, Statuses). Rpc: rpc/api.go; Rpc/Pushes: what a
--   worker's result makes of a node; Rpc/Clients: any calls of workers and users for one flow.
-- - Agent: main.go's setupConfig, config/Config.go, New of agent/agent.go and
--   analytics/analytics.go.
-- - Tests: the theorems at concrete inputs.
--
-- Correspondence. A method that changes its receiver takes the state and returns the new one; the
-- state of an engine is a World: the storage's state, the map of machines, and the calls of the
-- data collector. The shards of a node work on one state of the server; their storages and queues
-- are told apart by the ids of the shards, which are in the keys. A method that returns a value
-- and an error returns a Result. A nil dereference, a failed type assertion and an index out of
-- range are panics: an Outcome in the engine, none where no state is at hand. Code outside the
-- repository is a parameter, with its documented behaviour as named hypotheses: the Redis client,
-- jsonpath, goja, encoding/json, protobuf, the consistent hash ring, the shuffle, serf, the
-- router, Viper. Shard/Storage/Reliable lists what the engine relies on where no call of the
-- storage fails and a context is read as it was saved.
--
-- Fuel. Only walk takes fuel, a bound on the depth of its calls; GetFlow gives it one more than
-- the number of actions. Metadata/Walk/Fuel shows that this is enough: more fuel changes no result
-- that comes at all.
--
-- A shard holds, for each of its executors, the calls of Start and Stop that were made to it; what
-- these come to, and when one returns, is in Executor/Worker/Steps.
--
-- Not modelled: logging; the locks, since an operation is one step; Shutdown of the agent; the
-- length of a pause; serf and the loop that takes its events from a channel; the servers of gRPC
-- and HTTP and their registration; the flags of the command line and the goroutines that the start
-- of the program runs; the log file of the data collector (glue and input and output); the
-- generated API, util/enc_dec.go and util/proto_util.go, which stand as parameters;
-- util/tick_worker.go and cache/, which nothing uses.
pub mod Agent
pub mod Base
pub mod Model
pub mod Util
pub mod Flow
pub mod Action
pub mod Metadata
pub mod Shard
pub mod Persistence
pub mod Executor
pub mod Cluster
pub mod Service
pub mod Rest
pub mod Rpc
pub mod Tests
