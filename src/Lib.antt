-- ===== src/Lib.antt =====
-- Verification of the hub (hub/src) and of the prover node (prover/node/src).
--
-- The program. A node registers itself with the hub again and again. The hub keeps the nodes that it
-- heard of lately, and hands a client up to four of them for each proof, with a proof hash that it
-- pushes to these nodes. The client sends its input to a node under that hash. The node gives each
-- hash to one request, checks the input, asks its local prover for the proof, and reports the result
-- to the hub, which passes it on to the explorer.
--
-- Shared modules.
--   Prelude, with Tests, Lists, Int, Str and Decimal: Boolean tests, lists, integers, and texts as
--     lists of code points.
--   Dict: a dict in the order of insertion, as an association list.
--   Json: `json.dumps` with sorted keys; Json.Injective: its texts determine the values.
--   Base64: the standard library's base64 and the big-endian bytes of an integer.
--   Base85: `base64.b85encode`.
--   Tls: hub/src/utils/tls.py, which the node has too, as prover/node/src/utils/tls.py.
--   PyText: the methods of `str` and `int` that the hub uses, on ASCII case and digits.
--
-- The hub.
--   Hub.NodeList: hub/src/modules/node_list/main.py, and the job of
--     hub/src/scheduler/jobs/update_node_list/task.py. `add`, `get_node`, `remove` and
--     `remove_inactive_nodes` keep their names; times are whole seconds.
--   Hub.Address: `_host_allowed`, `_validate_grpc_address`, `_validate_http_address` and their
--     helpers, of hub/src/application/api/v1/hub/node/api.py. The modules `ipaddress` and
--     `urllib.parse` are the parameter `Net`.
--   Hub.Http: `http_response` of hub/src/utils/util.py, and the response models.
--   Hub.Register: the handler `hub_post_node` of node/api.py, one function for each of its stages.
--     The key, the decryption, the pings and the clock are the argument `World`.
--   Hub.Dispatch: `hub_get_node` and `hub_get_node_status` of node/api.py, and the proof hash of
--     hub/src/modules/proof_manager/main.py. The loop runs on the number of rounds that are left,
--     which are three, as in the code. The list of nodes is an argument for each round, since the
--     handler waits between them.
--   Hub.KeyCache: hub/src/modules/key_cache/main.py. What the file system says is an argument.
--   Hub.Push: `ping_details` and `push_task_details` of hub/src/modules/http_server/main.py.
--   Hub.Errors and Hub.Grpc: `classify_error` of hub/src/utils/observability.py, and
--     hub/src/modules/grpc_server/main.py.
--   Hub.Result: `hub_post_results` of hub/src/application/api/v1/hub/result/api.py, with `send_proof`
--     of hub/src/modules/explorer/main.py.
--   Hub.Verifier: `hub_put_verifier` of hub/src/application/api/v1/hub/verifier/api.py, with
--     `update_verifier` of hub/src/modules/explorer/main.py.
--   Hub.Scheduler: hub/src/scheduler/main.py. Each operation is a step of the event loop, since
--     between two of its sleeps a coroutine of the scheduler waits for nothing. The keyword
--     arguments of a task are a dict; the identifiers that `uuid1` makes are arguments, and fresh.
--
-- The node.
--   Node.ProofManager: prover/node/src/modules/proof_manager/main.py, the cache of proof hashes and
--     its file. A reading of the clock is an argument, in microseconds. Flush splits the save in two,
--     with the calls of another thread in between.
--   Node.Pool and Node.Rpc: `ConnectionPool` and `_rpc` of
--     prover/node/src/modules/prover/circom/main.py. A task that has to wait for a channel is an
--     outcome of its own. `_rpc` runs on fuel, one unit for each attempt; it starts with one more
--     than there are retries, which is enough, since the loop ends once they are used up.
--   Node.Circom: the calls that `CircomProver` makes through `_rpc`.
--   Node.Project: prover/node/src/modules/project_manager/main.py.
--   Node.OAuth: prover/node/src/modules/oauth_provider/google/main.py and base.py. A key is its
--     modulus; the decoding of a key and the download are arguments.
--   Node.X509: prover/node/src/modules/oauth_provider/x509_google/main.py. The parser of a
--     certificate and the library's check of a key are arguments.
--   Node.Service: `ProveServiceV1` of prover/node/src/modules/prove_service/v1/main.py.
--   Node.HttpV1: the handlers of prover/node/src/application/http_server/v1/main.py, and
--     `send_result` of prover/node/src/modules/hub/main.py.
--   Node.GrpcV1: the handlers of prover/node/src/application/grpc_server/v1/main.py that prove.
--   Node.Verifier: the handlers that update the verifiers of a proof or hand out the public key, of
--     http_server/v1/main.py and grpc_server/v1/main.py, and `update_verifier` of
--     prover/node/src/modules/hub/main.py.
--   Node.ProverV2: `prove_v2` of prover/node/src/modules/prover/circom/main.py, and `PrivateProver` of
--     prover/node/src/modules/prover/gnark/main.py.
--   Node.ServiceV2: `ProveServiceV2` of prover/node/src/modules/prove_service/v2/main.py.
--   Node.HandlersV2: the handlers of prover/node/src/application/http_server/v2/main.py and of
--     grpc_server/v2/main.py. They share the proof hashes with the first version.
--   Node.Heartbeat: `send_heartbeat` of prover/node/src/modules/hub/main.py, by the requests of its
--     first rounds.
--   Node.Startup: the runners of prover/node/src/utils/server_util.py. What a server opens is a value.
--
-- Not modelled: the cryptography itself (RSA, SHA-256), the network and the file system, which are
-- arguments; logging, durations, configuration and command lines; the generated stubs; and the provers,
-- which are written in Go.
pub mod Prelude
pub mod Dict
pub mod Json
pub mod PyText
pub mod Base64
pub mod Base85
pub mod Tls
pub mod Hub
pub mod Node
