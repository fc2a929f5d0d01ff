-- ===== src/Lib.antt =====
-- easyprospect-service: a web service of a proxy, workers and a control process. This library models
-- the core of a worker and of the proxy, and proves what its parts promise.
--
-- A WebSocket session reads messages. Each is parsed, extracted as a JSON-RPC request and dispatched
-- by its channel id to a channel: a room, the system channel or the blackjack table. A channel keeps
-- a set of sessions, broadcasts to them and replies through the session; the table posts its requests
-- to a strand, where the handlers play the game. What is sent waits in the queue of its session.
-- Listeners open the ports, a countdown stops the worker, and messages go between the worker and the
-- control process.
--
-- The files, with the code that each models. In their comments a path is below easyprospect-service/.
-- - Json: the values of nlohmann::json, and the calls of them.
-- - Rpc: rpc_code, rpc_error, rpc_call::extract and complete, checked_value and the like
--   (easyprospect-service/src/easyprospect-service-shared/rpc.cpp and its header rpc.hpp). std::stof
--   is a parameter.
-- - Channels: channel::insert, erase and send; Channels/Dispatch: channel::dispatch and the handlers
--   of the three kinds; Channels/Hub: channel_list_impl and ws_session_base::operator()
--   (easyprospect-service/src/easyprospect-web-worker/ws-user.cpp,
--   easyprospect-service/include/easyprospect-web-worker/worker-server.h and
--   easyprospect-service/include/easyprospect-service-shared/session.hpp). `World` is the state that
--   the channels share: names, sessions, and what was sent, asked and posted. The other files below
--   Channels hold the proofs.
-- - Blackjack/Hand, Shoe, Game and Table: struct hand, class shoe, struct seat with class game, and
--   class table of ws-user.cpp. rand() is a parameter, and so is the first, uninitialised value of a
--   seat's chips.
-- - WsSession/SendQueue: do_send, do_write and on_write of session.hpp.
-- - Http: handle_request of session.hpp, and Http/Mime: mime_type
--   (easyprospect-service/src/easyprospect-service-shared/session.cpp). The joining of paths, the
--   files, the expressions of the extensions and the callback that runs scripts are parameters; the
--   root of the documents is set.
-- - Lifecycle: shutdown, on_timer, on_signal and stop
--   (easyprospect-service/include/easyprospect-web-worker/worker-server-app.h).
-- - Listener: the configuration, its parser and listener_impl
--   (easyprospect-service/include/easyprospect-config/ep-listener-config.h and
--   easyprospect-service/src/easyprospect-service-shared/listener.cpp). The tokenizer and the answers
--   of the operating system are parameters.
-- - Downstream: the sessions and connections of the proxy
--   (easyprospect-service/include/easyprospect-web/easyprospect-server-downstream.h). The random ids
--   and the results of the network are arguments.
-- - Control: the control messages, pack and process_input
--   (easyprospect-service/include/easyprospect-service-control/epprocess-message.h and
--   easyprospect-service/src/easyprospect-service-control/epprocess-message.cpp). The bytes of msgpack
--   are a parameter.
-- - Pipes: process_control_win, the named pipes on which the control process talks to the workers
--   (easyprospect-service/src/epworkercntl/epprocess-control-win.cpp). The answers of the operating
--   system are arguments of each round of the loop.
-- - Client: process_cntrl_client_win, the worker's end of such a pipe
--   (easyprospect-service/src/easyprospect-web-worker/easyprospect-process-cntrl-client-win.cpp), and
--   do_action (easyprospect-process-message-actions.h). The function that shuts the worker down is a
--   parameter; Client/Worker follows a stop message through Control, Pipes, Client and Lifecycle.
-- - Proxy/Request: easyprospect_http_request and its builder
--   (easyprospect-service/include/easyprospect-service-shared/easyprospect-http-request.h), and
--   Proxy/Session: http_session_base::operator()
--   (easyprospect-service/src/easyprospect-service-shared/http-session-base.cpp). The parser of Beast
--   is a parameter. Proxy/Relay: how server.cpp of easyprospect-service/src/easyprospect-web sends the
--   packages of a session to Downstream, one after the other.
-- - ControlServer: the main loop of make_server, which starts the workers, registers them and stops them
--   (easyprospect-service/src/epworkercntl/make-server.cpp), over Pipes.
-- - Process: listen_loop of a worker process, the reads of its output
--   (easyprospect-service/src/epworkercntl/epprocess-win.cpp).
-- - Config: the levels; Config/Builder: the core configuration, its builder and the options;
--   Config/ConfigFile: the configuration file
--   (easyprospect-service/include/easyprospect-config/easyprospect-config.h and
--   easyprospect-service/src/easyprospect-config/easyprospect-config.cpp). Config/Server: what the proxy
--   makes of its options (easyprospect-config-server.cpp and easyprospect-config-service.cpp there).
-- - EpJsResult: the results of scripts (easyprospect-service/include/easyprospect-v8/EpJsResult.h and
--   easyprospect-service/src/easyprospect-v8/EpJsResult.cpp).
-- - OsUtils: the hex dump (easyprospect-service/include/easyprospect-os-utils/easyprospect-os-utils.h).
-- - Prelude: shared names, lists and integers over the native numbers. Tests: the theorems at concrete
--   inputs.
--
-- State is passed explicitly: an operation takes a record and returns it changed, with its result, an
-- error as a value, or a mark for an exception or undefined behaviour. Locks keep single accesses
-- apart, so an operation is one step; a stop of the control process may also come within a round of
-- its loop, while messages are sent between two rounds. A pointer to a session or user is a number in the order of the
-- addresses. All functions end by recursion on a list or a number of rounds that the code fixes, so
-- there is no fuel but the number of bytes of the hex dump, of which a round takes one at least.
-- Integers that the code converts are reduced to their width where it does.
--
-- Not modelled: the expiry of the streams, the TLS detector, the creation of the worker processes,
-- the configurations of the workers and of the control program,
-- the response file of the command line, the isolates, contexts and bindings of V8, the data schema
-- and the Salesforce plugin, logging, and the copies of SQLite and incbin.
pub mod Prelude
pub mod Json
pub mod Rpc
pub mod Blackjack
pub mod WsSession
pub mod Http
pub mod Lifecycle
pub mod Control
pub mod Downstream
pub mod OsUtils
pub mod Pipes
pub mod Client
pub mod Process
pub mod ControlServer
pub mod Listener
pub mod Proxy
pub mod Config
pub mod EpJsResult
pub mod Channels
pub mod Tests
