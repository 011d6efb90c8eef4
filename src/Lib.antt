-- ===== src/Lib.antt =====
-- atx-sys: the web server of a gateway, which updates the firmware, keeps the network settings and
-- shows the bootloader environment.
--
-- The parts and their files, with the paths from the repository's root:
--
--   * Json: src/json.c and src/json.h. json_next, json_get_member, json_get_arr, json_tok_streq,
--     json_tok_value, json_delve and json_delve_value keep their names. A pointer to a token is the
--     list of the tokens from there on. Json/Layout lists the tokens of a document's tree, in the
--     order in which the tokenizer writes them.
--   * Network: src/network_management.c. print_network_interface, parse_network_config,
--     print_network_config and print_network_config_toks. What fprintf writes is a list of bytes.
--   * Env: src/env_uboot.c and src/env.h. env_init, env_deinit, env_read, env_read_val, env_write.
--   * Updater and Updater/Progress: src/updater_swupdate.c and src/updater.h. The client of the
--     swupdate daemon, and the progress that it polls.
--   * Update: src/http_route_update.c. The upload of a firmware file, one event of the multipart
--     parser at a time; `run` folds a stream of events.
--   * Http: src/http.c and src/http.h. Codes and methods (Http/Codes), a text as printf's format
--     (Http/Format), the routes (Http/Routes), the query of a request (Http/Query), and the handler
--     of a request with the routes of http_listen (Http/Server).
--   * RouteNetwork and RouteEnv: src/http_route_network.c and src/http_route_env.c.
--   * Http/Server/Life: http_init, http_serve, http_listen and http_deinit, and the kill route of
--     src/http_route_kill.c.
--   * Http/Sent: the header of a response, c_vprintf and http_printf_json. Http/Sent/Client is a client
--     that reads it. Http/Broadcast: http_broadcast_json and the four progress callbacks.
--   * Containers: the map of src/containers.h, and Containers/Fifo its list. Containers/Routes is that map as http.c uses it, and
--     Containers/Slots a table that meets what khash documents.
--   * System: src/atxsys.c and include/altronix/atxsys.h. read_user_config, the interfaces file, the
--     path of the log and the daemon. System/Create: atxsys_create and atxsys_destroy with all parts.
--   * Program: app/main.c, its options, its start and its end around the loop of Live.
--   * Live: the server in one state, as the loop of app/main.c runs it: requests with their callbacks,
--     events of the upload endpoint, polls with what the browsers are told, and the signals, in any
--     order. Live/Runs is a run as a relation, and Live/Parts what one request, event or poll of it does.
--     Live/Uploads, Live/Progress, Live/Keeps, Live/Sends, Live/Durable, Live/Stops and
--     Live/Returns say what holds over every run, and Live/Whole is the program from its start to its end.
--   * RouteAbout: src/http_route_about.c. Api: a request through the routes to the bytes of its
--     answer, and requests one after the other as steps of the server's state.
--   * Logging: src/log.h and src/sys.c.
--   * Emulated: src/env_emu.c and src/updater_emu.c, the stand-ins on a development host.
--   * Common: bytes, C strings, numbers, decimal printing, results with faults, lemmas on lists.
--   * Examples: runs of the models, and the theorems at concrete inputs.
--
-- How they interact: a request reaches ev_handler, which resolves its route and calls it; the
-- network route parses with Json and prints with Network; the environment route takes the query from
-- Http/Query and reads Env; an upload goes through Update to Updater. main parses its options, creates
-- the object with its environment and its server, and polls the server until it stops.
--
-- State is passed on explicitly, and calls of other programs are listed as values in their order. A
-- fault is the value of a run that C does not define or that ends the program: a read or a write
-- outside, a failed assertion, an abort, an exit. Lengths are native numbers, and the wrap-around of
-- uint32_t and size_t is written out.
--
-- Fuel: json_next has one unit more than the tokens that are left, and a recursive call always starts
-- at a later token. json_delve has a unit for each byte of the guide, and each round takes one at
-- least. Decimal printing has ten digits, which every 32-bit number fits in. The
-- loop of log_log goes down from the length of its text, and that of list_destroy has a unit for each
-- payload.
--
-- Parameters: the jsmn tokenizer (what it returned and the tokens it wrote), libubootenv, the
-- swupdate daemon's handles and results, mongoose's search in a string and its parser of URIs, the
-- files that exist or can be opened, getopt, the clock, the size of a pointer, vsnprintf where the
-- format is a text with an argument behind it, printf's directives that are no conversions of an
-- argument, and khash and klist with their documented laws. The map of the routes is an interface,
-- which the map of containers.h over khash fills.
--
-- Not modelled: mongoose, klib and jsmn, which the program only calls;
-- the colours of src/log.h that nothing prints;
-- connections that come or go while the program runs, since mongoose keeps them; and the tests.
-- The rest of the headers are prototypes and includes.
pub mod Common
pub mod Json
pub mod Network
pub mod Env
pub mod Updater
pub mod Update
pub mod Http
pub mod RouteNetwork
pub mod RouteEnv
pub mod System
pub mod Emulated
pub mod Containers
pub mod Logging
pub mod Program
pub mod RouteAbout
pub mod Api
pub mod Live
pub mod Examples
