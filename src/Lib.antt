-- ===== src/Lib.antt =====
-- The web server of this repository: an nginx-like configuration is read into a map from locations to
-- handlers, and each request is given to the handler of the longest location that fits its url.
--
-- The files and the code that they model (paths from the repository's root):
--   Config         src/config_parser.cc, include/config_parser.h, include/config_arg.h. Token is
--                  `ParseToken`, Parse is `Parse` on an open stream, Locals its state, Bindings what
--                  it does to the map, File its `Parse` of a file name, Stack the stack of pointers
--                  into the tree that is being built, Tree that tree with `ToString`, Port
--                  `safeportSTOI`. Listing is a configuration of a port and locations, of the form
--                  of config/default.config.
--   Session        src/session.cc, include/session.h. Search is `search_addr_binding`, Reply is
--                  `generate_response` with `parse_request`, Connection is the session between the
--                  callbacks of Boost.Asio.
--   Factory        src/request_handler_factory.cc.
--   Server         src/server.cc, include/server.h: `create_dispatcher`. System is the server as it
--                  runs: the sessions and what they share, between the callbacks.
--   Main           src/server_main.cc, with the constructor of `server`. Process is the process from the
--                  call of `main` to its end: `signalHandler`, the threads of `start`, and what a
--                  callback that does not come back does to it.
--   Handler        src/request_handler.cc: the base class of the handlers.
--   Serve          the static, echo, not-found, health and block handlers.
--   ContentType    src/content_type.cc.
--   Crud           src/request_handler_crud.cc; Ids is the table `file_to_id_`, Responses the
--                  `prepare_..._response` functions, Known the sets of ids that the table stands for.
--   TextGen        src/request_handler_text_gen.cc; Input checks the texts, Messages holds the replies.
--   Std            what the sources use of the standard library: `std::map`, `std::vector`, `std::string`,
--                  `std::stoi`, `std::to_string`.
--   Http, Files    Boost.Beast's messages and the file system, as interfaces: records of operations and
--                  of the laws that the documentation states.
--   TextGen/Api    curl and the JSON library, as an interface; TextGen/Curl is `curl_api`.
--   Prelude        shared names, the Boolean tests on numbers, `ℤ` over the native numbers.
--   Tests          instances of the interfaces, and the theorems at concrete inputs.
--
-- State is passed explicitly: the parser's locals are `State`, the crud handler's table and disk `Store`.
-- What all sessions share, the factories and the disk, is `World`; a session between two callbacks is a
-- `Connection`. The file system may throw wherever the sources do not catch it: `exists` and the like
-- where the status of a path cannot be had, and the read of a whole file where its size is none for a
-- string, as that of a directory. A handler that throws gives `threw`, and undefined behaviour is a value of the result. A `char`
-- is a natural number, a string a list of them.
--
-- Fuel: `Parse` is given one round more than the stream has bytes, since every token but the end of the
-- file takes a byte; `search_addr_binding` one call more than the url has bytes, since each call
-- shortens the url.
--
-- Not modelled: the log, the unit tests, the web pages and the deployment; two callbacks that touch the
-- same table at the same time, since a step of Server/System is a whole callback, and a signal that is
-- handled while a callback runs; the exception of `remote_endpoint` where the peer has gone; the sleep of
-- the block handler, which is only its number of seconds.
pub mod Config
pub mod ContentType
pub mod Crud
pub mod Factory
pub mod Files
pub mod Handler
pub mod Http
pub mod Main
pub mod Prelude
pub mod Serve
pub mod Server
pub mod Session
pub mod Std
pub mod Tests
pub mod TextGen
