-- ===== src/Config.antt =====
-- The configuration: src/config_parser.cc, include/config_parser.h and include/config_arg.h.
pub mod Arg
pub mod Port
pub mod Token
pub mod Tree
pub mod Stack
pub mod Locals
pub mod Bindings
pub mod Parse
pub mod File
pub mod Listing
