-- ===== src/Lib.antt =====
-- sm-ext-rpc: a SourceMod extension by which game servers call each other's plugins. A plugin
-- registers methods and makes calls through natives; a request travels as one line of JSON, signed
-- with HMAC-SHA256 under a key that the servers share; the method's plugin answers through a
-- context, and the reply runs the callback of the call.
--
-- The files and the code:
--   Base        shared types and lemmas: control flow with C++ exceptions, integers, dictionaries
--   Json        what is used of include/json.hpp, as the parameter `JsonLib`; Json/Laws and
--               Json/Arrays have the documented laws, Json/Wire the packets and what a value is
--               after it was read back
--   Crypto      src/Crypto.cpp, the hexadecimal digest
--   Method      src/RPCMethod.cpp, the check of a request's parameters
--   Processor   src/CommandProcessor.cpp: the maps, and in child modules the signatures,
--               HandleRequest (Request), HandleReply (Reply), SendRequest and SendBroadcast (Send)
--   Call        src/RPCCall.cpp, the calls on a heap; Call/Requests has Send, Notify, Broadcast
--   Config      src/CoreConfig.cpp, the configuration file
--   Server      src/Server.cpp, a connection to another server
--   SocketHandler  src/SocketHandler.cpp, a connection from another server
--   EventLoop   src/EventLoop.cpp, the services that a game frame polls
--   Extension   src/Exstension.cpp, loading and unloading; Extension/Components has the objects
--               whose OnExtLoad and OnExtUnload are called
--   Sdk         src/sdk, the base class of the extension with its configuration; Sdk/Loading has
--               the class `Extension` that overrides it
--   Natives     src/smn_json.cpp, src/smn_rpccall.cpp, src/smn_rpccontext.cpp with
--               src/RPCContext.cpp, and src/smn_extension.cpp: the natives, their tables (Table),
--               the handle types (Types), requests and replies on their machine (Incoming,
--               Replies), and that the natives use live objects (Live)
--   Tests       concrete instances of the parameters, and the theorems at concrete inputs
--
-- How they interact: SDK_OnLoad reads the configuration, starts the event loop and registers the
-- servers. A SocketHandler hands each packet to HandleRequest, whose `invoke` becomes a context
-- and a handle by `call_method`; the native Done completes it and the reply is written. A Server
-- hands each packet to HandleReply, which runs and deletes the outstanding call.
--
-- How the code is modelled: a function that changes state takes and returns it; a function that
-- may throw returns a `Result`, in which `fault` stands for undefined behaviour such as a dangling
-- pointer. A JSON value that is read with `operator[]` gets a null for a missing member, as the
-- library does. An asynchronous operation is a value that its function returns, and its handler is
-- a function of its own. A plugin's function that is called is named in the result: what the
-- plugin then does is a later step. Unordered maps are association lists, in any order; a pointer
-- is a number. Text is a `String` and a packet a list of bytes. Loops run over lists and need no
-- fuel.
--
-- Parameters: the JSON library with `IsLawful`, `IsArrayLawful` where arrays are filled, and
-- `IsReadBack` where a value crosses the wire, which says what `parse` makes of the text of a
-- value that has one in JSON: the same, but that integers and whole floats change their kind;
-- HMAC-SHA256 with `IsSha256`, which says that the code has 32 bytes; the content of the buffer
-- for the digest; the clock and the generator of identifiers, as arguments; SourceMod's handle
-- system, whose `IsSourceMod` says that a new handle gives its owner the object, and whose
-- `IsHandleSystem` says that each object has one handle, which its owner alone reads, until that
-- handle is closed; SourceMod's registries of types and natives, with `IsRegistrar`.
--
-- Not modelled: the vendored JSON library, the parts of src/sdk for Metamod, which the program is
-- compiled without, Boost.Asio, reading the configuration file from disk, and the scripts. What a
-- plugin does while its function runs is done after the message is handled, but in
-- Processor/Reply/Running, where it is a parameter. What `%s` prints of an argument of the wrong
-- type is not modelled, nor that a cloned handle keeps its object. Differences of times are taken
-- without overflow, which needs more than 64 bits. An exhausted memory is not modelled, nor are
-- the exceptions of Boost.Asio where the listen address is malformed or the port is taken.
pub mod Base
pub mod Json
pub mod Crypto
pub mod Method
pub mod Processor
pub mod Call
pub mod Config
pub mod Server
pub mod SocketHandler
pub mod EventLoop
pub mod Natives
pub mod Extension
pub mod Sdk
pub mod Tests
