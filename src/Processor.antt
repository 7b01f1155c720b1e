-- ===== src/Processor.antt =====
-- src/CommandProcessor.hpp and src/CommandProcessor.cpp: the state of the command processor, the
-- functions that only read or write its maps, and the surroundings that all its functions use.
pub mod Signature
pub mod Request
pub mod Reply
pub mod Send
use Prim.Native.Char.{Char}
use sm_ext_rpc.Base.{ℕ, String, Option, none, some, List, Bytes}
use sm_ext_rpc.Base.Dict.{Dict, lookup, insert, erase, default_at}
use sm_ext_rpc.Json.{JsonLib}
use sm_ext_rpc.Method.{RpcMethod}

-- What the program calls and does not implement: the JSON library, OpenSSL's HMAC-SHA256, and the
-- content of the local buffer in `Digest`.
pub record Env : Type 1 where
  pub json : JsonLib
  pub hmac : String → Bytes → Bytes
  pub hash : List Char

-- A `Server` object and an `RPCCall` object, by the address that a pointer holds.
abbrev pub ServerId : Type 0
ServerId = ℕ

abbrev pub CallId : Type 0
CallId = ℕ

-- `CommandProcessor`. A shared pointer in a map is null where a key was read that is missing.
pub record Processor : Type 0 where
  pub api_key : String
  pub methods : Dict (Option RpcMethod)
  pub servers : Dict (Option ServerId)
  pub outstanding_calls : Dict CallId

-- The value that `m[k]` reads, where `m` maps to shared pointers.
abbrev pub pointer {ℓ} : {A : Type ℓ} → Option (Option A) → Option A
pointer none = none
pointer (some p) = p

unfoldable pub init : String → Processor → Processor
init api_key p = record p { api_key = api_key }

unfoldable pub register_method : String → RpcMethod → Processor → Processor
register_method name method p = record p { methods = insert name (some method) p.methods }

unfoldable pub register_server : String → ServerId → Processor → Processor
register_server name server p = record p { servers = insert name (some server) p.servers }

-- `GetServer`: reading a missing name inserts a null pointer under it.
unfoldable pub get_server : String → Processor → Option ServerId × Processor
get_server name p =
    (pointer (lookup name p.servers), record p { servers = default_at name none p.servers })

unfoldable pub remove_server : String → Processor → Processor
remove_server name p = record p { servers = erase name p.servers }

-- `GetServers`
unfoldable pub get_servers : Processor → Dict (Option ServerId)
get_servers p = p.servers
