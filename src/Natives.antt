-- ===== src/Natives.antt =====
-- What the natives of src/smn_json.cpp, src/smn_rpccall.cpp, src/smn_rpccontext.cpp and
-- src/smn_extension.cpp share: the plugin that calls, the handle system, the objects behind the
-- handles, and the form of a native's result. SourceMod's handle system is a parameter.
pub mod Json
pub mod Calls
pub mod Contexts
pub mod Servers
pub mod Table
pub mod Types
pub mod Incoming
pub mod Replies
pub mod Live
use sm_ext_rpc.Base.{
  ◌≡◌, ◌∷◌, [], ℕ, suc, String, Bool, true, false, Option, none, some, List, Bytes, Result, ok,
  throw, fault, Exception, ◌>>=◌, ◌==◌, if◌then◌else◌, ◌⊎◌, inl, inr,
}
use sm_ext_rpc.Base.Int.{ℤ, pos}
use sm_ext_rpc.Method.{FunctionId, IdentityId}
use sm_ext_rpc.Processor.{Env, ServerId}
use sm_ext_rpc.Processor.Request.{Pending}
use sm_ext_rpc.Processor.Reply.{State}
use sm_ext_rpc.Json.{JsonLib}
use sm_ext_rpc.Server.{Server}

-- `cell_t`, and an address of an object that a handle stands for.
abbrev pub Cell : Type 0
Cell = ℤ

abbrev pub Address : Type 0
Address = ℕ

-- `IPluginContext` and the array `params`: the cells, and what the plugin's memory has at a local
-- address.
pub record Plugin : Type 0 where
  pub identity : IdentityId
  pub params : ℕ → Cell
  pub text : Cell → String
  pub word : Cell → Cell
  pub function : Cell → Option FunctionId

-- The types that the extension creates with `CreateType`.
pub data HandleType : Type 0 where
  json_type call_type context_type : HandleType

-- The lines of `ReportError`, without the values that are printed.
pub data Report : Type 0 where
  invalid_handle : HandleType → ℕ → Report
  not_an_int not_a_float not_a_boolean not_a_string : Report
  invalid_callback unknown_server server_exists server_missing : Report

-- What a native does besides its result, in order: an error in the plugin's log, `StringToLocal`
-- with the buffer's address, its size and the text, a message to a server, the reply to a
-- request, and a new connection.
pub data Effect (J : JsonLib) : Type 0 where
  report : Report → Effect J
  output : Cell → Cell → String → Effect J
  message : ServerId → Bytes → Effect J
  replied : Bytes → Effect J
  connect : ServerId → Effect J

-- SourceMod, as far as the natives call it. `Handle_t` has the 32 bits of a cell. `read` is
-- `ReadHandle` with the owner that asks: the object, or the number of the error. `free` is
-- `FreeHandle` and tells whether the object was destroyed. `sp_ctof` and `sp_ftoc` are the two
-- views of a cell's bits.
pub record SourceMod (J : JsonLib) : Type 1 where
  pub Table : Type 0
  pub read : HandleType → Cell → IdentityId → Table → Address ⊎ ℕ
  pub create : HandleType → Address → IdentityId → Table → Cell × Table
  pub free : Cell → IdentityId → Table → Bool × Table
  pub sp_ctof : Cell → J.Float
  pub sp_ftoc : J.Float → Cell

-- A new handle gives its owner the object.
pub record IsSourceMod (J : JsonLib) (S : SourceMod J) : Type 0 where
  pub read-create :
      (type : HandleType) (object : Address) (owner : IdentityId) (table : S.Table)
      → S.read type
          ((S.create type object owner table).0)
          owner
          ((S.create type object owner table).1)
        ≡ inl object

module _ (E : Env) (S : SourceMod (E.json)) where
  open E use {json}
  open json use {Json, of_string}

  -- `RPCContext`: `retval` is null until it is set, and `pending` is what its callback captures.
  pub record Context : Type 0 where
    pub retval : Json
    pub params : Json
    pub remote : String
    pub pending : Pending E

  -- The handles, the objects behind them, the command processor with the calls, the servers, and
  -- the services of the event loop. `fresh` is an address that `new` has not returned yet.
  pub record Machine : Type 0 where
    pub table : S.Table
    pub fresh : Address
    pub jsons : Address → Option Json
    pub contexts : Address → Option Context
    pub core : State E
    pub peers : ServerId → Option Server
    pub services : List ServerId

  pub record Return : Type 0 where
    pub cell : Cell
    pub effects : List (Effect json)
    pub machine : Machine

  abbrev pub return : Cell → List (Effect json) → Machine → Result Return
  return cell effects m = ok (record { cell = cell; effects = effects; machine = m })

  -- `ReportError` and `return 0`
  abbrev pub refuse : Report → Machine → Result Return
  refuse line m = return (pos 0) (report line ∷ []) m

  -- The assignment of a value to the object at an address.
  abbrev pub put : Address → Json → Machine → Machine
  put a j m = record m { jsons = λ b. if a == b then some j else m.jsons b }

  -- `READ_HANDLE` and its copies for a second JSON handle: the handle is the parameter at
  -- position `n`.
  unfoldable pub with_json : Plugin → ℕ → Machine → (Address → Json → Result Return) → Result Return
  with_json plugin n m k = elim (S.read json_type (plugin.params n) plugin.identity m.table) [
    | inl a ↦ elim (m.jsons a) [ none ↦ fault | some j ↦ k a j ]
    | inr e ↦ refuse (invalid_handle json_type e) m
  ]

  -- `new json(j)` and `CreateHandle`, for the plugin that calls.
  unfoldable pub new_json : Plugin → Json → Machine → Result Return
  new_json plugin j m =
      let (handle, table) = S.create json_type m.fresh plugin.identity m.table in
      return handle [] (record (put m.fresh j m) { table = table; fresh = suc m.fresh })
