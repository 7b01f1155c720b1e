-- ===== src/Method.antt =====
-- src/RPCMethod.hpp and src/RPCMethod.cpp: a method that a plugin registered, and the check of a
-- request's parameters against the types that it declared.
pub mod Validation
use sm_ext_rpc.Base.{
  ℕ, suc, String, Bool, true, false, Option, List, [], ◌∷◌, Result, ok, fault, ◌>>=◌, length, ◌==◌,
  if◌then◌else◌, not,
}
use sm_ext_rpc.Base.Int.{ℤ}
use sm_ext_rpc.Json.{JsonLib, at_index, is_boolean, is_number, is_number_integer, is_string}

-- `ParamType`. A plugin passes a cell that is cast to the enum, so other numbers are possible.
pub data ParamType : Type 0 where
  string int bool float json : ParamType
  unnamed : ℤ → ParamType

-- A function and an owner of the plugin system, by number.
abbrev pub FunctionId : Type 0
FunctionId = ℕ

abbrev pub IdentityId : Type 0
IdentityId = ℕ

-- `RPCMethod`; the callback is a pointer that may be null. The field `paramCount` is never used.
pub record RpcMethod : Type 0 where
  pub param_types : List ParamType
  pub name : String
  pub callback : Option FunctionId
  pub owning_plugin : IdentityId

-- The constructor.
unfoldable pub new_method : String → IdentityId → Option FunctionId → List ParamType → RpcMethod
new_method name owning_plugin callback param_types = record {
  param_types = param_types;
  name = name;
  callback = callback;
  owning_plugin = owning_plugin;
}

-- `RPCCallResult`, which the code never constructs.
pub record CallResult : Type 0 where
  pub success : Bool

unfoldable pub new_call_result : Bool → CallResult
new_call_result success = record { success = success }

module _ (J : JsonLib) where
  open J use {Json, size}

  -- `checkType`; a number that is no `ParamType` runs off the end of the function.
  pub check_type : ParamType → Json → Result Bool
  check_type ParamType.bool j = ok (is_boolean J j)
  check_type ParamType.int j = ok (is_number_integer J j)
  check_type ParamType.float j = ok (is_number J j)
  check_type ParamType.string j = ok (is_string J j)
  check_type ParamType.json j = ok true
  check_type (ParamType.unnamed n) j = fault

  -- The loop of `ValidateArguments` from position `c` on.
  pub validate_from : List ParamType → ℕ → Json → Result Bool
  validate_from [] c j = ok true
  validate_from (type ∷ types) c j =
      let rest = validate_from types (suc c) j in
      at_index J j c >>= λ argument.
      check_type type argument >>= λ fits. if fits then rest else ok false

  -- `ValidateArguments`
  unfoldable pub validate_arguments : RpcMethod → Json → Result Bool
  unfolding validate_from check_type
  validate_arguments method j =
      if not (size j == length method.param_types)
      then ok false
      else validate_from method.param_types 0 j
