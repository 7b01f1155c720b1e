-- ===== src/Config.antt =====
-- src/CoreConfig.hpp and src/CoreConfig.cpp: the configuration file `configs/rpc.json`, from its
-- bytes to the settings and the warnings in the log. `parse` gives `none` where the text is no JSON.
pub mod Read
pub mod Settings
use sm_ext_rpc.Base.{
  String, Option, none, some, List, [], ◌∷◌, ◌++◌, Bytes, Result, ok, throw, fault, ◌>>=◌, not,
  ◌&&◌, Exception, invalid_argument, domain_error, out_of_range, if◌then◌else◌,
}
use sm_ext_rpc.Base.Int.{ℤ, negsuc}
use sm_ext_rpc.Base.Dict.{Dict, insert}
use sm_ext_rpc.Json.{
  JsonLib, at, as_string, as_int, is_null, is_object, is_string, is_number_integer,
}

-- `ServerConfig`
pub record ServerConfig : Type 0 where
  pub port : ℤ
  pub address : String

-- `CoreConfig`
pub record CoreConfig : Type 0 where
  pub port : ℤ
  pub address : String
  pub secret : String
  pub servers : Dict ServerConfig

-- The member initializers.
abbrev pub new_config : CoreConfig
new_config = record { port = negsuc 0; address = ""; secret = ""; servers = [] }

-- The lines that are written to the log.
pub data LogLine : Type 0 where
  no_servers servers_not_an_object parse_error : LogLine
  no_port no_address : String → LogLine

-- The object `config` and the log after some statements. What a statement has assigned stays
-- assigned when a later one throws.
pub record Loading : Type 0 where
  pub config : CoreConfig
  pub log : List LogLine

pub data Loaded : Type 0 where
  done : Loading → Loaded
  raised : Exception → Loading → Loaded

infixl 5 ◌then◌
abbrev pub ◌then◌ : Loaded → (Loading → Loaded) → Loaded
done l then k = k l
raised e l then k = raised e l

-- An expression that may throw; nothing in this file is undefined behaviour.
abbrev pub with_value {ℓ} : {A : Type ℓ} → Result A → Loading → (A → Loaded) → Loaded
with_value (ok a) l k = k a
with_value (throw e) l k = raised e l
with_value fault l k = raised out_of_range l

abbrev pub warn : LogLine → Loading → Loading
warn line l = record l { log = l.log ++ line ∷ [] }

module _ (J : JsonLib) where
  open J use {Json, entries, parse}

  -- `value[key]` if it is an integer, and if it is a string.
  pub integer_at : Json → String → Result (Option ℤ)
  integer_at value key = at J value key >>= λ v.
      if not (is_null J v) && is_number_integer J v
      then (as_int J v >>= λ n. ok (some n))
      else ok none

  pub string_at : Json → String → Result (Option String)
  string_at value key = at J value key >>= λ v.
      if not (is_null J v) && is_string J v
      then (as_string J v >>= λ text. ok (some text))
      else ok none

  -- One entry of `servers`: it is stored if it has a port and an address, or else skipped.
  pub load_address : String → Json → ℤ → Loading → Loaded
  unfolding string_at
  load_address key value port l = with_value (string_at value "address") l (λ found. elim found [
    | none ↦ done (warn (no_address key) l)
    | some address ↦
        let server : ServerConfig = record { port = port; address = address } in
        let config = record l.config { servers = insert key server l.config.servers } in
        done (record l { config = config })
  ])

  pub load_server : String → Json → Loading → Loaded
  unfolding integer_at load_address
  load_server key value l = with_value (integer_at value "port") l (λ found. elim found [
    | none ↦ done (warn (no_port key) l)
    | some port ↦ load_address key value port l
  ])

  -- The loop over the members of `servers`.
  unfoldable pub load_all : List (String × Json) → Loading → Loaded
  unfolding load_server
  load_all [] l = done l
  load_all ((key, value) ∷ rest) l = load_server key value l then load_all rest

  pub load_servers : Json → Loading → Loaded
  unfolding load_all
  load_servers j l = with_value (at J j "servers") l (λ servers.
      if is_null J servers
      then done (warn no_servers l)
      else if not (is_object J servers)
      then done (warn servers_not_an_object l)
      else load_all (entries servers) l)

  -- The listen port, the listen address and the key.
  pub load_port : Json → Loading → Loaded
  unfolding integer_at
  load_port j l = with_value (integer_at j "port") l (λ found. elim found [
    | none ↦ done l
    | some port ↦ done (record l { config = record l.config { port = port } })
  ])

  pub load_listen : Json → Loading → Loaded
  unfolding string_at
  load_listen j l = with_value (string_at j "address") l (λ found. elim found [
    | none ↦ done l
    | some address ↦ done (record l { config = record l.config { address = address } })
  ])

  pub load_secret : Json → Loading → Loaded
  unfolding string_at
  load_secret j l = with_value (string_at j "secret") l (λ found. elim found [
    | none ↦ done l
    | some secret ↦ done (record l { config = record l.config { secret = secret } })
  ])

  pub load : Option Json → Loading → Loaded
  unfolding load_servers load_port load_listen load_secret
  load none l = raised invalid_argument l
  load (some j) l = load_servers j l then load_port j then load_listen j then load_secret j

  -- The handler: only `std::invalid_argument` is caught.
  pub catch : Loaded → Loaded
  catch (raised invalid_argument l) = done (warn parse_error l)
  catch r = r

  -- `CoreConfig::Init`
  unfoldable pub init : Bytes → CoreConfig → Loaded
  unfolding load catch
  init body config = catch (load (parse body) (record { config = config; log = [] }))
