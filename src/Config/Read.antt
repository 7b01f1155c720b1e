-- ===== src/Config/Read.antt =====
-- src/CoreConfig.cpp: what a configuration file means, member by member.
use sm_ext_rpc.Base.{
  String, ap, Option, none, some, List, [], ◌∷◌, ok, ◌≡◌, refl, arith, str_eq, if◌then◌else◌, ◌∙◌,
}
use sm_ext_rpc.Base.Int.{ℤ}
use sm_ext_rpc.Base.Dict.{lookup, insert, lookup-insert}
use sm_ext_rpc.Json.{
  JsonLib, member, is_null, is_string, is_number_integer, is_number, as_int, as_string,
}
use sm_ext_rpc.Json.Laws.{IsLawful, IsOpen, at_object}
use sm_ext_rpc.Config.{
  ServerConfig, Loading, done, warn, integer_at, string_at, load_address, load_server, load_all,
  no_port, no_address,
}

module _ (J : JsonLib) (L : IsLawful J) where
  open J use {Json, get_int, get_string, entries, parse}

  -- A member that is an integer, or a text.
  abbrev pub integer_of : Json → String → Option ℤ
  integer_of j key =
      if is_number_integer J (member J j key) then some (get_int (member J j key)) else none

  abbrev pub text_of : Json → String → Option String
  text_of j key = if is_string J (member J j key) then some (get_string (member J j key)) else none

  pub integer_at_lem :
      (j : Json) (key : String) → IsOpen J j → integer_at J j key ≡ ok (integer_of j key)
  unfolding integer_at is_number_integer is_null as_int is_number
  integer_at_lem j key h = rw (at_object J L j key h) (ground arith)

  pub string_at_lem :
      (j : Json) (key : String) → IsOpen J j → string_at J j key ≡ ok (text_of j key)
  unfolding string_at is_string is_null as_string
  string_at_lem j key h = rw (at_object J L j key h) (ground arith)

  -- The server that a port and an address make, and that an entry describes.
  abbrev pub server_from : Option ℤ → Option String → Option ServerConfig
  server_from (some port) (some address) = some (record { port = port; address = address })
  server_from _ _ = none

  abbrev pub server_of : Json → Option ServerConfig
  server_of value = server_from (integer_of value "port") (text_of value "address")

  -- The server under a name after an entry, and after all entries: the last entry of the name that
  -- describes a server counts.
  abbrev pub server_after :
      String → String → Option ServerConfig → Option ServerConfig → Option ServerConfig
  server_after key name none old = old
  server_after key name (some server) old = if str_eq key name then some server else old

  abbrev pub servers_after :
      List (String × Json) → String → Option ServerConfig → Option ServerConfig
  servers_after [] name old = old
  servers_after ((key, value) ∷ rest) name old =
      servers_after rest name (server_after key name (server_of value) old)

  abbrev pub AllOpen : List (String × Json) → Type 0
  AllOpen [] = Unit
  AllOpen ((key, value) ∷ rest) = IsOpen J value × AllOpen rest

  abbrev enter : String → Option ℤ → Option String → Loading → Loading
  enter key none address l = warn (no_port key) l
  enter key (some port) none l = warn (no_address key) l
  enter key (some port) (some address) l =
      let server : ServerConfig = record { port = port; address = address } in
      record l { config = record l.config { servers = insert key server l.config.servers } }

  load_address_lem :
      (key : String) (value : Json) (port : ℤ) (l : Loading) (address : Option String)
      → IsOpen J value
      → text_of value "address" ≡ address
      → load_address J key value port l ≡ done (enter key (some port) address l)
  unfolding load_address
  load_address_lem key value port l none h e =
      rw (load_address, string_at_lem value "address" h, e) refl
  load_address_lem key value port l (some address) h e =
      rw (load_address, string_at_lem value "address" h, e) refl

  load_server_lem :
      (key : String) (value : Json) (l : Loading) (port : Option ℤ)
      → IsOpen J value
      → integer_of value "port" ≡ port
      → load_server J key value l ≡ done (enter key port (text_of value "address") l)
  unfolding load_server
  load_server_lem key value l none h e = rw (load_server, integer_at_lem value "port" h, e) refl
  load_server_lem key value l (some port) h e =
      rw (load_server, integer_at_lem value "port" h, e)
        (load_address_lem key value port l _ h refl)

  enter-servers :
      (key name : String) (port : Option ℤ) (address : Option String) (l : Loading)
      → lookup name (enter key port address l).config.servers
        ≡ server_after key name (server_from port address) (lookup name l.config.servers)
  enter-servers key name none address l = refl
  enter-servers key name (some port) none l = refl
  enter-servers key name (some port) (some address) l = lookup-insert key name _ l.config.servers

  -- Only the servers and the log change.
  abbrev pub SameSettings : Loading → Loading → Type 0
  SameSettings l k =
      (k.config.port ≡ l.config.port)
      × (k.config.address ≡ l.config.address)
      × (k.config.secret ≡ l.config.secret)

  enter-SameSettings :
      (key : String) (port : Option ℤ) (address : Option String) (l : Loading)
      → SameSettings l (enter key port address l)
  enter-SameSettings key none address l = (refl, refl, refl)
  enter-SameSettings key (some port) none l = (refl, refl, refl)
  enter-SameSettings key (some port) (some address) l = (refl, refl, refl)

  pub load_all_lem :
      (members : List (String × Json)) (l : Loading)
      → AllOpen members
      → (k : Loading) × (load_all J members l ≡ done k)
        × ((name : String)
            → lookup name k.config.servers
              ≡ servers_after members name (lookup name l.config.servers))
        × SameSettings l k
  unfolding load_all
  load_all_lem [] l all = (l, refl, λ name. refl, (refl, refl, refl))
  load_all_lem ((key, value) ∷ rest) l (h, all) =
      let first = enter key (integer_of value "port") (text_of value "address") l in
      let later = load_all_lem rest first all in
      let same = enter-SameSettings key (integer_of value "port") (text_of value "address") l in
      (
        later.0,
        rw (load_all, load_server_lem key value l _ h refl) (later.1),
        λ name. later.2 name ∙ ap (servers_after rest name) (enter-servers key name _ _ l),
        (later.3.0 ∙ same.0, later.3.1 ∙ same.1, later.3.2 ∙ same.2),
      )
