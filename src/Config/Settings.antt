-- ===== src/Config/Settings.antt =====
-- src/CoreConfig.cpp: what `Init` makes of a file.
use sm_ext_rpc.Base.{
  String, ap, Bool-cases, inl, inr, Option, none, some, [], Bytes, ◌≡◌, refl, ◌||◌, true, false,
  domain_error, if◌then◌else◌,
}
use sm_ext_rpc.Base.Int.{ℤ}
use sm_ext_rpc.Base.Dict.{lookup}
use sm_ext_rpc.Json.{JsonLib, member, is_null, is_object}
use sm_ext_rpc.Json.Laws.{IsLawful, IsOpen, at_object, at_scalar, is_object_null}
use sm_ext_rpc.Config.Read.{
  integer_of, text_of, servers_after, AllOpen, SameSettings, integer_at_lem, string_at_lem,
  load_all_lem,
}
use sm_ext_rpc.Config.{
  ServerConfig, CoreConfig, Loading, done, raised, warn, load_servers, load_port, load_listen,
  load_secret, load, init, catch, no_servers, servers_not_an_object,
}

-- The new value, if there is one.
abbrev pub or_else {ℓ} : {A : Type ℓ} → Option A → A → A
or_else none old = old
or_else (some new) old = new

module _ (J : JsonLib) (L : IsLawful J) where
  open J use {Json, entries, parse}

  -- What the member `servers` makes of the server under a name.
  abbrev pub servers_read : Json → String → Option ServerConfig → Option ServerConfig
  servers_read servers name old =
      if is_object J servers then servers_after J L (entries servers) name old else old

  load_servers_lem :
      (j : Json) (l : Loading)
      → IsOpen J j
      → (is_object J (member J j "servers") ≡ true → AllOpen J L (entries (member J j "servers")))
      → (k : Loading) × (load_servers J j l ≡ done k)
        × ((name : String)
            → lookup name k.config.servers
              ≡ servers_read (member J j "servers") name (lookup name l.config.servers))
        × SameSettings J L l k
  unfolding load_servers
  load_servers_lem j l h all =
      let servers = member J j "servers" in
      elim (Bool-cases (is_null J servers)) [
        | inl e ↦ (
          warn no_servers l,
          rw (load_servers, at_object J L j "servers" h, e) refl,
          λ name. rw (is_object_null J L servers e) refl,
          (refl, refl, refl),
        )
        | inr e ↦ elim (Bool-cases (is_object J servers)) [
          | inr n ↦ (
            warn servers_not_an_object l,
            rw (load_servers, at_object J L j "servers" h, e, n) refl,
            λ name. rw n refl,
            (refl, refl, refl),
          )
          | inl o ↦
              let read = load_all_lem J L (entries servers) l (all o) in
              (
                read.0,
                rw (load_servers, at_object J L j "servers" h, e, o) (read.1),
                λ name. rw o (read.2 name),
                read.3,
              )
        ]
      ]

  load_port_lem :
      (j : Json) (l : Loading) (port : Option ℤ)
      → IsOpen J j
      → integer_of J L j "port" ≡ port
      → load_port J j l
        ≡ done (record l { config = record l.config { port = or_else port l.config.port } })
  unfolding load_port
  load_port_lem j l none h e = rw (load_port, integer_at_lem J L j "port" h, e) refl
  load_port_lem j l (some port) h e = rw (load_port, integer_at_lem J L j "port" h, e) refl

  load_listen_lem :
      (j : Json) (l : Loading) (address : Option String)
      → IsOpen J j
      → text_of J L j "address" ≡ address
      → load_listen J j l
        ≡ done
            (record l { config = record l.config { address = or_else address l.config.address } })
  unfolding load_listen
  load_listen_lem j l none h e = rw (load_listen, string_at_lem J L j "address" h, e) refl
  load_listen_lem j l (some address) h e = rw (load_listen, string_at_lem J L j "address" h, e) refl

  load_secret_lem :
      (j : Json) (l : Loading) (secret : Option String)
      → IsOpen J j
      → text_of J L j "secret" ≡ secret
      → load_secret J j l
        ≡ done (record l { config = record l.config { secret = or_else secret l.config.secret } })
  unfolding load_secret
  load_secret_lem j l none h e = rw (load_secret, string_at_lem J L j "secret" h, e) refl
  load_secret_lem j l (some secret) h e = rw (load_secret, string_at_lem J L j "secret" h, e) refl

  -- A file that parses as an object or a null, and in which every entry of a servers object is an
  -- object or a null, is read without an exception: port, address and key are the members of these
  -- names if they have the right kind, and under each name stands the last entry of servers that
  -- has an integer for its port and a text for its address; what a member does not give stays as
  -- it was.
  pub init_lem :
      (body : Bytes) (config : CoreConfig) (j : Json)
      → parse body ≡ some j
      → IsOpen J j
      → (is_object J (member J j "servers") ≡ true → AllOpen J L (entries (member J j "servers")))
      → (l : Loading) × (init J body config ≡ done l)
        × (l.config.port ≡ or_else (integer_of J L j "port") config.port)
        × (l.config.address ≡ or_else (text_of J L j "address") config.address)
        × (l.config.secret ≡ or_else (text_of J L j "secret") config.secret)
        × ((name : String)
            → lookup name l.config.servers
              ≡ servers_read (member J j "servers") name (lookup name config.servers))
  unfolding init load catch
  init_lem body config j parsed h all =
      let start : Loading = record { config = config; log = [] } in
      let read = load_servers_lem j start h all in
      let k = read.0 in
      let k1 : Loading = record k {
        config = record k.config { port = or_else (integer_of J L j "port") k.config.port };
      } in
      let k2 : Loading = record k1 {
        config = record k1.config { address = or_else (text_of J L j "address") k1.config.address };
      } in
      (
        record k2 {
          config = record k2.config { secret = or_else (text_of J L j "secret") k2.config.secret };
        },
        rw
            (
              init,
              parsed,
              load,
              read.1,
              load_port_lem j k _ h refl,
              load_listen_lem j k1 _ h refl,
              load_secret_lem j k2 _ h refl,
            )
            refl,
        ap (or_else (integer_of J L j "port")) (read.3.0),
        ap (or_else (text_of J L j "address")) (read.3.1),
        ap (or_else (text_of J L j "secret")) (read.3.2),
        read.2,
      )

  -- If the file parses as neither an object nor a null, std::domain_error leaves CoreConfig::Init,
  -- and the configuration is as it was.
  pub init_scalar :
      (body : Bytes) (config : CoreConfig) (j : Json)
      → parse body ≡ some j
      → (is_null J j || is_object J j) ≡ false
      → init J body config ≡ raised domain_error (record { config = config; log = [] })
  unfolding init load catch load_servers
  init_scalar body config j parsed h =
      rw (init, parsed, load, load_servers, at_scalar J L j "servers" h) refl
