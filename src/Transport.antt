-- ===== src/Transport.antt =====
-- internal/transport/transport.go: the TLS and SASL settings that the environment asks for. The
-- files, what is in them, and the parsed connection string come in as arguments.
pub mod Secured
use pg_live_sync.Prelude.{
  String, str_eq, Bool, true, false, not, ◌&&◌, ◌||◌, Option, none, some, List, [], ◌∷◌,
  if◌then◌else◌,
}
use pg_live_sync.Errclass.{Error, errorf, wrapf, Result, ok, err, ◌>>=◌}
use pg_live_sync.Action.{map_error}

-- tls.Config; the roots and the certificate are named by their files.
pub record TlsConfig : Type 0 where
  pub server_name : String
  pub skip_verify : Bool
  pub roots : Option String
  pub certificate : Option (String × String)

abbrev pub empty_tls : TlsConfig
empty_tls = record { server_name = ""; skip_verify = false; roots = none; certificate = none }

pub record Files : Type 0 where
  -- os.ReadFile, as far as its error goes
  pub read : String → Result (Unit {0})
  -- AppendCertsFromPEM of what is in the file
  pub has_certificates : String → Bool
  -- tls.LoadX509KeyPair
  pub load_pair : String → String → Result (Unit {0})

checked_roots : String → String → Bool → TlsConfig → Result TlsConfig
checked_roots variable path true tls = ok (record tls { roots = some path })
checked_roots variable path false tls =
    err (errorf "no valid certificates in %s %s" (variable ∷ path ∷ []))

-- The certificates of the authority, read from the file that a variable names.
with_roots : Files → String → String → TlsConfig → Result TlsConfig
unfolding checked_roots
with_roots files variable path tls =
    if str_eq path ""
    then ok tls
    else (map_error (wrapf "read %s %s: %w" (variable ∷ path ∷ [])) (files.read path) >>= λ _.
        checked_roots variable path (files.has_certificates path) tls)

-- The client's certificate and key, which count only together.
with_pair : Files → String → String → String → TlsConfig → Result TlsConfig
with_pair files variables cert key tls =
    if not (str_eq cert "") && not (str_eq key "")
    then (map_error (wrapf "load %s: %w" (variables ∷ [])) (files.load_pair cert key) >>= λ _.
        ok (record tls { certificate = some (cert, key) }))
    else ok tls

some_tls : TlsConfig → Result (Option TlsConfig)
some_tls tls = ok (some tls)

-- `postgresTLSFromEnv`, without the mode that it hands back
unfoldable pub postgres_tls_from_env :
    Files → (String → String) → String → Result (Option TlsConfig)
unfolding with_roots with_pair some_tls
postgres_tls_from_env files getenv host =
    if str_eq (getenv "PGSSLROOTCERT") ""
      && (str_eq (getenv "PGSSLCERT") "" && str_eq (getenv "PGSSLKEY") "")
    then ok none
    else (with_roots files "PGSSLROOTCERT" (getenv "PGSSLROOTCERT")
          (record empty_tls { server_name = host })
        >>= λ tls.
            with_pair files "PGSSLCERT/PGSSLKEY" (getenv "PGSSLCERT") (getenv "PGSSLKEY") tls
            >>= some_tls)

-- pgx.ConnConfig, as far as it is used.
pub record ConnConfig : Type 0 where
  pub host : String
  pub tls : Option TlsConfig
  -- The hosts, with their TLS settings, that pgx tries when the first attempt fails; it makes them
  -- from the DSN, and nothing here changes them.
  pub fallbacks : List (String × Option TlsConfig)

-- `tlsConfig`, or a new one where there is none.
unfoldable pub or_empty : Option TlsConfig → TlsConfig
or_empty none = empty_tls
or_empty (some tls) = tls

unfoldable pub default_mode : ConnConfig → Option TlsConfig → ConnConfig
default_mode conn none = conn
default_mode conn (some tls) = record conn { tls = some (record tls { server_name = conn.host }) }

-- The switch of `ConnectPostgres`.
unfoldable pub with_mode : String → ConnConfig → Option TlsConfig → ConnConfig
unfolding or_empty default_mode
with_mode mode conn tls =
    if str_eq mode "disable"
    then record conn { tls = none }
    else if str_eq mode "require"
    then record conn { tls = some (record (or_empty tls) { skip_verify = true }) }
    else if str_eq mode "verify-ca"
    then record conn { tls = some (or_empty tls) }
    else if str_eq mode "verify-full"
    then record conn { tls = some (record (or_empty tls) { server_name = conn.host }) }
    else default_mode conn tls

-- `ConnectPostgres` up to the connection, with what pgx.ParseConfig makes of the DSN
unfoldable pub postgres_config : Files → (String → String) → Result ConnConfig → Result ConnConfig
unfolding postgres_tls_from_env with_mode
postgres_config files getenv parsed =
    map_error (wrapf "parse postgres dsn: %w" []) parsed >>= λ conn.
    map_error (wrapf "postgres tls config: %w" []) (postgres_tls_from_env files getenv conn.host)
    >>= λ tls. ok (with_mode (getenv "PGSSLMODE") conn tls)

-- `kafkaTLSFromEnv`
unfoldable pub kafka_tls_from_env : Files → (String → String) → Result (Option TlsConfig)
unfolding with_roots with_pair some_tls
kafka_tls_from_env files getenv =
    if not (str_eq (getenv "KAFKA_TLS_ENABLED") "true")
      && (str_eq (getenv "KAFKA_CA_CERT") ""
          && (str_eq (getenv "KAFKA_CLIENT_CERT") "" && str_eq (getenv "KAFKA_CLIENT_KEY") ""))
    then ok none
    else (with_roots files "KAFKA_CA_CERT" (getenv "KAFKA_CA_CERT") empty_tls >>= λ tls.
        with_pair files "KAFKA_CLIENT_CERT/KAFKA_CLIENT_KEY" (getenv "KAFKA_CLIENT_CERT")
          (getenv "KAFKA_CLIENT_KEY") tls
        >>= some_tls)

pub data Mechanism : Type 0 where
  scram_sha_256 scram_sha_512 : String → String → Mechanism

-- `kafkaSASLFromEnv`
unfoldable pub kafka_sasl_from_env : (String → String) → Option Mechanism
kafka_sasl_from_env getenv =
    let user = getenv "KAFKA_SASL_USERNAME" in
    let pass = getenv "KAFKA_SASL_PASSWORD" in
    if str_eq user "" || str_eq pass ""
    then none
    else if str_eq (getenv "KAFKA_SASL_MECHANISM") "SCRAM-SHA-512"
    then some (scram_sha_512 user pass)
    else some (scram_sha_256 user pass)

pub data KafkaOption : Type 0 where
  dial_tls : TlsConfig → KafkaOption
  sasl : Mechanism → KafkaOption

-- A TLS configuration that cannot be built is only reported.
tls_options : Result (Option TlsConfig) → List KafkaOption → List KafkaOption
tls_options (err e) options = options
tls_options (ok none) options = options
tls_options (ok (some tls)) options = dial_tls tls ∷ options

sasl_options : Option Mechanism → List KafkaOption
sasl_options none = []
sasl_options (some mechanism) = sasl mechanism ∷ []

-- `KafkaOptions`
unfoldable pub kafka_options : Files → (String → String) → List KafkaOption
unfolding kafka_tls_from_env kafka_sasl_from_env tls_options sasl_options
kafka_options files getenv =
    tls_options (kafka_tls_from_env files getenv) (sasl_options (kafka_sasl_from_env getenv))
