-- ===== src/Transport/Secured.antt =====
-- What `ConnectPostgres` (internal/transport/transport.go) asks of the server.
use pg_live_sync.Prelude.{
  ◌≡◌, refl, sym, ap, ◌∙◌, String, str_eq, Bool, true, false, Option, none, some, [], ◌∷◌,
  Bool-cases, inl, inr, if◌then◌else◌,
}
use mathlib.Core.Path.{subst}
use pg_live_sync.Errclass.{wrapf, ok, ok-injective, >>=-eq-ok, ◌>>=◌}
use pg_live_sync.Action.{map_error}
use pg_live_sync.Action.Ends.{map_error-eq-ok}
use pg_live_sync.Transport.{
  TlsConfig, empty_tls, Files, checked_roots, with_roots, with_pair, some_tls,
  postgres_tls_from_env, ConnConfig, or_empty, with_mode, postgres_config,
}

-- The server's certificate is checked.
abbrev pub Checks : TlsConfig → Type 0
Checks tls = tls.skip_verify ≡ false

-- The first attempt is made with TLS, and checks the certificate for this name.
abbrev pub Verifies : String → ConnConfig → Type 0
Verifies name conn =
    (tls : TlsConfig) × (conn.tls ≡ some tls) × Checks tls × (tls.server_name ≡ name)

checked_roots-Checks :
    (variable path : String) (has : Bool) (tls : TlsConfig) {tls' : TlsConfig}
    → checked_roots variable path has tls ≡ ok tls'
    → Checks tls
    → Checks tls'
unfolding checked_roots
checked_roots-Checks variable path true tls h k = subst Checks (ok-injective h) k
checked_roots-Checks variable path false tls h k = cc

module _ (files : Files) where
  with_roots-Checks :
      (variable path : String) (tls : TlsConfig) {tls' : TlsConfig}
      → with_roots files variable path tls ≡ ok tls'
      → Checks tls
      → Checks tls'
  unfolding with_roots
  with_roots-Checks variable path tls {tls'} h k = elim (Bool-cases (str_eq path "")) [
    | inl blank ↦ subst Checks (ok-injective (let h' : ok tls ≡ ok tls' = rw blank at h in h')) k
    | inr named ↦
        let h' : (map_error (wrapf "read %s %s: %w" (variable ∷ path ∷ [])) (files.read path)
              >>= λ _. checked_roots variable path (files.has_certificates path) tls)
            ≡ ok tls' =
          rw named at h in
        let (_, _, made) =
          >>=-eq-ok (map_error _ (files.read path))
            (λ _. checked_roots variable path (files.has_certificates path) tls) h' in
        checked_roots-Checks variable path (files.has_certificates path) tls made k
  ]

  pair_added :
      (both : Bool) (variables cert key : String) (tls : TlsConfig) {tls' : TlsConfig}
      → (if both
          then (map_error (wrapf "load %s: %w" (variables ∷ [])) (files.load_pair cert key) >>= λ _.
              ok (record tls { certificate = some (cert, key) }))
          else ok tls)
        ≡ ok tls'
      → Checks tls
      → Checks tls'
  pair_added true variables cert key tls h k =
      let (_, _, made) =
        >>=-eq-ok (map_error (wrapf "load %s: %w" (variables ∷ [])) (files.load_pair cert key))
          (λ _. ok (record tls { certificate = some (cert, key) })) h in
      subst Checks (ok-injective made) k
  pair_added false variables cert key tls h k = subst Checks (ok-injective h) k

  tls_made :
      (blank : Bool) (getenv : String → String) (host : String) {found : Option TlsConfig}
      → (if blank
          then ok none
          else (with_roots files "PGSSLROOTCERT"
                (getenv "PGSSLROOTCERT")
                (record empty_tls { server_name = host })
              >>= λ tls.
                  with_pair files "PGSSLCERT/PGSSLKEY" (getenv "PGSSLCERT") (getenv "PGSSLKEY") tls
                  >>= some_tls))
        ≡ ok found
      → Checks (or_empty found)
  unfolding or_empty some_tls with_pair
  tls_made true getenv host h = subst (λ f. Checks (or_empty f)) (ok-injective h) refl
  tls_made false getenv host h =
      let (rooted, at, h1) =
        >>=-eq-ok
          (with_roots files "PGSSLROOTCERT" (getenv "PGSSLROOTCERT")
            (record empty_tls { server_name = host }))
          (λ tls.
            with_pair files "PGSSLCERT/PGSSLKEY" (getenv "PGSSLCERT") (getenv "PGSSLKEY") tls
            >>= some_tls)
          h in
      let (paired, at', h2) =
        >>=-eq-ok
          (with_pair files "PGSSLCERT/PGSSLKEY" (getenv "PGSSLCERT") (getenv "PGSSLKEY") rooted)
          some_tls h1 in
      let rooted_checks = with_roots-Checks "PGSSLROOTCERT" (getenv "PGSSLROOTCERT") _ at refl in
      subst (λ f. Checks (or_empty f)) (ok-injective h2)
        (pair_added _ "PGSSLCERT/PGSSLKEY" (getenv "PGSSLCERT") (getenv "PGSSLKEY") rooted at'
          rooted_checks)

  from_env-Checks :
      (getenv : String → String) (host : String) {found : Option TlsConfig}
      → postgres_tls_from_env files getenv host ≡ ok found
      → Checks (or_empty found)
  unfolding postgres_tls_from_env
  from_env-Checks getenv host h = tls_made _ getenv host h

  mode-Verifies :
      (conn : ConnConfig) (found : Option TlsConfig)
      → Checks (or_empty found)
      → Verifies conn.host (with_mode "verify-full" conn found)
        × ((with_mode "verify-full" conn found).fallbacks ≡ conn.fallbacks)
  unfolding with_mode
  mode-Verifies conn found h =
      ((record (or_empty found) { server_name = conn.host }, refl, h, refl), refl)

  -- With PGSSLMODE set to verify-full, the first attempt of `ConnectPostgres` is made with TLS, and
  -- checks the server's certificate for the host of the connection string. The attempts that follow
  -- one that fails are those that pgx has read from the connection string, with the TLS settings
  -- that it gave them, whatever PGSSLMODE says.
  pub postgres_config-Verifies :
      (getenv : String → String) (parsed conn : ConnConfig)
      → getenv "PGSSLMODE" ≡ "verify-full"
      → postgres_config files getenv (ok parsed) ≡ ok conn
      → Verifies parsed.host conn × (conn.fallbacks ≡ parsed.fallbacks)
  unfolding postgres_config
  postgres_config-Verifies getenv parsed conn mode h =
      let (found, at, h') =
        >>=-eq-ok
          (map_error (wrapf "postgres tls config: %w" [])
            (postgres_tls_from_env files getenv parsed.host))
          (λ tls. ok (with_mode (getenv "PGSSLMODE") parsed tls)) h in
      let made =
        mode-Verifies parsed found (from_env-Checks getenv parsed.host (map_error-eq-ok _ _ at)) in
      subst (λ (c : ConnConfig). Verifies parsed.host c × (c.fallbacks ≡ parsed.fallbacks))
        (ap (λ m. with_mode m parsed found) (sym mode) ∙ ok-injective h') made
