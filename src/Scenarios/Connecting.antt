-- ===== src/Scenarios/Connecting.antt =====
-- The settings of a PostgreSQL connection, and the metrics of the observer, on sample values.
use pg_live_sync.Prelude.{
  ◌≡◌, refl, String, str_eq, Bool, true, false, Option, none, some, List, [], ◌∷◌, if◌then◌else◌,
}
use pg_live_sync.Prelude.Int.{ℤ, pos, negsuc}
use pg_live_sync.Errclass.{Result, ok}
use pg_live_sync.Transport.{Files, ConnConfig, TlsConfig, postgres_config}
use pg_live_sync.Transport.Secured.{Verifies, postgres_config-Verifies}
use pg_live_sync.Observer.{ListedOffset, OffsetAnswers, Metrics, log_metrics, kafka_lag_for_demo}
use pg_live_sync.Observer.Lag.{log_metrics-kafka_lag_for_demo}

abbrev sample_files : Files
sample_files = record {
  read = λ path. ok tt;
  has_certificates = λ path. true;
  load_pair = λ cert key. ok tt;
}

abbrev sample_env : String → String
sample_env name =
    if str_eq name "PGSSLMODE"
    then "verify-full"
    else if str_eq name "PGSSLROOTCERT"
    then "/etc/ca.pem"
    else ""

abbrev full_tls : TlsConfig
full_tls = record {
  server_name = "db.internal";
  skip_verify = false;
  roots = some "/etc/ca.pem";
  certificate = none;
}

abbrev plain : ConnConfig
plain = record { host = "db.internal"; tls = none; fallbacks = ("db2.internal", none) ∷ [] }

abbrev secured : ConnConfig
secured = record {
  host = "db.internal";
  tls = some full_tls;
  fallbacks = ("db2.internal", none) ∷ [];
}

secured_config : postgres_config sample_files sample_env (ok plain) ≡ ok secured
unfolding postgres_config
secured_config = refl

postgres_config-Verifies_example :
    Verifies "db.internal" secured × (secured.fallbacks ≡ ("db2.internal", none) ∷ [])
postgres_config-Verifies_example =
    postgres_config-Verifies sample_files sample_env plain secured refl secured_config

abbrev offset_at : ℤ → Result (Option ListedOffset)
offset_at n = ok (some (record { load_error = none; offset = n }))

abbrev sample_offsets : OffsetAnswers
sample_offsets = record {
  end_offsets = offset_at (pos 120);
  start_offsets = offset_at (pos 20);
  commits = offset_at (pos 100);
  configs = ok (ok (record { key = "retention.ms"; value = "604800000" } ∷ []));
}

abbrev sample_metrics : Metrics
sample_metrics = record {
  log_start = pos 20;
  log_end = pos 120;
  produced = pos 100;
  committed = pos 100;
  consumed = pos 80;
  lag = pos 20;
  retention = pos 604800000;
  outran = false;
}

metrics_logged : log_metrics sample_offsets ≡ ok sample_metrics
unfolding log_metrics pg_live_sync.Prelude.Int.◌-ℤ◌ pg_live_sync.Prelude.Numerals.parse_int
metrics_logged = refl

log_metrics-kafka_lag_for_demo_example : pos 20 ≡ kafka_lag_for_demo (pos 100) (pos 80)
log_metrics-kafka_lag_for_demo_example =
    log_metrics-kafka_lag_for_demo sample_offsets sample_metrics metrics_logged refl
