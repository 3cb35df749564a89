-- ===== src/Destination/Upserts.antt =====
-- What `Apply` and `ApplyBatch` of internal/destination/applier.go check, decide and send before a
-- statement is run.
use pg_live_sync.Prelude.{
  ◌≡◌, refl, ℕ, ◌==◌, leb, String, Bool, not, ◌&&◌, Option, List, [], ◌∷◌, contains_string, concat,
  if◌then◌else◌,
}
use pg_live_sync.Errclass.{permanentf, Result, ok, err}
use pg_live_sync.Action.{map_error}
use pg_live_sync.Cdc.{Event}
use pg_live_sync.Destination.Rows.{
  Param, verify_ident, transcode_row, append_numbered, permanent_event,
}

-- pglogrepl.ParseLSN, of a library that the program only calls.
abbrev pub LsnParser : Type 0
LsnParser = String → Option ℕ

-- truncateIsStale; LSN 0 stands for a table that was never truncated.
unfoldable pub truncate_is_stale : ℕ → ℕ → Bool
truncate_is_stale event_lsn watermark = not (watermark == 0) && leb event_lsn watermark

-- Each key column is among the columns, or none of them is among the unchanged ones.
unfoldable pub keys_present : String → List String → List String → Result (Unit {0})
keys_present id columns [] = ok tt
keys_present id columns (column ∷ key_columns) =
    let rest = keys_present id columns key_columns in
    if contains_string columns column
    then rest
    else err (
        permanentf "event %s: primary-key column %q is absent from the change row"
          (id ∷ column ∷ []))

unfoldable pub keys_changed : String → List String → List String → Result (Unit {0})
keys_changed id unchanged [] = ok tt
keys_changed id unchanged (column ∷ key_columns) =
    let rest = keys_changed id unchanged key_columns in
    if contains_string unchanged column
    then err (permanentf "event %s: primary-key column %q is marked unchanged" (id ∷ column ∷ []))
    else rest

-- What an insert or update sends: columns, key columns, parameters and key values.
pub record Upsert : Type 0 where
  pub columns : List String
  pub key_columns : List String
  pub parameters : List Param
  pub key_values : List Param

abbrev pub Bind {ℓ} : Type ℓ → Type ℓ → Type ℓ
Bind A B = Result A → (A → Result B) → Result B

unfoldable pub bind {ℓ} : {A B : Type ℓ} → Bind A B
bind (ok a) f = f a
bind (err e) f = err e

pub bind-eq-ok {ℓ} :
    {A B : Type ℓ} (m : Result A) (f : A → Result B) {b : B}
    → bind m f ≡ ok b
    → (a : A) × (m ≡ ok a) × (f a ≡ ok b)
unfolding bind
bind-eq-ok (ok a) f h = (a, refl, h)
bind-eq-ok (err e) f h = cc

-- The checks of an insert or update, up to its parameters.
unfoldable pub prepare_upsert : Event → Result Upsert
unfolding bind
prepare_upsert event =
    bind (map_error (permanent_event event.id) (transcode_row event.after)) λ after.
      bind (map_error (permanent_event event.id) (transcode_row event.key)) λ key.
        bind (keys_present event.id after.0 key.0) λ present.
          bind (keys_changed event.id event.unchanged_columns key.0) λ changed. ok (record {
            columns = after.0;
            key_columns = key.0;
            parameters = append_numbered after.1 event.source.commit_lsn event.source.commit_time;
            key_values = key.1;
          })

unfoldable pub check_idents : Event → Result (Unit {0})
unfolding bind
check_idents event =
    bind (map_error (permanent_event event.id) (verify_ident event.schema))
      λ schema_ok. map_error (permanent_event event.id) (verify_ident event.table)

abbrev pub description : String → Event → String
description verb event =
    concat (verb ∷ " event " ∷ event.id ∷ " on " ∷ event.schema ∷ "." ∷ event.table ∷ [])
