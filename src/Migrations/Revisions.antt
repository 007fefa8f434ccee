-- ===== src/Migrations/Revisions.antt =====
-- The revisions of migrations/versions, as their calls of Alembic in order.
use football_prediction_craw.Prelude.{true, false, none, some, List, [], ◌∷◌, String}
use football_prediction_craw.Migrations.Schema.{
  ColumnType, uuid, boolean, jsonb, date_time, integer, string, Column, Constraint, primary_key,
  unique_key, foreign_key, Database,
}

abbrev required : String → ColumnType → Column
required name type = record { name = name; type = type; nullable = false; server_default = none }

abbrev nullable : String → ColumnType → Column
nullable name type = record { name = name; type = type; nullable = true; server_default = none }

unfoldable pub sources_columns : List Column
sources_columns =
    required "id" uuid
    ∷ required "source_key" (string 128)
    ∷ required "name" (string 256)
    ∷ required "enabled" boolean
    ∷ required "settings" jsonb
    ∷ required "created_at" date_time
    ∷ required "updated_at" date_time
    ∷ []

unfoldable pub sources_constraints : List Constraint
sources_constraints =
    primary_key "pk_sources" ("id" ∷ [])
    ∷ unique_key "uq_sources_source_key" ("source_key" ∷ [])
    ∷ []

unfoldable pub crawl_runs_columns : List Column
crawl_runs_columns =
    required "id" uuid
    ∷ required "source_id" uuid
    ∷ required "status" (string 32)
    ∷ required "started_at" date_time
    ∷ nullable "finished_at" date_time
    ∷ required "record_count" integer
    ∷ nullable "error_metadata" jsonb
    ∷ []

unfoldable pub crawl_runs_constraints : List Constraint
crawl_runs_constraints =
    foreign_key "fk_crawl_runs_source_id_sources" "source_id" "sources" "id"
    ∷ primary_key "pk_crawl_runs" ("id" ∷ [])
    ∷ []

unfoldable pub records_columns : List Column
records_columns =
    required "id" uuid
    ∷ required "source_id" uuid
    ∷ required "external_id" (string 256)
    ∷ required "payload" jsonb
    ∷ required "content_hash" (string 128)
    ∷ required "is_active" boolean
    ∷ required "created_at" date_time
    ∷ required "updated_at" date_time
    ∷ []

unfoldable pub records_constraints : List Constraint
records_constraints =
    foreign_key "fk_records_source_id_sources" "source_id" "sources" "id"
    ∷ primary_key "pk_records" ("id" ∷ [])
    ∷ unique_key "uq_records_source_external_id" ("source_id" ∷ "external_id" ∷ [])
    ∷ []

unfoldable pub change_events_columns : List Column
change_events_columns =
    required "id" uuid
    ∷ required "record_id" uuid
    ∷ required "event_type" (string 64)
    ∷ required "payload" jsonb
    ∷ required "occurred_at" date_time
    ∷ []

unfoldable pub change_events_constraints : List Constraint
change_events_constraints =
    foreign_key "fk_change_events_record_id_records" "record_id" "records" "id"
    ∷ primary_key "pk_change_events" ("id" ∷ [])
    ∷ []

unfoldable pub source_fetch_states_columns : List Column
source_fetch_states_columns =
    required "id" uuid
    ∷ required "source_id" uuid
    ∷ nullable "etag" (string 512)
    ∷ nullable "last_modified" (string 128)
    ∷ nullable "raw_response_hash" (string 64)
    ∷ required "updated_at" date_time
    ∷ []

unfoldable pub source_fetch_states_constraints : List Constraint
source_fetch_states_constraints =
    foreign_key "fk_source_fetch_states_source_id_sources" "source_id" "sources" "id"
    ∷ primary_key "pk_source_fetch_states" ("id" ∷ [])
    ∷ unique_key "uq_source_fetch_states_source_id" ("source_id" ∷ [])
    ∷ []

-- the two functions of each revision
module _ (db : Database) where
  unfoldable pub upgrade_collection_schema : db.Schema → db.Schema
  upgrade_collection_schema s =
      let s1 = db.create_table "sources" sources_columns sources_constraints s in
      let s2 = db.create_index "ix_sources_enabled" "sources" ("enabled" ∷ []) s1 in
      let s3 = db.create_table "crawl_runs" crawl_runs_columns crawl_runs_constraints s2 in
      let s4 =
        db.create_index "ix_crawl_runs_source_started_at" "crawl_runs"
          ("source_id" ∷ "started_at" ∷ []) s3 in
      let s5 = db.create_table "records" records_columns records_constraints s4 in
      let s6 =
        db.create_index "ix_records_source_is_active" "records" ("source_id" ∷ "is_active" ∷ [])
          s5 in
      let s7 =
        db.create_index "ix_records_source_updated_at" "records" ("source_id" ∷ "updated_at" ∷ [])
          s6 in
      let s8 = db.create_table "change_events" change_events_columns change_events_constraints s7 in
      db.create_index "ix_change_events_record_occurred_at" "change_events"
        ("record_id" ∷ "occurred_at" ∷ []) s8

  unfoldable pub downgrade_collection_schema : db.Schema → db.Schema
  downgrade_collection_schema s =
      let s1 = db.drop_index "ix_change_events_record_occurred_at" s in
      let s2 = db.drop_table "change_events" s1 in
      let s3 = db.drop_index "ix_records_source_updated_at" s2 in
      let s4 = db.drop_index "ix_records_source_is_active" s3 in
      let s5 = db.drop_table "records" s4 in
      let s6 = db.drop_index "ix_crawl_runs_source_started_at" s5 in
      let s7 = db.drop_table "crawl_runs" s6 in
      let s8 = db.drop_index "ix_sources_enabled" s7 in db.drop_table "sources" s8

  unfoldable pub upgrade_change_detection : db.Schema → db.Schema
  upgrade_change_detection s =
      let s1 =
        db.create_table "source_fetch_states" source_fetch_states_columns
          source_fetch_states_constraints s in
      let s2 = db.add_column "records" (nullable "last_seen_at" date_time) s1 in
      let s3 =
        db.add_column "records"
          (record {
            name = "missing_count";
            type = integer;
            nullable = false;
            server_default = some "0";
          })
          s2 in
      db.alter_default "records" "missing_count" none s3

  unfoldable pub downgrade_change_detection : db.Schema → db.Schema
  downgrade_change_detection s =
      let s1 = db.drop_column "records" "missing_count" s in
      let s2 = db.drop_column "records" "last_seen_at" s1 in db.drop_table "source_fetch_states" s2

  unfoldable pub upgrade_snapshot_path : db.Schema → db.Schema
  upgrade_snapshot_path s = db.add_column "crawl_runs" (nullable "snapshot_path" (string 1024)) s

  unfoldable pub downgrade_snapshot_path : db.Schema → db.Schema
  downgrade_snapshot_path s = db.drop_column "crawl_runs" "snapshot_path" s
