-- ===== src/Migrations/Reversal.antt =====
-- A downgrade undoes its upgrade (migrations/versions).
use football_prediction_craw.Prelude.{
  ◌≡◌, refl, ap, ◌∙◌, true, false, none, some, List, [], ◌∷◌, String, All, any, str_eq,
}
use football_prediction_craw.Migrations.Schema.{Database, Column, integer, date_time, string}
use football_prediction_craw.Migrations.Revisions.{
  upgrade_collection_schema, downgrade_collection_schema, upgrade_change_detection,
  downgrade_change_detection, upgrade_snapshot_path, downgrade_snapshot_path, sources_columns,
  sources_constraints, crawl_runs_columns, crawl_runs_constraints, records_columns,
  records_constraints, change_events_columns, change_events_constraints,
  source_fetch_states_columns, source_fetch_states_constraints,
}

module _ (db : Database) where
  abbrev pub NoTables : List String → db.Schema → Type 0
  NoTables names s = All (λ t. db.has_table t s ≡ false) names

  abbrev pub NoIndexes : List String → db.Schema → Type 0
  NoIndexes names s = All (λ i. db.has_index i s ≡ false) names

  abbrev pub tables : List String
  tables = "sources" ∷ "crawl_runs" ∷ "records" ∷ "change_events" ∷ "source_fetch_states" ∷ []

  abbrev pub indexes : List String
  indexes =
      "ix_sources_enabled" ∷ "ix_crawl_runs_source_started_at" ∷ "ix_records_source_is_active"
      ∷ "ix_records_source_updated_at" ∷ "ix_change_events_record_occurred_at" ∷ []

  collection_schema_reversed :
      (s : db.Schema)
      → NoTables tables s
      → NoIndexes indexes s
      → downgrade_collection_schema db (upgrade_collection_schema db s) ≡ s
  unfolding upgrade_collection_schema downgrade_collection_schema
  collection_schema_reversed s (a, (b, (c, (d, rest)))) (e, (f, (g, (h, (i, more))))) =
      let s1 = db.create_table "sources" sources_columns sources_constraints s in
      let free1 : db.has_table "sources" s ≡ false = a in
      let s2 = db.create_index "ix_sources_enabled" "sources" ("enabled" ∷ []) s1 in
      let free2 : db.has_index "ix_sources_enabled" s1 ≡ false =
        simp (db.indexes_after_table, e) refl in
      let s3 = db.create_table "crawl_runs" crawl_runs_columns crawl_runs_constraints s2 in
      let free3 : db.has_table "crawl_runs" s2 ≡ false =
        simp (db.tables_after_index, db.tables_after_table, b) refl in
      let s4 =
        db.create_index "ix_crawl_runs_source_started_at" "crawl_runs"
          ("source_id" ∷ "started_at" ∷ []) s3 in
      let free4 : db.has_index "ix_crawl_runs_source_started_at" s3 ≡ false =
        simp (db.indexes_after_index, db.indexes_after_table, f) refl in
      let s5 = db.create_table "records" records_columns records_constraints s4 in
      let free5 : db.has_table "records" s4 ≡ false =
        simp (db.tables_after_index, db.tables_after_table, c) refl in
      let s6 =
        db.create_index "ix_records_source_is_active" "records" ("source_id" ∷ "is_active" ∷ [])
          s5 in
      let free6 : db.has_index "ix_records_source_is_active" s5 ≡ false =
        simp (db.indexes_after_index, db.indexes_after_table, g) refl in
      let s7 =
        db.create_index "ix_records_source_updated_at" "records" ("source_id" ∷ "updated_at" ∷ [])
          s6 in
      let free7 : db.has_index "ix_records_source_updated_at" s6 ≡ false =
        simp (db.indexes_after_index, db.indexes_after_table, h) refl in
      let s8 = db.create_table "change_events" change_events_columns change_events_constraints s7 in
      let free8 : db.has_table "change_events" s7 ≡ false =
        simp (db.tables_after_index, db.tables_after_table, d) refl in
      let s9 =
        db.create_index "ix_change_events_record_occurred_at" "change_events"
          ("record_id" ∷ "occurred_at" ∷ []) s8 in
      let free9 : db.has_index "ix_change_events_record_occurred_at" s8 ≡ false =
        simp (db.indexes_after_index, db.indexes_after_table, i) refl in
      let back9 =
        db.index_undone "ix_change_events_record_occurred_at" "change_events"
          ("record_id" ∷ "occurred_at" ∷ []) s8 free9 in
      let back8 =
        ap (db.drop_table "change_events") back9
        ∙ db.table_undone "change_events" change_events_columns change_events_constraints s7
            free8 in
      let back7 =
        ap (db.drop_index "ix_records_source_updated_at") back8
        ∙ db.index_undone "ix_records_source_updated_at" "records" ("source_id" ∷ "updated_at" ∷ [])
            s6 free7 in
      let back6 =
        ap (db.drop_index "ix_records_source_is_active") back7
        ∙ db.index_undone "ix_records_source_is_active" "records" ("source_id" ∷ "is_active" ∷ [])
            s5 free6 in
      let back5 =
        ap (db.drop_table "records") back6
        ∙ db.table_undone "records" records_columns records_constraints s4 free5 in
      let back4 =
        ap (db.drop_index "ix_crawl_runs_source_started_at") back5
        ∙ db.index_undone "ix_crawl_runs_source_started_at" "crawl_runs"
            ("source_id" ∷ "started_at" ∷ []) s3 free4 in
      let back3 =
        ap (db.drop_table "crawl_runs") back4
        ∙ db.table_undone "crawl_runs" crawl_runs_columns crawl_runs_constraints s2 free3 in
      let back2 =
        ap (db.drop_index "ix_sources_enabled") back3
        ∙ db.index_undone "ix_sources_enabled" "sources" ("enabled" ∷ []) s1 free2 in
      ap (db.drop_table "sources") back2
      ∙ db.table_undone "sources" sources_columns sources_constraints s free1

  -- the columns that the second and the third revision add
  abbrev last_seen_at : Column
  last_seen_at = record {
    name = "last_seen_at";
    type = date_time;
    nullable = true;
    server_default = none;
  }

  abbrev missing_count : Column
  missing_count = record {
    name = "missing_count";
    type = integer;
    nullable = false;
    server_default = some "0";
  }

  abbrev snapshot_path : Column
  snapshot_path = record {
    name = "snapshot_path";
    type = string 1024;
    nullable = true;
    server_default = none;
  }

  NoColumns : db.Schema → Type 0
  NoColumns s =
      (db.has_column "records" "last_seen_at" s ≡ false)
      × (db.has_column "records" "missing_count" s ≡ false)
      × (db.has_column "crawl_runs" "snapshot_path" s ≡ false)

  change_detection_reversed :
      (s : db.Schema)
      → db.has_table "source_fetch_states" s ≡ false
      → NoColumns s
      → downgrade_change_detection db (upgrade_change_detection db s) ≡ s
  unfolding upgrade_change_detection downgrade_change_detection NoColumns
  change_detection_reversed s free (a, b, c) =
      let s1 =
        db.create_table "source_fetch_states" source_fetch_states_columns
          source_fetch_states_constraints s in
      let free2 : db.has_column "records" "last_seen_at" s1 ≡ false =
        db.columns_after_table "records" "last_seen_at" "source_fetch_states" _ _ s refl ∙ a in
      let s2 = db.add_column "records" last_seen_at s1 in
      let free3 : db.has_column "records" "missing_count" s2 ≡ false =
        db.columns_after_column "records" "missing_count" "records" last_seen_at s1 refl
        ∙ (db.columns_after_table "records" "missing_count" "source_fetch_states" _ _ s refl ∙ b) in
      let s3 = db.add_column "records" missing_count s2 in
      let back3 =
        db.default_undone "records" "missing_count" none s3
        ∙ db.column_undone "records" missing_count s2 free3 in
      let back2 =
        ap (db.drop_column "records" "last_seen_at") back3
        ∙ db.column_undone "records" last_seen_at s1 free2 in
      ap (db.drop_table "source_fetch_states") back2
      ∙ db.table_undone "source_fetch_states" source_fetch_states_columns
          source_fetch_states_constraints s free

  snapshot_path_reversed :
      (s : db.Schema)
      → db.has_column "crawl_runs" "snapshot_path" s ≡ false
      → downgrade_snapshot_path db (upgrade_snapshot_path db s) ≡ s
  unfolding upgrade_snapshot_path downgrade_snapshot_path
  snapshot_path_reversed s free = db.column_undone "crawl_runs" snapshot_path s free

  -- what the first revision leaves free for the second and the third
  records_lacks :
      (c : String) (s : db.Schema)
      → NoTables tables s
      → any (λ column. str_eq column.name c) records_columns ≡ false
      → db.has_column "records" c (upgrade_collection_schema db s) ≡ false
  unfolding upgrade_collection_schema
  records_lacks c s (a, (b, (k, (d, rest)))) absent =
      let s4 =
        db.create_index "ix_crawl_runs_source_started_at" "crawl_runs"
          ("source_id" ∷ "started_at" ∷ [])
          (db.create_table "crawl_runs" crawl_runs_columns crawl_runs_constraints (
            db.create_index "ix_sources_enabled" "sources" ("enabled" ∷ [])
              (db.create_table "sources" sources_columns sources_constraints s))) in
      let free : db.has_table "records" s4 ≡ false =
        simp (db.tables_after_index, db.tables_after_table, k) refl in
      db.columns_after_index "records" c _ _ _ _
      ∙ (db.columns_after_table "records" c "change_events" _ _ _ refl
          ∙ (db.columns_after_index "records" c _ _ _ _
              ∙ (db.columns_after_index "records" c _ _ _ _
                  ∙ (db.columns_of_table "records" c records_columns records_constraints s4 free
                      ∙ absent))))

  crawl_runs_lacks :
      (c : String) (s : db.Schema)
      → NoTables tables s
      → any (λ column. str_eq column.name c) crawl_runs_columns ≡ false
      → db.has_column "crawl_runs" c (upgrade_collection_schema db s) ≡ false
  unfolding upgrade_collection_schema
  crawl_runs_lacks c s (a, (b, rest)) absent =
      let s2 =
        db.create_index "ix_sources_enabled" "sources" ("enabled" ∷ [])
          (db.create_table "sources" sources_columns sources_constraints s) in
      let free : db.has_table "crawl_runs" s2 ≡ false =
        simp (db.tables_after_index, db.tables_after_table, b) refl in
      db.columns_after_index "crawl_runs" c _ _ _ _
      ∙ (db.columns_after_table "crawl_runs" c "change_events" _ _ _ refl
          ∙ (db.columns_after_index "crawl_runs" c _ _ _ _
              ∙ (db.columns_after_index "crawl_runs" c _ _ _ _
                  ∙ (db.columns_after_table "crawl_runs" c "records" _ _ _ refl
                      ∙ (db.columns_after_index "crawl_runs" c _ _ _ _
                          ∙ (db.columns_of_table "crawl_runs" c crawl_runs_columns
                                crawl_runs_constraints s2 free
                              ∙ absent))))))

  fetch_states_free :
      (s : db.Schema)
      → NoTables tables s
      → db.has_table "source_fetch_states" (upgrade_collection_schema db s) ≡ false
  unfolding upgrade_collection_schema
  fetch_states_free s (a, (b, (c, (d, (e, rest))))) =
      simp (db.tables_after_index, db.tables_after_table, e) refl

  -- the second revision adds no column to the runs
  snapshot_path_free :
      (s : db.Schema)
      → db.has_column "crawl_runs" "snapshot_path" s ≡ false
      → db.has_column "crawl_runs" "snapshot_path" (upgrade_change_detection db s) ≡ false
  unfolding upgrade_change_detection
  snapshot_path_free s h =
      db.columns_after_default "crawl_runs" "snapshot_path" _ _ _ _
      ∙ (db.columns_after_column "crawl_runs" "snapshot_path" "records" missing_count _ refl
          ∙ (db.columns_after_column "crawl_runs" "snapshot_path" "records" last_seen_at _ refl
              ∙ (db.columns_after_table "crawl_runs" "snapshot_path" "source_fetch_states" _ _ s
                    refl
                  ∙ h)))

  -- all upgrades in order, and all downgrades in the opposite order
  unfoldable pub upgraded : db.Schema → db.Schema
  upgraded s =
      upgrade_snapshot_path db (upgrade_change_detection db (upgrade_collection_schema db s))

  unfoldable pub downgraded : db.Schema → db.Schema
  downgraded s =
      downgrade_collection_schema db (downgrade_change_detection db (downgrade_snapshot_path db s))

  -- a schema with none of the five tables and none of the five indexes
  abbrev pub Empty : db.Schema → Type 0
  Empty s = NoTables tables s × NoIndexes indexes s

  -- On a schema with none of the program's tables and indexes, the three downgrades after the three
  -- upgrades leave the schema as it was.
  pub downgraded-upgraded : (s : db.Schema) → Empty s → downgraded (upgraded s) ≡ s
  unfolding upgraded downgraded NoColumns records_columns crawl_runs_columns
  downgraded-upgraded s (no_tables, no_indexes) =
      let s1 = upgrade_collection_schema db s in
      let s2 = upgrade_change_detection db s1 in
      let runs_free = crawl_runs_lacks "snapshot_path" s no_tables refl in
      ap (λ x. downgrade_collection_schema db (downgrade_change_detection db x))
        (snapshot_path_reversed s2 (snapshot_path_free s1 runs_free))
      ∙ (ap (downgrade_collection_schema db) (
            change_detection_reversed s1 (fetch_states_free s no_tables) (
              records_lacks "last_seen_at" s no_tables refl,
              records_lacks "missing_count" s no_tables refl,
              runs_free,
            ))
          ∙ collection_schema_reversed s no_tables no_indexes)
