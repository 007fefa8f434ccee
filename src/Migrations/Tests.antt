-- ===== src/Migrations/Tests.antt =====
-- The theorem on the revisions at a database that has a table of its own.
use football_prediction_craw.Prelude.{◌≡◌, refl, List, [], ◌∷◌}
use football_prediction_craw.Migrations.Sample.{sample, Tables, Index}
use football_prediction_craw.Migrations.Reversal.{Empty, upgraded, downgraded, downgraded-upgraded}

abbrev schema : Tables × List Index
schema = (record { name = "alembic_version"; columns = []; constraints = [] } ∷ [], [])

schema-Empty : Empty sample schema
schema-Empty =
    ((refl, (refl, (refl, (refl, (refl, tt))))), (refl, (refl, (refl, (refl, (refl, tt))))))

downgraded-upgraded_example : downgraded sample (upgraded sample schema) ≡ schema
downgraded-upgraded_example = downgraded-upgraded sample schema schema-Empty
