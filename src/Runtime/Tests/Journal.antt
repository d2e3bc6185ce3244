-- ===== src/Runtime/Tests/Journal.antt =====
-- The effect journal at concrete inputs.
use abrolia.Common.{◌≡◌, refl, none, some, [], ◌∷◌, ok, err, true, false}
use abrolia.Runtime.Schema.{Db, Effect, done, effect_in_flight}
use abrolia.Runtime.Effects.{begin, complete, new_effect}
use abrolia.Runtime.Effects.Idempotence.{begin-begin, begin-complete}
use abrolia.Runtime.Tests.Data.{empty_db}

abbrev begun : Db
begun = (begin 1 10 20 30 none none 100 120 empty_db).1

begin-begin_example :
    (begin 1 10 20 30 none none 100 120 empty_db ≡ (
      ok (new_effect 1 10 20 30 none none 100 120, true),
      record empty_db { effects = new_effect 1 10 20 30 none none 100 120 ∷ [] },
    ))
    × (begin 2 10 20 31 none none 150 120 begun
        ≡ (err (effect_in_flight (new_effect 1 10 20 30 none none 100 120)), begun))
begin-begin_example =
    begin-begin 1 10 20 30 none none 100 120 empty_db refl refl refl 2 31 none none 150 120

abbrev finished : Db
finished = complete 1 99 130 begun

begin-complete_example :
    (e : Effect) × (begin 2 10 20 31 none none 500 120 finished ≡ (ok (e, false), finished))
    × (e.id ≡ 1)
    × (e.status ≡ done)
    × (e.result ≡ some 99)
begin-complete_example =
    begin-complete 1 10 20 30 none none 100 120 empty_db refl refl refl 99 130 2 31 none none 500
      120
