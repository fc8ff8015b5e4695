-- ===== src/Extractors/Tests/Models.antt =====
-- A concrete model that is written as a raw model and read back.
use cmangos_tbc.Base.{ℕ, ◌≡◌, some, List, [], ◌∷◌, arith}
use cmangos_tbc.Extractors.Spawn.{Vec3}
use cmangos_tbc.Extractors.RawModel.{read_raw_model}
use cmangos_tbc.Extractors.RawModel.Single.{raw_model_bytes}
use cmangos_tbc.Extractors.RawModel.RoundTrip.{single_group, read_raw_model-raw_model_bytes}
use cmangos_tbc.Extractors.Tests.Files.{float, float-FloatLaws}

abbrev indices : List ℕ
indices = 0 ∷ 1 ∷ 2 ∷ 2 ∷ 1 ∷ 0 ∷ []

abbrev vertices : List Vec3
vertices =
    record { x = 1; y = 2; z = 3 }
    ∷ record { x = 4; y = 5; z = 6 }
    ∷ record { x = 7; y = 8; z = 9 }
    ∷ []

read_raw_model-raw_model_bytes_example :
    read_raw_model (some (raw_model_bytes float (indices, vertices)))
    ≡ some (record { root_wmo_id = 0; groups = single_group (indices, vertices) ∷ [] })
read_raw_model-raw_model_bytes_example =
    read_raw_model-raw_model_bytes float indices vertices float-FloatLaws (omega arith)
      (omega arith) (omega arith) (omega arith)
