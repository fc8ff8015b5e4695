-- ===== src/Extractors.antt =====
-- crates/extractors: the tools that turn the game's archives into the server's map files.
pub mod Reader
pub mod Dbc
pub mod Mpq
pub mod MapTables
pub mod Float
pub mod MapFile
pub mod Spawn
pub mod Instances
pub mod Terrain
pub mod RawModel
pub mod Vmap
pub mod TileFiles
pub mod Tests
