-- ===== src/Lib.antt =====
-- The authentication server of CMaNGOS TBC (a connection's handlers, SRP6, the realm list,
-- packets), the files that its map and model extractors exchange, and the meshes that are made of
-- them.
--
-- Parts. A client of crates/realmd sends commands on one connection. `handle_client` in
-- crates/realmd/src/auth_socket.rs checks each command against the session's status and calls its
-- handler; the handlers read packets (crates/realmd/src/protocol.rs), query the account database
-- (crates/shared/src/database/mod.rs), compute the SRP6 handshake (crates/shared/src/auth) and
-- answer through the packet buffer (crates/shared/src/util/byte_buffer.rs). An authenticated client
-- gets the realm list, which crates/realmd/src/realm_list.rs refreshes from the database.
--
-- The tools of crates/extractors work one after the other, through files. map_dbc.rs reads tables
-- (dbc.rs) from the client's archives (mpq.rs) and writes a map file for each tile. vmap_extract.rs
-- writes the raw model of each model file and appends a record for each placed model to the file
-- dir_bin; vmap_assemble.rs collects these records by map, writes the files of the maps and their
-- tiles, and reads the raw models; movemap_gen.rs loads the map files and the models' files, and
-- makes the mesh of a tile of them.
--
-- Files. Base and its children: lists, bytes, text and numbers, and what the standard library of
-- the source language does with them. Shared/ByteBuffer, BigNumber, Crypto, Srp6, Base32, Config,
-- Database and Types model the files of crates/shared/src with these names (auth/big_number.rs,
-- auth/crypto_hash.rs, auth/hmac_sha1.rs, auth/srp6.rs, auth/base32.rs, config/mod.rs,
-- database/mod.rs, lib.rs). Realmd/AuthCodes, Protocol, Builds and RealmList model auth_codes.rs,
-- protocol.rs and realm_list.rs of crates/realmd/src. Realmd/Session holds the variables of
-- `handle_client`; LogonChallenge, LogonProof, Reconnect, Checks and RealmPacket model the handlers
-- of auth_socket.rs, and Client its loop; ConnectionTracker models the limits on connections in
-- crates/realmd/src/main.rs. A handler of the source is a function of the same name; a stretch of a
-- long handler has a function of its own, with a name for what it does. Child modules hold the
-- proofs. Extractors/Dbc and Mpq model dbc.rs and mpq.rs; MapTables, MapFile, MapFile/Build and
-- MapFile/Liquid model map_dbc.rs: its tables, the layout of a map file, the heights and areas, the
-- liquid; MapFile/Load is `load_map_portion` of movemap_gen.rs up to the loaded grids, Terrain,
-- Terrain/Shape and Terrain/Portion are what it makes of them: the vertices and triangles of a
-- tile, the choice between terrain and liquid, the borders of the neighbours (`load_map`).
-- Terrain/Clean is `clean_vertices` and `get_tile_bounds` of the same file, Vmap its readers of
-- tree files and models, Vmap/Models its `load_vmap`. Instances models vmap_extract.rs's unique ids
-- and records, RawModel/Single its raw model of a single model file; Spawn models the assembler's
-- reader of dir_bin (vmap_assemble.rs), TileFiles its `write_map_files`, RawModel its reader of raw
-- models and the bytes of a liquid. `record` of DbcFile is `record_at`, min and max of AaBox are
-- `low` and `high`, `write_to` and `file_size` of WmoLiquid are `liquid_bytes` and `file_size`. A
-- mesh has no fields for off-mesh connections, which no modelled function touches. Samples and
-- Tests hold concrete inputs.
--
-- Representation. A string is its UTF-8 bytes, a `usize` a natural number whose sums do not wrap, a
-- w-bit number a natural number with its wrap-around written out, an f32 its bit pattern. A map in
-- key order is a list in that order. An SQL statement is a constructor with the values that the
-- source splices into its text. What is outside the code is a parameter: num-bigint
-- (Shared/Digits), the digests (Shared/Crypto), the base32 decoder, the columns of a row, and the
-- client, the database, the clock and the random source (Realmd/Env), each of whose answers may
-- differ at each call. A step returns a value, an error or a panic, and the session. In the
-- extractors, the operations on floats (Extractors/Float), an archive (Extractors/Mpq) and the
-- folder of extracted models (Extractors/Instances) are parameters; a file that is read is its
-- bytes, a file that is written the bytes appended to it. An i32 is the u32 with the same bits. In
-- Vmap/Models, `none` is a panic, at a height that a liquid does not have. The readers that answer
-- 0 behind the end of a file (`read_u32_le` and its like) are Vmap's `read_or_zero`.
--
-- Fuel. The decoder of UTF-8 and the split of a text into characters take the length for fuel, and
-- each round takes a byte or more. The loop of `handle_client` likewise takes the length of the
-- input: each round reads the command byte, and no handler adds input. The loop over dir_bin takes
-- the length of the file, and each record takes bytes. The squares of a portion are counted with
-- the end of the loop as fuel: each round adds at least 1. The other loops of the mesh run over
-- lists or have a count.
--
-- Not modelled: sockets, timeouts other than as a failed read or write, logging, start-up (the rest
-- of crates/realmd/src/main.rs), the connection pool, and changes that other connections make to
-- the realm list during a request. Of the extractors: the grids that `convert_adt` collects from a
-- tile's chunks, the names of files, doodads and buildings, the bounding hierarchy (the bytes it
-- writes are an argument), the models that the assembler converts, the choice of maps and tiles in
-- movemap_gen.rs, the off-mesh connections, and what it asks of Recast (recast_ffi.rs).
-- thirdparty/recastnavigation is a copy of another project's library.
pub mod Base
pub mod Shared
pub mod Realmd
pub mod Extractors
