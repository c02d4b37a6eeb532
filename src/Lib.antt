-- ===== src/Lib.antt =====
-- A model of the core of MapCache, the tile cache server of the directories lib and include, with theorems
-- about it.
--
-- A request for tiles comes to lib/core.c, which fetches them (in threads), puts several into one image and
-- answers with their data. A tile is fetched by lib/tileset.c: from its cache or, if the cache does not have
-- it, from the source of its tileset, a whole metatile at a time, under a lock that keeps other threads
-- and processes from doing the same (lib/lock.c). The rendered metatile is cut into tiles (lib/image.c),
-- which are encoded (lib/imageio*.c) and stored under keys (lib/util.c). Grids (lib/grid.c) say which tiles
-- there are and where they lie. Errors are kept in the context of the request (lib/util.c).
--
-- The files, and the code that they model:
--   Base (Tests, Lists, Int, Strings, Decimal): Boolean tests, lists, C integers, strings, `%d`.
--   Types: the structures of include/mapcache.h. Samples: data for tests.
--   Buffer (Growth, Append): `mapcache_buffer_*` of lib/buffer.c; append is `append`, and so on.
--   Context (Errors): set_error, get_error, clear_errors and the other functions of the error state.
--     `_errmsg` is a Message, which says how it was printed; `message_text` is its text for a printf.
--   Grid (Limits; Lookup with Points and Closest): `mapcache_grid_*` of lib/grid.c without the prefix.
--   Lock (Protocol): `mapcache_lock_or_wait_for_resource` is `lock_or_wait`, `mapcache_unlock_resource`
--     is `unlock`; Protocol has the interleavings of all callers as a step relation, between two loads of a
--     configuration with cgi = 0 (lib/configuration.c), which remove all lock files: its relation Load.
--   Util (Replace, Sanitize): `mapcache_util_str_*`. TileKey (Distinct, DimKeys): `mapcache_util_get_tile_*`.
--   Tileset (Checks; Metatiles with Axis, Blocks, Members, Keys): `mapcache_tileset_*` of lib/tileset.c,
--     the checks, the constructors and the metatiles.
--   Image (Scan, Blend): `mapcache_image_*` of lib/image.c. Split (Offsets, Windows, Loop, Pixels, Kept):
--     `mapcache_image_metatile_split`.
--   Imageio (Raw): lib/imageio.c and lib/imageio_raw.c.
--   Fetch (Locks, Outcomes, Rendered, Deletion): tile_get, tile_delete and render_metatile of lib/tileset.c.
--   Prefetch (Launch, Joined): `mapcache_prefetch_tiles` of lib/core.c.
--   Core (Merge, Responses): `mapcache_core_get_tile` of lib/core.c; Core/Answers and Core/Errors: its proxy, its
--     feature info, its capabilities and `mapcache_core_respond_to_error`.
--   Maps (Loops, Cover, Assemble, Corners, TopLeft): `mapcache_tileset_get_map_tiles` and
--     `mapcache_tileset_assemble_map_tiles` of lib/tileset.c, with Image/Nearest for the resampling of lib/image.c.
--   GetMap (Tiles, Overlays, Answered): `mapcache_fetch_maps` and `mapcache_core_get_map` of lib/core.c.
--   Disk (Blank, Links, Files, Writing, Names, Store, Stored): lib/cache_disk.c without its XML; `has_tile`, `get`,
--     `delete` and `set` are the `_mapcache_cache_disk_*` of that name.
--   Dispatch: `mapcache_service_dispatch_request` of lib/services.c.
--   Dimensions: the lists of values of dimensions of lib/dimension.c.
--   Config: the table of tilesets of lib/configuration.c. Request (Numbers, Tokens, Checked): what the parsers
--     of requests share. Tms (Rounds, Layers, Placed, Roundtrip): `_mapcache_service_tms_parse_request` of
--     lib/service_tms.c. Ve (Quadkey, Placed): `_mapcache_service_ve_parse_request` of lib/service_ve.c.
-- The modules called Tests hold runs and the theorems at concrete inputs.
--
-- State is passed on: an operation takes the context, the store of the cache and the lock files, and gives
-- them back. `none` is a run without a result: a read out of bounds, a division by zero, the use of NULL, or
-- a loop that does not end. Fuel: the doubling loop of a buffer takes the wanted length and one more, and
-- the sanitizing loop the length of the string and one more; that this is enough is proved with the
-- operations. An `int` is an integer; where the code relies on wrapping, or converts between int and
-- unsigned int, the conversion is written out. Doubles are exact integers in a small unit, and fractions;
-- but the quotients that `mapcache_grid_get_xy` truncates round as an arbitrary Grid.Lookup.Doubles does.
--
-- What belongs to other code is a parameter: the file system of the locks (the record Lock.Files, with what
-- is documented of exclusive creation) and of the disk cache (Disk.Files.FileSystem), caches and sources
-- (Fetch.Cache and Fetch.Env), the PNG, JPEG and JSON codecs (Imageio.Codecs), and APR's tables, clock and
-- dates (Core.Services). Where a theorem needs a cache, a source or a disk to work, it says so by a record of
-- what it relies on, such as Disk.Store.Works.
--
-- Not modelled: the rounding of other doubles, the intervals of dimensions, memory pools, the drivers of
-- sources and of the other caches, the parsing of the other requests and of the configuration, bilinear
-- resampling, and the web servers' modules, which call libraries and services or are left for later.
pub mod Base
pub mod Buffer
pub mod Context
pub mod Types
pub mod Samples
pub mod GetMap
pub mod Grid
pub mod Imageio
pub mod Lock
pub mod Maps
pub mod Util
pub mod Core
pub mod Config
pub mod Dimensions
pub mod Disk
pub mod Request
pub mod Tms
pub mod Ve
pub mod Dispatch
pub mod Fetch
pub mod Prefetch
pub mod Split
pub mod TileKey
pub mod Tileset
pub mod Image
