-- ===== src/Disk/Tests.antt =====
-- A file system to run the disk cache on, runs of it, and its theorems at concrete inputs.
use mapcache.Base.{
  pos, negsuc, Text, codes, text_eq, text_eq_refl, text_eq_sound, true, false, Option, none, some,
  List, [], ◌∷◌, length, if◌then◌else◌, ◌≡◌, refl, inl, arith, show_hex, show_upper_hex, to_u32,
}
use mapcache.Context.{init}
use mapcache.Types.{Tile}
use mapcache.Samples.{tile, listed_files}
use mapcache.Tileset.{is_some}
use mapcache.Disk.{DiskCache, tilecache, arcgis, tile_key, blank_tile_key}
use mapcache.Disk.Blank.{relative_path}
use mapcache.Disk.Names.{SameSet, same_cell}
use mapcache.Disk.Files.{FileSystem, done, no_entry, has_tile, delete, get}
use mapcache.Disk.Writing.{directory, Writer, Written, set}
use mapcache.Disk.Store.{Works, answer, Ready, Updated}
use mapcache.Disk.Stored.{already, disk_refines, get-set}

abbrev Names : Type 0
Names = List (Text × Text)

abbrev find : Text → Names → Option Text
find n [] = none
find n ((k, v) ∷ f) = if text_eq k n then some v else find n f

abbrev without : Text → Names → Names
without n [] = []
without n ((k, v) ∷ f) = if text_eq n k then without n f else (k, v) ∷ without n f

find-without :
    (n m : Text) (f : Names) → find m (without n f) ≡ (if text_eq n m then none else find m f)
find-without n m [] = ground arith
find-without n m ((k, v) ∷ f) = ground (
  arith,
  find-without n m f,
  text_eq_sound n k,
  text_eq_sound k m,
  text_eq_refl n,
  text_eq_refl m,
)

abbrev created : Text → Names → Option Text → Names
created n f none = (n, []) ∷ f
created n f (some _) = f

-- The names of the files, with their contents.
abbrev memory : FileSystem
memory = record {
  Fs = Names;
  stat = λ n f. is_some (find n f);
  remove = λ n f. (if is_some (find n f) then done else no_entry, without n f);
  make_dir = λ d f. (done, f);
  open_read = λ n f. if is_some (find n f) then done else no_entry;
  info = λ n f. (elim (find n f) [ none ↦ 0 | some b ↦ length b ], 7);
  mmap = λ n size f. find n f;
  open_write = λ n f. (done, created n f (find n f));
  write = λ n b f. (done, length b, (n, b) ∷ f);
  close = λ n f. (done, f);
  symlink = λ target n f. (true, (n, target) ∷ f);
}

created_lem :
    (n m : Text) (f : Names)
    → find n f ≡ none
    → find m (created n f (find n f)) ≡ (if text_eq n m then some [] else find m f)
created_lem n m f e = rw e

size_lem : (n : Text) (f : Names) {b : Text} → find n f ≡ some b → (memory.info n f).0 ≡ length b
size_lem n f e = ground (arith, e)

abbrev memory_works : Works memory
memory_works = record {
  file = find;
  stats = λ n f. refl;
  removes = λ n f. refl;
  file-remove = find-without;
  makes = λ d f. inl refl;
  file-make_dir = λ d m f. refl;
  reads = λ n f. refl;
  sizes = size_lem;
  maps = λ n f e. e;
  creates = λ n f. refl;
  file-open_write = created_lem;
  writes = λ n b f e. (refl, refl);
  file-write = λ n b m f e. refl;
  closes = λ n f. refl;
  file-close = λ n m f. refl;
}

abbrev cache : DiskCache
cache = record {
  base_directory = some (codes "/c");
  filename_template = none;
  symlink_blank = false;
  creation_retry = pos 0;
  maxzoom = 0;
  layout = tilecache;
}

abbrev name : Text
name = codes "/c/osm/g/02/000/000/003/000/000/001.png"

name_of_tile : tile_key cache tile ≡ some name
unfolding tile_key
name_of_tile = refl

abbrev far : Tile
far = record tile { x = pos 1234567; y = negsuc 0 }

abbrev far_name : Text
far_name = codes "/c/osm/g/02/001/234/567/000/000/-01.png"

name_of_far : tile_key cache far ≡ some far_name
unfolding tile_key
name_of_far = refl

name_in_arcgis :
    tile_key (record cache { layout = arcgis }) far
    ≡ some (codes "/c/osm/g/L02/Rffffffff/C0012d687.png")
unfolding tile_key show_hex to_u32
name_in_arcgis = refl

name_of_blank :
    blank_tile_key (codes "/c") tile (0 ∷ 128 ∷ 255 ∷ 10 ∷ [])
    ≡ some (codes "/c/osm/g/blanks/0080FF0A.png")
unfolding blank_tile_key show_upper_hex
name_of_blank = refl

path_to_blank :
    relative_path name (codes "/c/osm/g/blanks/0080FF0A.png")
    ≡ some (codes "../../../../../../blanks/0080FF0A.png")
unfolding relative_path
path_to_blank = refl

abbrev tile_with : Text → Tile
tile_with b = record tile { encoded_data = some b }

abbrev coders : Writer Names (List Text)
coders = record {
  format_write = λ img ctx. (ctx, some (codes "png"));
  decode = λ b ctx. (ctx, none);
  lockdir = codes "/tmp";
  others = λ n f. f;
  wait = λ l n. l;
}

data-Ready : (b : Text) → Ready memory memory_works cache (tile_with b) init name
unfolding tile_key
data-Ready b = record { cached = refl; key = refl; no_error = refl }

far-Ready : Ready memory memory_works cache far init far_name
unfolding tile_key
far-Ready = record { cached = refl; key = refl; no_error = refl }

in_directory : directory name ≡ some (codes "/c/osm/g/02/000/000/003/000/000")
unfolding directory
in_directory = refl

abbrev kept : Tile
kept = tile_with (codes "x")

abbrev start : Written memory listed_files cache
start = record { tile = kept; ctx = init; disk = []; locks = [] }

disk_refines_example :
    (get memory cache kept init [] ≡ some (answer 7 kept init none))
    × (has_tile memory cache kept init [] ≡ some false)
    × ((f : Names) × (delete memory cache kept init [] ≡ some (init, f))
        × Updated memory memory_works cache name none [] f)
    × ((f : Names) × (set memory listed_files cache coders start ≡ some (record start { disk = f }))
        × Updated memory memory_works cache name (some (codes "x")) [] f)
disk_refines_example =
    disk_refines memory memory_works cache listed_files coders refl kept init [] []
      (data-Ready (codes "x")) in_directory (already refl)

same_set : SameSet kept far
same_set = record {
  same_name = refl;
  same_grid = refl;
  same_dimensions = refl;
  same_extension = refl;
}

get-set_example :
    (w : Written memory listed_files cache) × (set memory listed_files cache coders start ≡ some w)
    × (get memory cache far init w.disk
        ≡ some (answer 7 far init (if same_cell kept far then some (codes "x") else none)))
get-set_example =
    get-set memory memory_works cache listed_files coders refl kept far init [] [] refl refl
      same_set (data-Ready (codes "x")) far-Ready (already refl)
