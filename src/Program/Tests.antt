-- ===== src/Program/Tests.antt =====
-- A note for one call, and segments of two bytes on a machine of 110 pages.
use verkos.Prelude.{
  ℕ, ◌+◌, ◌-◌, ◌*◌, ◌/◌, ◌^◌, ◌≤◌, ◌<◌, ◌≡◌, refl, true, ◌&&◌, [], ◌∷◌, arith, ltb, leb,
  if◌then◌else◌, length, get_or,
}
use verkos.Archive.Reader.{Bytes}
use verkos.Archive.Holds.{Holds}
use verkos.Memory.Frames.{take_page, alloc_page}
use verkos.Memory.Tables.{table, descend, map_in, user_word, map_user_page_raw, map_user_page}
use verkos.Program.Manifest.{no_manifest, is_listed, sav_allows, read_sav_note}
use verkos.Program.Note.{Image, put_le32, names_bytes, put_calls, build_note}
use verkos.Program.Enforced.{note_enforced}
use verkos.Program.Loader.{Loading, map_pages, load_segment}
use verkos.Program.Segments.{load_segment_lem, load_segment_anywhere}

-- write, by the name `out`
abbrev writer : Image
writer = record { syscalls = 64 ∷ []; capnames = (111 ∷ 117 ∷ 116 ∷ []) ∷ [] }

note_image : Bytes
note_image i = get_or (build_note writer) i 0

note-Holds : Holds note_image 0 (build_note writer)
unfolding note_image build_note put_le32 put_calls names_bytes
note-Holds = ground arith

note_fits : 0 + length (build_note writer) ≤ 100
unfolding build_note put_le32 put_calls names_bytes
note_fits = ground arith

names_short : length (names_bytes writer.capnames) < 2 ^ 31
unfolding names_bytes
names_short = ground arith

note_enforced_example :
    sav_allows (read_sav_note note_image 100 0 (length (build_note writer)) no_manifest) 64
    ≡ is_listed 64 writer.syscalls
note_enforced_example =
    note_enforced note_image writer (omega arith, refl) (omega arith) names_short 100 0 64
      no_manifest note-Holds note_fits (omega arith)

abbrev start : Loading
start = record {
  space = record {
    at = 1;
    slots = table (record { at = 2; slots = table (record { at = 3; slots = 0 ∷ [] }) ∷ [] }) ∷ [];
  };
  frames = record {
    free_list = [];
    free_next = 100;
    free_top = 110;
    pmm_start = 0;
    pages_taken = 0;
    pages_returned = 0;
    has_refs = true;
    refs = λ i. 0;
    refs_base = 0;
    refs_pages = 110;
    contents = λ p i. 0;
  };
  memory = λ a. 9;
  manifest = no_manifest;
  loaded = 0;
}

-- The file holds its own distances.
abbrev file : Bytes
file i = i

low_loaded : (load_segment file 64 true 10 32 2 8 start).0 ≡ true
unfolding load_segment map_pages alloc_page take_page map_user_page map_user_page_raw map_in descend
    user_word
low_loaded = refl

load_segment_lem_example : (load_segment file 64 true 10 32 2 8 start).1.memory 33 ≡ (
    if leb 32 33 && ltb 33 (32 + 2)
    then file (10 + (33 - 32))
    else if leb (32 / 4096 * 4096) 33 && ltb 33 ((32 + 8 + 4095) / 4096 * 4096)
    then 0
    else start.memory 33)
load_segment_lem_example = load_segment_lem file 64 true 10 32 2 8 start 33 low_loaded (omega arith)

-- The first address of the kernel's half
abbrev kernel_half : ℕ
kernel_half = 2 ^ 64 - 2 ^ 39

load_segment_anywhere_example :
    ((load_segment file 64 true 10 kernel_half 2 8 start).0 ≡ true)
    × ((load_segment file 64 true 10 kernel_half 2 8 start).1.memory (kernel_half + 1)
        ≡ file (10 + 1))
load_segment_anywhere_example =
    load_segment_anywhere file 64 true 10 kernel_half 2 8 start 1 (omega arith) (omega arith)
      (omega arith) (omega arith) (omega arith) (omega arith)
