-- ===== src/Program/Loader.antt =====
-- elf_load of pkg/stam/elf.c. The messages on the console are left out; `manifest` is never null, as no
-- caller passes one that is. A store goes to the address that it names; whether a page of the program,
-- the kernel or nothing answers there is not asked, as the code does not ask.
use verkos.Prelude.{
  ℕ, zero, suc, ◌+◌, ◌-◌, ◌*◌, ◌/◌, ◌%◌, ◌^◌, Bool, true, false, not, ◌&&◌, ◌||◌, Option, none,
  some, ltb, ◌==◌, if◌then◌else◌,
}
use verkos.Archive.Reader.{Bytes, add64}
use verkos.Memory.Frames.{Frames, alloc_page}
use verkos.Memory.Tables.{L1, map_user_page}
use verkos.Program.Manifest.{le16, le32, le64, SavManifest, no_manifest, read_sav_note}

-- The space that is installed, the pages, what lies at the addresses, and what was found.
pub record Loading : Type 0 where
  pub space : L1
  pub frames : Frames
  pub memory : ℕ → ℕ
  pub manifest : SavManifest
  pub loaded : ℕ

-- A pointer into the image that is past 2^64 wraps.
abbrev pub wrapped : Bytes → Bytes
wrapped e p = e (p % 2 ^ 64)

-- The memory with the bytes of a page at `va`; the tables do not look at the bits of an address
-- above 39.
abbrev pub page_seen : ℕ → (ℕ → ℕ) → (ℕ → ℕ) → ℕ → ℕ
page_seen va bytes memory a = if a / 4096 == va % 2 ^ 39 / 4096 then bytes (a % 4096) else memory a

-- The table with the page in it, `bytes` being what the page holds, and whether that worked.
abbrev pub page_mapped : ℕ → (ℕ → ℕ) → Loading → Bool × L1 × Frames → Bool × Loading
page_mapped va bytes st (ok, space, frames) = (
  ok,
  record st {
    space = space;
    frames = frames;
    memory = if ok then page_seen va bytes st.memory else st.memory;
  },
)

abbrev pub map_page : ℕ → Bool → Loading → Option ℕ × Frames → Bool × Loading
map_page va executable st (none, frames) = (false, record st { frames = frames })
map_page va executable st (some page, frames) =
    page_mapped va (frames.contents page) st (map_user_page va page executable st.space frames)

-- for (va = first; va < last; va += PAGE_SIZE)
unfoldable pub map_pages : ℕ → ℕ → Bool → Loading → Bool × Loading
map_pages zero va executable st = (true, st)
map_pages (suc count) va executable st =
    let (ok, st') = map_page va executable st (alloc_page st.frames) in
    let rest = map_pages count (va + 4096) executable st' in if ok then rest else (false, st')

-- for (b = 0; b < filesz; b++) dst[b] = src[b]
unfoldable pub copy_bytes : ℕ → ℕ → Bytes → ℕ → (ℕ → ℕ) → ℕ → ℕ
copy_bytes zero dst e at memory = memory
copy_bytes (suc count) dst e at memory =
    copy_bytes count (add64 dst 1) e (at + 1) (λ a. if a == dst then e at else memory a)

abbrev pub page_of : ℕ → ℕ
page_of va = va / 4096 * 4096

-- The pages from the one of `vaddr` to the one of its last byte.
abbrev pub page_span : ℕ → ℕ → ℕ
page_span vaddr memsz = (page_of (add64 (add64 vaddr memsz) 4095) - page_of vaddr) / 4096

-- A PT_LOAD segment: whether to go on, and the state.
unfoldable pub load_segment : Bytes → ℕ → Bool → ℕ → ℕ → ℕ → ℕ → Loading → Bool × Loading
load_segment e size executable offset vaddr filesz memsz st =
    let (ok, st') = map_pages (page_span vaddr memsz) (page_of vaddr) executable st in
    if ltb size (add64 offset filesz)
    then (false, st)
    else if ltb memsz filesz
    then (false, st)
    else if not ok
    then (false, st')
    else (
      true,
      record st' { memory = copy_bytes filesz vaddr e offset st'.memory; loaded = st'.loaded + 1 },
    )

-- The header at `ph`.
unfoldable pub load_header : Bytes → ℕ → ℕ → Loading → Bool × Loading
load_header e size ph st =
    if le32 e ph == 4
    then (
      true,
      record st {
        manifest = read_sav_note e size (le64 e (ph + 8)) (le64 e (ph + 32)) st.manifest;
      },
    )
    else if not (le32 e ph == 1)
    then (true, st)
    else load_segment e size (le32 e (ph + 4) % 2 == 1) (le64 e (ph + 8)) (le64 e (ph + 16))
        (le64 e (ph + 32)) (le64 e (ph + 40)) st

-- for (i = 0; i < phnum; i++)
unfoldable pub load_headers : ℕ → Bytes → ℕ → ℕ → ℕ → Loading → Bool × Loading
load_headers zero e size phentsize ph st = (true, st)
load_headers (suc count) e size phentsize ph st =
    let (ok, st') = load_header e size ph st in
    let rest = load_headers count e size phentsize (ph + phentsize) st' in
    if ok then rest else (false, st')

abbrev pub is_program : Bytes → Bool
is_program e =
    e 0 == 127
    && (e 1 == 69 && (e 2 == 76 && (e 3 == 70 && (e 4 == 2 && (e 5 == 1 && le16 e 18 == 183)))))

-- The entry point, or -1.
abbrev pub load_end : Bytes → Bool × Loading → Option ℕ × Loading
load_end e (ok, st) = (if ok && not (st.loaded == 0) then some (le64 e 24) else none, st)

unfoldable pub load_image : Bytes → ℕ → Loading → Option ℕ × Loading
load_image e size st =
    let phoff = le64 e 32 in
    let phentsize = le16 e 54 in
    let phnum = le16 e 56 in
    if ltb size 64 || not (is_program e)
    then (none, st)
    else if phnum == 0 || ltb size (add64 phoff (phnum * phentsize))
    then (none, st)
    else load_end e (load_headers phnum e size phentsize phoff st)

unfoldable pub elf_load : Bytes → ℕ → Loading → Option ℕ × Loading
elf_load image size st =
    load_image (wrapped image) size (record st { manifest = no_manifest; loaded = 0 })
