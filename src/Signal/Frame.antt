-- ===== src/Signal/Frame.antt =====
-- What pkg/stam/signal.c keeps on the stack of the program: the registers and the frame, and the memory
-- of the program, which pkg/stam/vm.c checks and where the processor finds a byte by the tables.
use verkos.Prelude.{
  ℕ, zero, suc, ◌+◌, ◌*◌, ◌/◌, ◌%◌, ◌^◌, Bool, ◌&&◌, Option, none, some, List, [], ◌∷◌, ◌++◌, ◌==◌,
  if◌then◌else◌, get_or, take, drop,
}
use verkos.Memory.Frames.{Frames}
use verkos.Memory.Tables.{L1, frame}
use verkos.Memory.Spaces.{walk_to_leaf, vm_user_ok}

-- regs_t; `x` are the registers from x0 to x29.
pub record Regs : Type 0 where
  pub x : List ℕ
  pub lr : ℕ
  pub elr : ℕ
  pub spsr : ℕ
  pub sp_el0 : ℕ

-- sigframe_t; `blocked` is a word of bits.
pub record SigFrame : Type 0 where
  pub magic : ℕ
  pub blocked : ℕ → Bool
  pub saved : Regs

abbrev pub sigframe_magic : ℕ
sigframe_magic = 6004496003557312305

-- sizeof(sigframe_t): 36 words of 8 bytes
abbrev pub frame_size : ℕ
frame_size = 288

-- The memory of the running program: its tables and the pages.
pub record UserMem : Type 0 where
  pub space : L1
  pub frames : Frames

-- vm_user_ok, which makes pages writable when it is asked for a write.
abbrev pub user_ok : ℕ → ℕ → Bool → UserMem → Bool × UserMem
user_ok va len write m =
    let (ok, space, frames) = vm_user_ok va len write m.space m.frames in
    (ok, record { space = space; frames = frames })

-- The page and the place in it where the processor finds an address.
unfoldable pub place_of : ℕ → UserMem → Option (ℕ × ℕ)
place_of va m = elim (walk_to_leaf va m.space) [
  | none ↦ none
  | some (d, size) ↦ some (frame d + va % size / 4096, va % 4096)
]

unfoldable pub load_byte : ℕ → UserMem → ℕ
load_byte va m = elim (place_of va m) [ none ↦ 0 | some (page, i) ↦ m.frames.contents page i ]

abbrev pub put_cell : ℕ → ℕ → ℕ → (ℕ → ℕ → ℕ) → ℕ → ℕ → ℕ
put_cell page i b c page' i' = if page' == page && i' == i then b else c page' i'

unfoldable pub store_byte : ℕ → ℕ → UserMem → UserMem
store_byte va b m = elim (place_of va m) [
  | none ↦ m
  | some (page, i) ↦ record m {
    frames = record m.frames { contents = put_cell page i b m.frames.contents };
  }
]

-- The low byte first.
unfoldable pub load_bytes : ℕ → ℕ → UserMem → ℕ
load_bytes zero va m = 0
load_bytes (suc n) va m = load_byte va m + 256 * load_bytes n (va + 1) m

unfoldable pub store_bytes : ℕ → ℕ → ℕ → UserMem → UserMem
store_bytes zero va w m = m
store_bytes (suc n) va w m = store_bytes n (va + 1) (w / 256) (store_byte va (w % 256) m)

unfoldable pub load_words : ℕ → ℕ → UserMem → List ℕ
load_words zero va m = []
load_words (suc n) va m = load_bytes 8 va m ∷ load_words n (va + 8) m

unfoldable pub store_words : List ℕ → ℕ → UserMem → UserMem
store_words [] va m = m
store_words (w ∷ ws) va m = store_words ws (va + 8) (store_bytes 8 va w m)

-- The word whose bits below `n` are those of the mask.
unfoldable pub mask_word : ℕ → (ℕ → Bool) → ℕ
mask_word zero mask = 0
mask_word (suc n) mask = (if mask n then 2 ^ n else 0) + mask_word n mask

unfoldable pub frame_words : SigFrame → List ℕ
frame_words f =
    f.magic ∷ mask_word 64 f.blocked ∷ f.saved.x
    ++ f.saved.lr ∷ f.saved.elr ∷ f.saved.spsr ∷ f.saved.sp_el0 ∷ []

unfoldable pub words_frame : List ℕ → SigFrame
words_frame ws = record {
  magic = get_or ws 0 0;
  blocked = λ b. get_or ws 1 0 / 2 ^ b % 2 == 1;
  saved = record {
    x = take 30 (drop 2 ws);
    lr = get_or ws 32 0;
    elr = get_or ws 33 0;
    spsr = get_or ws 34 0;
    sp_el0 = get_or ws 35 0;
  };
}

-- *(sigframe_t *)va
unfoldable pub load_frame : ℕ → UserMem → SigFrame
load_frame va m = words_frame (load_words 36 va m)

unfoldable pub store_frame : ℕ → SigFrame → UserMem → UserMem
store_frame va f m = store_words (frame_words f) va m
