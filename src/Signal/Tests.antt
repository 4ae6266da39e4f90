-- ===== src/Signal/Tests.antt =====
-- pkg/stam/signal.c on one processor whose thread catches signal 10.
use verkos.Prelude.{
  ℕ, zero, suc, ◌+◌, ◌-◌, ◌*◌, ◌/◌, ◌%◌, ◌^◌, ◌<◌, ◌≡◌, refl, ◌≢◌, Bool, true, false, ◌||◌, none,
  some, List, [], ◌∷◌, ◌++◌, ◌==◌, if◌then◌else◌, get_or, set, replicate, pos, neg,
}
use verkos.Sched.State.{running, Thread, Sched, unused, thread_of, put_thread}
use verkos.Sched.Block.{sigkill, thread_signalled, first_due, is_due}
use verkos.Memory.Tables.{table, L1}
use verkos.Memory.Spaces.{vm_user_ok, range_ok, made_writable, walk_to_leaf}
use verkos.Signal.Frame.{
  Regs, sigframe_magic, UserMem, user_ok, load_words, load_bytes, load_byte, place_of, words_frame,
  load_frame,
}
use verkos.Signal.Calls.{flags_only, sig_return}
use verkos.Signal.Resume.{sig_return_safe}
use verkos.Signal.Kill.{Killable}

-- Three pages of code at 0 and a page of stack at 61440, which has been shared with a child that ended.
abbrev tables : L1
tables = record {
  at = 1;
  slots =
      table (record {
        at = 2;
        slots =
            table (record {
              at = 3;
              slots =
                  replicate 3 (5 * 4096 + 64 + 3) ++ replicate 12 0 ++ (6 * 4096 + 192 + 3) ∷ [];
            })
            ∷ [];
      })
      ∷ [];
}

abbrev blank_memory : UserMem
blank_memory = record {
  space = tables;
  frames = record {
    free_list = [];
    free_next = 100;
    free_top = 110;
    pmm_start = 0;
    pages_taken = 0;
    pages_returned = 0;
    has_refs = true;
    refs = λ i. 0;
    refs_base = 0;
    refs_pages = 110;
    contents = λ p i. 0;
  };
}

abbrev start : Regs
start = record { x = replicate 30 0; lr = 7; elr = 4096; spsr = 2147483648; sp_el0 = 65536 }

abbrev catcher : Thread
catcher = record unused {
  id = pos 1;
  state = running;
  home = neg 1;
  pending = λ b. b == 10;
  sigact = set unused.sigact 10 (record { handler = 8192; restorer = 8200; mask = λ b. false });
}

abbrev catching : Sched
catching = record {
  threads = catcher ∷ [];
  next_id = 2;
  cpus = record { cur = some 0; idle = none; user_table = 0 } ∷ [];
  switches = 0;
  started = true;
}

-- The registers when the handler ends, with another x0.
abbrev ended : Regs
ended = record start { x = replicate 30 5; elr = 8200; sp_el0 = 65248 }

-- The words of the frame, as delivery stores them.
abbrev stored : List ℕ
stored = sigframe_magic ∷ 0 ∷ replicate 30 0 ++ 7 ∷ 4096 ∷ 2147483648 ∷ 65536 ∷ []

-- A memory whose code pages were written to, and with these words in the frame
abbrev memory_with : List ℕ → UserMem
memory_with ws = record blank_memory {
  frames = record blank_memory.frames {
    contents =
        λ p i. if p == 6 then get_or ws ((i - 3808) / 8) 0 / 256 ^ ((i - 3808) % 8) % 256 else 77;
  };
}

-- The memory when the handler ends.
abbrev left : UserMem
left = memory_with stored

abbrev bits_of_zero : ℕ → Bool
bits_of_zero b = 0 / 2 ^ b % 2 == 1

abbrev nothing_held : ℕ → Bool
nothing_held b = false

-- A frame that asks for EL1.
abbrev forged : UserMem
forged = memory_with (sigframe_magic ∷ 0 ∷ replicate 30 0 ++ 7 ∷ 4096 ∷ 2684354565 ∷ 65536 ∷ [])

abbrev resumed : Sched
resumed = put_thread catching 0 (record catcher { held = bits_of_zero })

forged_spsr :
    sig_return 0 ended forged catching ≡ some (record start { spsr = 2684354560 }, resumed)
unfolding sig_return flags_only load_frame words_frame load_words load_bytes load_byte place_of
    walk_to_leaf vm_user_ok range_ok made_writable
forged_spsr = refl

sig_return_safe_example :
    (2684354560 % 2 ^ 28 ≡ 0)
    × (2684354560 < 2 ^ 32)
    × ((user_ok 4096 4 false forged).0 ≡ true)
    × ((i : ℕ) → i ≢ 0 → thread_of resumed i ≡ thread_of catching i)
sig_return_safe_example =
    sig_return_safe 0 ended (record start { spsr = 2684354560 }) forged catching resumed forged_spsr

catching-Killable : Killable catching
catching-Killable zero = refl
catching-Killable (suc i) = refl

abbrev shot : Sched
shot = put_thread catching 0 (record catcher { pending = λ b. b == 9 || b == 10; held = λ b. true })

shot-Killable : Killable shot
shot-Killable zero = refl
shot-Killable (suc i) = refl

reports_kill : thread_signalled 0 shot ≡ sigkill
unfolding thread_signalled first_due is_due
reports_kill = refl
