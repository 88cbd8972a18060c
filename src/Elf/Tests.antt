-- ===== src/Elf/Tests.antt =====
-- A program of one segment, at 0x1000: four bytes of the file, and four zeros behind them.
use ferros.Prelude.{◌≡◌, refl, true, none, [], ◌∷◌, ◌++◌, ok}
use ferros.Prelude.{replicate, to_le, Bytes}
use ferros.Frame.{allocate_frame, usable_frames}
use ferros.Frame
use ferros.Paging.{map_user_page}
use ferros.Paging.Flat.{flat}
use ferros.Elf.{Image, load, load_segment, load_segments, place_segment, load_page, load_pages}
use ferros.Elf.Below.{IsBelow, load-IsBelow}

abbrev program : Bytes
program =
    (0x7f ∷ 69 ∷ 76 ∷ 70 ∷ 2 ∷ [])
    ++ (replicate 11 0
        ++ (to_le 2 2
            ++ (to_le 2 0x3e
                ++ (replicate 4 0
                    ++ (to_le 8 0x1002
                        ++ (to_le 8 64
                            ++ (replicate 14 0
                                ++ (to_le 2 56
                                    ++ (to_le 2 1
                                        ++ (replicate 6 0
                                            ++ (to_le 4 1
                                                ++ (replicate 4 0
                                                    ++ (to_le 8 120
                                                        ++ (to_le 8 0x1000
                                                            ++ (replicate 8 0
                                                            ++ (to_le 8 4
                                                            ++ (to_le 8 8
                                                            ++ (replicate 8 0
                                                            ++ (1 ∷ 2 ∷ 3 ∷ 4
                                                            ∷ [])))))))))))))))))))

-- One frame is free, and memory is full of nines.
abbrev blank : Image flat
blank = record {
  mmu = record {
    mem = λ a. 0;
    frames = Frame.init (record { start_addr = 4096; end_addr = 8192; usable = true } ∷ []);
    tables = λ q. none;
  };
  mem = λ a. 9;
  mapped = [];
}

entry : (load flat program blank).0 ≡ ok 0x1002
unfolding load load_segments load_segment place_segment load_pages load_page map_user_page
    allocate_frame Frame.init usable_frames
entry = refl

third : (load flat program blank).1.mem 0x1002 ≡ 3
unfolding load load_segments load_segment place_segment load_pages load_page map_user_page
    allocate_frame Frame.init usable_frames
third = refl

zeroed : (load flat program blank).1.mem 0x1005 ≡ 0
unfolding load load_segments load_segment place_segment load_pages load_page map_user_page
    allocate_frame Frame.init usable_frames
zeroed = refl

load-IsBelow_example : IsBelow blank (load flat program blank).1
load-IsBelow_example = load-IsBelow flat program blank
