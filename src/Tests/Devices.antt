-- ===== src/Tests/Devices.antt =====
-- Pipes and the console at concrete inputs.
use osn_mp.Common.{
  ℕ, ◌-◌, ◌%◌, ◌^◌, ◌≡◌, refl, true, false, ◌&&◌, Option, some, List, [], ◌∷◌, ◌++◌, arith, ◌==◌,
  get_or, replicate,
}
use osn_mp.Pipe.{Pipe, returns, pipewrite, pipewrite_from, piperead, is_full, put, pipesize}
use osn_mp.Pipe.Contents
use osn_mp.Pipe.Contents.{contents}
use osn_mp.Pipe.Fifo.{Wrote, piperead-pipewrite, piperead-lost}
use osn_mp.Console.{Console, consoleintr}
use osn_mp.Console.Line
use osn_mp.Console.Line.{consoleintr-IsValid}

-- The counters stand just before the wrap-around of the words.
abbrev pipe : Pipe
pipe = record {
  buf = replicate 512 7;
  nread = 2 ^ 32 - 1;
  nwrite = 1;
  readopen = true;
  writeopen = true;
}

pipe-IsValid : Contents.IsValid pipe
pipe-IsValid = record {
  storage = refl;
  read_word = omega arith;
  write_word = omega arith;
  bounded = omega arith;
}

abbrev source : List (Option ℕ)
source = some 1 ∷ some 2 ∷ []

written_open :
    (let p = (pipewrite false source pipe).0 in (p.nread == p.nwrite && p.writeopen) ≡ false)
unfolding pipewrite pipewrite_from is_full put
written_open = refl

piperead-pipewrite_example :
    (ws : List ℕ) × Wrote pipe source 0 (pipewrite false source pipe) ws
    × (let (p', out, o) = piperead false (true ∷ []) (pipewrite false source pipe).0 in
        contents pipe ++ ws ≡ out ++ contents p')
piperead-pipewrite_example =
    piperead-pipewrite false source (true ∷ []) pipe pipe-IsValid (refl, tt) written_open

piperead-lost_example :
    let (pi', out, o) = piperead false (false ∷ []) pipe in
    (o ≡ returns 0) × (contents pipe ≡ get_or pipe.buf (pipe.nread % pipesize) 0 ∷ contents pi')
piperead-lost_example = piperead-lost false [] pipe pipe-IsValid (λ e. absurd (omega arith))

-- A line "ab" and the start "cd" of the next.
abbrev console : Console
console = record { buf = 97 ∷ 98 ∷ 10 ∷ 99 ∷ 100 ∷ replicate 123 0; r = 0; w = 3; e = 5 }

console-IsValid : Line.IsValid console
console-IsValid = record {
  storage = refl;
  read_word = omega arith;
  write_word = omega arith;
  edit_word = omega arith;
  ordered = omega arith;
  bounded = omega arith;
}

consoleintr-IsValid_example : Line.IsValid (consoleintr 101 console).0
consoleintr-IsValid_example = consoleintr-IsValid 101 console console-IsValid
