-- ===== src/Tests/Programs.antt =====
-- xargs and find on small inputs.
use my_os_proj.Base.{ℕ, ◌≡◌, refl, arith, true, List, [], ◌∷◌, ◌++◌, if◌then◌else◌}
use my_os_proj.User.Xargs.{Buffer, read_line, newline, Event, Entry, Array}
use my_os_proj.User.Xargs
use my_os_proj.User.Xargs.Lines.{Runs, joined, main-Runs, read_line_bounds}
use my_os_proj.User.Find.{Node, Entries, Printed, determined, find, visit, main}
use my_os_proj.User.Find.Fits.{Fits, FitEntries, IsDetermined}
use my_os_proj.User.Find.Success.{is_entry}
use my_os_proj.User.Find.Matches.{reported, named, listing, main-listing}

abbrev stack : Buffer
stack = λ _. 7

abbrev stacked : Array
stacked = λ k. Entry.rubbish k

abbrev grep_args : List (List ℕ)
grep_args = (b'g' ∷ b'r' ∷ []) ∷ []

abbrev two_lines : List (List ℕ)
two_lines = (b'a' ∷ b'b' ∷ []) ∷ (b'c' ∷ []) ∷ []

main-Runs_example :
    (es : List Event) × ((Xargs.main grep_args true true 3 (joined two_lines) stacked stack
        ≡ record { events = es; rest = []; enough_fuel = true })
      × Runs grep_args stacked two_lines es)
main-Runs_example =
    main-Runs grep_args two_lines 3 stacked stack
      ((omega arith, (omega arith, tt)), omega arith, ((omega arith, tt), omega arith, tt))
      (omega arith)

read_line_bounds_example : (read_line ((b'a' ∷ []) ++ newline ∷ []) 0 stack).buf 128 ≡ stack 128
read_line_bounds_example =
    read_line_bounds (b'a' ∷ []) [] stack 128 (omega arith, tt) (omega arith) (omega arith)

-- A last line without a newline has no 0 after it: the string goes on with what the buffer held.
unfinished_line : (read_line (b'x' ∷ []) 0 (λ _. b'y')).buf 1 ≡ b'y'
unfolding read_line
unfinished_line = refl

-- A directory with a file x, a free entry, and a directory d that holds a file x.
abbrev tree : Entries
tree = Entries.entry 1 (b'x' ∷ []) Node.file (
    Entries.entry 0 (b'x' ∷ []) Node.file (
      Entries.entry 2 (b'd' ∷ [])
        (Node.directory (Entries.entry 3 (b'x' ∷ []) Node.file Entries.nil)) Entries.nil))

-- What lies behind a name of 14 bytes.
abbrev behind : (path name : List ℕ) → List ℕ
behind path name = b'!' ∷ []

tree-Fits : Fits (b'.' ∷ []) (Node.directory tree)
unfolding Fits FitEntries
tree-Fits = (omega arith, (λ _. tt, (λ _. tt, (λ _. (omega arith, (λ _. tt, tt)), tt))))

main-listing_example :
    (out : List Printed) × ((main behind ((b'.' ∷ []) ∷ (b'x' ∷ []) ∷ []) (λ _. Node.directory tree)
        ≡ out ++ (if is_entry (b'x' ∷ []) tree then [] else Printed.no_such_file ∷ []))
      × IsDetermined out
      × (reported out ≡ named (b'x' ∷ []) (listing (b'.' ∷ []) (Node.directory tree))))
main-listing_example =
    main-listing behind (b'.' ∷ []) (b'x' ∷ []) (λ _. Node.directory tree) tree refl (omega arith)
      tree-Fits

-- The file is found below d, and the program says that there is no such file.
only_below :
    main behind ((b'.' ∷ []) ∷ (b'x' ∷ []) ∷ []) (λ _. Node.directory (
      Entries.entry 2
        (b'd' ∷ [])
        (Node.directory (Entries.entry 3 (b'x' ∷ []) Node.file Entries.nil))
        Entries.nil))
    ≡ Printed.found (b'.' ∷ b'/' ∷ b'd' ∷ b'/' ∷ b'x' ∷ []) ∷ Printed.no_such_file ∷ []
unfolding main find visit determined
only_below = refl
