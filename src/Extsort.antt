-- ===== src/Extsort.antt =====
-- internal/extsort/sort.go: the external sort. A file is its bytes; creating, renaming and removing
-- files, and the calls that fail in them, are not part of the model.
pub mod Order
pub mod Sorted
pub mod Files
pub mod Spills
pub mod Merges
pub mod Runs
pub mod Passes
pub mod Whole
pub mod Unique
pub mod Duplicates
pub mod Refused
pub mod Ends
pub mod Returns
use backup.Base.{
  ℕ, zero, suc, ◌+◌, Bool, true, false, ◌&&◌, not, List, [], ◌∷◌, ◌++◌, map, Option, none, some,
  ltb, leb, ◌==◌, if◌then◌else◌, length, take, drop, last_or, Result, ok, err, ◌>>=◌, ◌>>◌, require,
  refuse,
}
use backup.Base.Bytes.{Bytes, lf, cr, equal, less}
use backup.Format.Rows.{scan_lines}

pub data Error : Type 0 where
  no_input : Error
  no_final_lf : Error
  bad_key : Error
  empty_key : Error
  line_too_long : Error
  duplicate_key : Bytes → Error
  out_of_fuel : Error

-- `Options`; a limit that is negative in Go is 0 here, and a key that is an error is `none`.
pub record Options : Type 0 where
  pub memory_bytes : ℕ
  pub max_line_bytes : ℕ
  pub max_open_files : ℕ
  pub unique : Bool
  pub key : Option (Bytes → Option Bytes)

abbrev pub default_memory_bytes : ℕ
default_memory_bytes = 33554432

abbrev pub default_max_line : ℕ
default_max_line = 16384

abbrev pub default_max_open : ℕ
default_max_open = 64

abbrev pub whole_line : Bytes → Option Bytes
whole_line line = some line

unfoldable pub key_or : Option (Bytes → Option Bytes) → Bytes → Option Bytes
key_or none = whole_line
key_or (some key) = key

unfoldable pub normalized : Options → Options
unfolding key_or
normalized options = record {
  memory_bytes = if options.memory_bytes == 0 then default_memory_bytes else options.memory_bytes;
  max_line_bytes = if options.max_line_bytes == 0 then default_max_line else options.max_line_bytes;
  max_open_files =
      if ltb options.max_open_files 2 then default_max_open else options.max_open_files;
  unique = options.unique;
  key = some (key_or options.key);
}

-- `record`
pub record Record : Type 0 where
  pub content : Bytes
  pub key : Bytes

-- `mergeHeap.Less`, and the order of `sort.Slice` in `spill`.
unfoldable pub before : Record → Record → Bool
before left right =
    if equal left.key right.key then less left.content right.content else less left.key right.key

-- The records in ascending order: what `sort.Slice` makes of the chunk. Records that neither
-- precedes are equal, so that there is one such order.
unfoldable pub insert : Record → List Record → List Record
insert entry [] = entry ∷ []
insert entry (next ∷ rest) =
    let inserted = insert entry rest in
    if before next entry then next ∷ inserted else entry ∷ next ∷ rest

unfoldable pub sort_records : List Record → List Record
unfolding insert
sort_records [] = []
sort_records (entry ∷ rest) = insert entry (sort_records rest)

unfoldable pub printable_key : Bytes → Bytes
printable_key key = if ltb 128 (length key) then take 128 key else key

unfoldable pub check_unique : List Record → Result Error (Unit {0})
unfolding printable_key
check_unique [] = ok tt
check_unique (entry ∷ []) = ok tt
check_unique (entry ∷ next ∷ rest) = do
  refuse (equal entry.key next.key) (duplicate_key (printable_key next.key))
  check_unique (next ∷ rest)

-- `writeRecords`
unfoldable pub write_records : List Record → Bytes
write_records [] = []
write_records (entry ∷ rest) = entry.content ++ lf ∷ write_records rest

-- `lineReader`: the lines that the scanner still hands out, and whether a line that does not fit its
-- buffer ends them.
pub record LineReader : Type 0 where
  pub lines : List Bytes
  pub too_long : Bool

-- `bufio.ScanLines` drops a carriage return before the line feed.
unfoldable pub drop_cr : Bytes → Bytes
drop_cr [] = []
drop_cr (c ∷ []) = if c == cr then [] else c ∷ []
drop_cr (c ∷ d ∷ line) = c ∷ drop_cr (d ∷ line)

unfoldable pub open_line_reader : ℕ → Bytes → Result Error LineReader
unfolding scan_lines drop_cr
open_line_reader max_line file = do
  require (last_or lf file == lf) no_final_lf
  let tokens = scan_lines max_line [] file
  ok (record { lines = map drop_cr tokens.lines; too_long = tokens.too_long })

abbrev pub require_key : Option Bytes → Result Error Bytes
require_key none = err bad_key
require_key (some key) = ok key

-- `options.Key(data)`
unfoldable pub extract_key : Options → Bytes → Result Error Bytes
unfolding key_or
extract_key options line = require_key (key_or options.key line)

-- The variables of `SortFiles`: the records held, what they cost, and the runs written.
pub record Stage : Type 0 where
  pub chunk : List Record
  pub used : ℕ
  pub runs : List Bytes

abbrev pub no_records : List Record → Bool
no_records [] = true
no_records (entry ∷ rest) = false

-- The closure `spill` of `SortFiles`.
unfoldable pub spill : Options → Stage → Result Error Stage
unfolding sort_records check_unique write_records
spill options stage = if no_records stage.chunk then ok stage else do
  let sorted = sort_records stage.chunk
  (if options.unique then check_unique sorted else ok tt)
  ok (record { chunk = []; used = 0; runs = stage.runs ++ write_records sorted ∷ [] })

abbrev pub cost_of : Record → ℕ
cost_of entry = length entry.content + length entry.key + 64

abbrev pub hold : Stage → Record → Stage
hold stage entry = record {
  chunk = stage.chunk ++ entry ∷ [];
  used = stage.used + cost_of entry;
  runs = stage.runs;
}

-- A record of the input; `used > MemoryBytes-cost` is written without the difference.
unfoldable pub add_record : Options → Stage → Record → Result Error Stage
unfolding spill
add_record options stage entry = do
  let full = not (no_records stage.chunk) && ltb options.memory_bytes (stage.used + cost_of entry)
  room ← if full then spill options stage else ok stage
  ok (hold room entry)

unfoldable pub add_line : Options → Stage → Bytes → Result Error Stage
unfolding add_record extract_key
add_line options stage line = do
  key ← extract_key options line
  refuse (length key == 0) empty_key
  add_record options stage (record { content = line; key = key })

unfoldable pub add_lines : Options → Stage → List Bytes → Result Error Stage
unfolding add_line
add_lines options stage [] = ok stage
add_lines options stage (line ∷ lines) = do
  next ← add_line options stage line
  add_lines options next lines

unfoldable pub add_input : Options → Stage → Bytes → Result Error Stage
unfolding add_lines open_line_reader
add_input options stage input = do
  reader ← open_line_reader options.max_line_bytes input
  next ← add_lines options stage reader.lines
  refuse reader.too_long line_too_long
  ok next

unfoldable pub add_inputs : Options → Stage → List Bytes → Result Error Stage
unfolding add_input
add_inputs options stage [] = ok stage
add_inputs options stage (input ∷ inputs) = do
  next ← add_input options stage input
  add_inputs options next inputs

-- `mergeNode`, with the reader of its run in place of the run's number.
pub record MergeNode : Type 0 where
  pub item : Record
  pub reader : LineReader

-- `heap.Pop`: a node whose record none precedes, and the other nodes.
unfoldable pub pop : MergeNode → List MergeNode → MergeNode × List MergeNode
unfolding before
pop first [] = (first, [])
pop first (node ∷ nodes) =
    let (least, others) = pop node nodes in
    if before least.item first.item then (least, first ∷ others) else (first, node ∷ nodes)

-- The closure `advance` of `mergeRuns`.
unfoldable pub advance : Options → LineReader → List MergeNode → Result Error (List MergeNode)
unfolding extract_key
advance options reader queue = elim reader.lines [
  | [] ↦ do refuse reader.too_long line_too_long; ok queue
  | line ∷ lines ↦ do
    key ← extract_key options line
    ok (
        record {
          item = record { content = line; key = key };
          reader = record { lines = lines; too_long = reader.too_long };
        }
        ∷ queue)
]

unfoldable pub open_runs : Options → List Bytes → List MergeNode → Result Error (List MergeNode)
unfolding advance open_line_reader
open_runs options [] queue = ok queue
open_runs options (run ∷ runs) queue = do
  reader ← open_line_reader options.max_line_bytes run
  next ← advance options reader queue
  open_runs options runs next

-- `previousKey`, which is nil (`none`) until a byte is appended to it.
unfoldable pub is_previous : Option Bytes → Bytes → Bool
is_previous none key = false
is_previous (some previous) key = equal previous key

unfoldable pub remember : Option Bytes → Bytes → Option Bytes
remember none [] = none
remember _ key = some key

-- A round of the loop of `mergeRuns`, with what was popped; `loop` is the rounds behind it.
unfoldable pub merge_round :
    Options
    → (Option Bytes → List MergeNode → Result Error Bytes)
    → Option Bytes
    → MergeNode × List MergeNode
    → Result Error Bytes
unfolding advance is_previous remember printable_key
merge_round options loop previous (least, others) = do
  refuse (options.unique && is_previous previous least.item.key)
      (duplicate_key (printable_key least.item.key))
  queue ← advance options least.reader others
  rest ← loop (remember previous least.item.key) queue
  ok (least.item.content ++ lf ∷ rest)

-- The loop of `mergeRuns`, on fuel; the bytes that it writes.
unfoldable pub merge_loop : Options → ℕ → Option Bytes → List MergeNode → Result Error Bytes
unfolding pop merge_round
merge_loop options fuel previous [] = ok []
merge_loop options zero previous (node ∷ nodes) = err out_of_fuel
merge_loop options (suc fuel) previous (node ∷ nodes) =
    merge_round options (merge_loop options fuel) previous (pop node nodes)

-- The records in the queue and behind it in the readers.
unfoldable pub pending : List MergeNode → ℕ
pending [] = 0
pending (node ∷ nodes) = suc (length node.reader.lines) + pending nodes

unfoldable pub merge_runs : Options → List Bytes → Result Error Bytes
unfolding open_runs merge_loop pending
merge_runs options runs = do
  queue ← open_runs options runs []
  merge_loop options (pending queue) none queue

-- A pass of `SortFiles`: every `MaxOpenFiles` runs become one, on fuel.
unfoldable pub merge_pass : Options → ℕ → List Bytes → Result Error (List Bytes)
unfolding merge_runs
merge_pass options fuel [] = ok []
merge_pass options zero (run ∷ runs) = err out_of_fuel
merge_pass options (suc fuel) (run ∷ runs) = do
  merged ← merge_runs options (take options.max_open_files (run ∷ runs))
  rest ← merge_pass options fuel (drop options.max_open_files (run ∷ runs))
  ok (merged ∷ rest)

-- The passes, until one run is left, on fuel.
unfoldable pub merge_passes : Options → ℕ → List Bytes → Result Error Bytes
unfolding merge_pass
merge_passes options fuel [] = ok []
merge_passes options fuel (run ∷ []) = ok run
merge_passes options zero (run ∷ next ∷ runs) = err out_of_fuel
merge_passes options (suc fuel) (run ∷ next ∷ runs) = do
  merged ← merge_pass options (length (run ∷ next ∷ runs)) (run ∷ next ∷ runs)
  merge_passes options fuel merged

abbrev pub begun : Stage
begun = record { chunk = []; used = 0; runs = [] }

-- `SortFiles`: the bytes that it publishes.
unfoldable pub sort_files : List Bytes → Options → Result Error Bytes
unfolding normalized add_inputs spill merge_passes
sort_files [] options = err no_input
sort_files (input ∷ inputs) options = do
  let normal = normalized options
  filled ← add_inputs normal begun (input ∷ inputs)
  stage ← spill normal filled
  merge_passes normal (length stage.runs) stage.runs
