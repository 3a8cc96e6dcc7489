-- ===== src/FancyCat.antt =====
-- boot/FancyCat.c: the tool that joins files to a boot image. What the C library does with files
-- and texts is the parameter `Libc`; a file that is written is the list of its bytes.
pub mod Format
pub mod RoundTrip
pub mod Reading
pub mod Overcount
mod Tests
use Prim.Native.String.{String}
use bikeshed.Prelude.{
  ℕ, zero, suc, ◌+◌, ◌-◌, ◌*◌, ◌/◌, ◌%◌, ◌^◌, Bool, true, false, not, ◌==◌, ltb, if◌then◌else◌,
  Option, none, some, List, [], ◌∷◌, ◌++◌, length, take, drop, replicate,
}

-- A file that could be opened: whether `fseek` to its end and back succeeds, what `ftell` says at
-- the end (`none` for -1), the bytes that `fread` finds, and whether these end in an error.
pub record Source : Type 0 where
  pub seeks_end : Bool
  pub tell : Option ℕ
  pub seeks_start : Bool
  pub contents : List ℕ
  pub read_fails : Bool

-- `fopen` for reading, whether image.dat can be made, `sscanf` with "%x", and `fwrite` at the end
-- of a file: whether all was written, and the file afterwards.
pub record Libc : Type 0 where
  pub fopen : String → Option Source
  pub creates : Bool
  pub scan_hex : String → Option ℕ
  pub fwrite : (bytes file : List ℕ) → Bool × List ℕ

abbrev pub sector_size : ℕ
sector_size = 512

-- uint32_t in memory.
abbrev pub le32 : ℕ → List ℕ
le32 n = n % 256 ∷ n / 2 ^ 8 % 256 ∷ n / 2 ^ 16 % 256 ∷ n / 2 ^ 24 % 256 ∷ []

-- struct file_header, whose size is 8.
abbrev pub file_header : (location size : ℕ) → List ℕ
file_header location size = le32 location ++ le32 size

-- The count of bytes is taken to an int, and divided as one.
unfoldable pub number_of_sectors : ℕ → ℕ
number_of_sectors file_size =
    let bytes = (file_size + 8 + (sector_size - (file_size + 8) % sector_size)) % 2 ^ 32 in
    if ltb bytes (2 ^ 31)
    then bytes / sector_size
    else (2 ^ 32 - (2 ^ 32 - bytes) / sector_size) % 2 ^ 32

unfoldable pub pad_amount : ℕ → ℕ
pad_amount file_size = sector_size - (file_size + 8) % sector_size

-- What has been made of the image: go on with it, or leave it and exit with a status.
pub data Step : Type 0 where
  done : (file_size : ℕ) (image : List ℕ) → Step
  stop : (status : ℕ) (image : List ℕ) → Step

-- The end of the program: its status and image.dat.
pub record Outcome : Type 0 where
  pub status : ℕ
  pub image : List ℕ

module _ (c : Libc) where
  -- The loop of dump_file: it ends after a read that is short. The fuel is more than the length.
  unfoldable pub dump_loop : ℕ → (left file : List ℕ) → Bool × List ℕ
  dump_loop zero left file = (true, file)
  dump_loop (suc fuel) left file =
      let read = take 4096 left in
      let (written, file') = c.fwrite read file in
      let rest = dump_loop fuel (drop 4096 left) file' in
      if not written then (false, file') else if ltb (length read) 4096 then (true, file') else rest

  unfoldable pub dump_file : Source → List ℕ → ℕ × List ℕ
  dump_file src file =
      let (written, file') = dump_loop (suc (length src.contents)) src.contents file in
      (if not written then 1 else if src.read_fails then 2 else 0, file')

  -- The padding to the next sector.
  unfoldable pub pad_file : (file_size : ℕ) → List ℕ → Step
  unfolding pad_amount
  pad_file file_size file =
      let (written, file') = c.fwrite (replicate (pad_amount file_size) 0x22) file in
      if (file_size + 8) % sector_size == 0
      then done file_size file
      else if written
      then done file_size file'
      else stop 10 file'

  unfoldable pub copy_file : (file_size : ℕ) → Source → List ℕ → Step
  unfolding dump_file
  copy_file file_size src file =
      let (code, file') = dump_file src file in
      if code == 0 then pad_file file_size file' else stop 9 file'

  -- One file, from its header to its padding.
  unfoldable pub write_file : (load_location file_size : ℕ) → Source → List ℕ → Step
  unfolding number_of_sectors
  write_file load_location file_size src file =
      let (written, file') =
        c.fwrite (file_header load_location (number_of_sectors file_size)) file in
      if written then copy_file file_size src file' else stop 8 file'

  unfoldable pub add_source : (load_location : ℕ) → Source → List ℕ → Step
  add_source load_location src file = if not src.seeks_end then stop 5 file else elim src.tell [
    | none ↦ stop 6 file
    | some file_size ↦
        if not src.seeks_start then stop 7 file else write_file load_location file_size src file
  ]

  unfoldable pub add_file : String → (load_location : ℕ) → List ℕ → Step
  unfolding add_source
  add_file name load_location file = elim (c.fopen name) [
    | none ↦ stop 4 file
    | some src ↦ add_source load_location src file
  ]

  -- The loop over the arguments from the `current_file`-th on.
  unfoldable pub add_files : List String → (load_location : ℕ) → List ℕ → Step
  add_files [] load_location file = done 0 file
  add_files (name ∷ []) load_location file = add_file name load_location file
  add_files (name ∷ next ∷ names) load_location file = elim (add_file name load_location file) [
    | stop status file' ↦ stop status file'
    | done file_size file' ↦ elim (c.scan_hex next) [
      | none ↦ add_files (next ∷ names) ((load_location + file_size) % 2 ^ 32) file'
      | some new_location ↦ add_files names new_location file'
    ]
  ]

  -- The marker: eight bytes 0xFF in a sector of zeros.
  unfoldable pub end_image : Step → Outcome
  end_image (stop status file) = record { status = status; image = file }
  end_image (done n file) =
      let (written, file') = c.fwrite (replicate 8 0xff ++ replicate (sector_size - 8) 0) file in
      record { status = if written then 0 else 11; image = file' }

  abbrev usage_error : ℕ → Outcome
  usage_error status = record { status = status; image = [] }

  -- The arguments without the name of the program.
  unfoldable pub main : List String → Outcome
  main [] = usage_error 1
  main (location ∷ []) = usage_error 1
  main (location ∷ name ∷ names) = elim (c.scan_hex location) [
    | none ↦ usage_error 2
    | some load_location ↦
        if c.creates then end_image (add_files (name ∷ names) load_location []) else usage_error 3
  ]
