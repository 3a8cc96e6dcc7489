-- ===== src/FancyCat/Format.antt =====
-- The format of the images of boot/FancyCat.c, as the comment at its head and the boot loader have
-- it: a reader of images, and what a list of arguments asks for.
use Prim.Native.String.{String}
use bikeshed.Prelude.{
  ℕ, suc, ◌+◌, ◌-◌, ◌*◌, ◌%◌, ◌^◌, ◌<◌, ◌≡◌, ◌≢◌, true, false, ◌&&◌, ◌==◌, if◌then◌else◌, Option,
  none, some, List, [], ◌∷◌, ◌++◌, length, take, drop, replicate,
}
use bikeshed.FancyCat.{Source, Libc}

-- A file of an image: where it is loaded, and the bytes of its sectors behind the header.
pub record Entry : Type 0 where
  pub location : ℕ
  pub bytes : List ℕ

abbrev pub read32 : (a b c d : ℕ) → ℕ
read32 a b c d = a + 2 ^ 8 * b + 2 ^ 16 * c + 2 ^ 24 * d

abbrev pub with_entry : Entry → Option (List Entry) → Option (List Entry)
with_entry e none = none
with_entry e (some es) = some (e ∷ es)

-- The files of an image up to the marker; the size in a header counts the header in.
unfoldable pub read_image : ℕ → List ℕ → Option (List Entry)
read_image (suc fuel) (a ∷ b ∷ c ∷ d ∷ e ∷ f ∷ g ∷ h ∷ rest) =
    let location = read32 a b c d in
    let size = read32 e f g h in
    let behind = 512 * size - 8 in
    let entry : Entry = record { location = location; bytes = take behind rest } in
    let others = with_entry entry (read_image fuel (drop behind rest)) in
    if location == 0xffffffff && size == 0xffffffff then some [] else others
read_image _ _ = none

-- A file that is to be loaded, as it was found.
pub record Load : Type 0 where
  pub location : ℕ
  pub source : Option Source

abbrev pub contents_of : Option Source → List ℕ
contents_of none = []
contents_of (some src) = src.contents

-- The files that the arguments name: a location stands before the file that it is for, and a file
-- without one is loaded right behind the last byte of the file before it, as the code does it, not at
-- the next sector.
abbrev pub plan : Libc → List String → ℕ → List Load
plan c [] l = []
plan c (name ∷ []) l = record { location = l; source = c.fopen name } ∷ []
plan c (name ∷ next ∷ names) l =
    record { location = l; source = c.fopen name } ∷ elim (c.scan_hex next) [
      | none ↦ plan c (next ∷ names) ((l + length (contents_of (c.fopen name))) % 2 ^ 32)
      | some l' ↦ plan c names l'
    ]

-- The contents, filled up to a whole sector.
abbrev pub entry_of : Load → Entry
entry_of load =
    let bytes = contents_of load.source in
    record {
      location = load.location;
      bytes = bytes ++ replicate (512 - (length bytes + 8) % 512) 0x22;
    }

-- A regular file, that is read without an error, is below 2 GiB, and does not end, with its
-- header, on a sector's end.
pub record IsRegular (src : Source) : Type 0 where
  pub seeks_end : src.seeks_end ≡ true
  pub tell : src.tell ≡ some (length src.contents)
  pub seeks_start : src.seeks_start ≡ true
  pub reads : src.read_fails ≡ false
  pub small : length src.contents + 520 < 2 ^ 31
  pub partial : (length src.contents + 8) % 512 ≢ 0

abbrev pub IsLoadable : Load → Type 0
IsLoadable load =
    (load.location < 2 ^ 32) × (src : Source) × (load.source ≡ some src) × IsRegular src

-- Every write succeeds, at the end of the file.
abbrev pub Appends : Libc → Type 0
Appends c = (bytes file : List ℕ) → c.fwrite bytes file ≡ (true, file ++ bytes)
