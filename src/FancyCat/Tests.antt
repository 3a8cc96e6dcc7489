-- ===== src/FancyCat/Tests.antt =====
-- The theorems on boot/FancyCat.c at two short files, and at one of 504 bytes.
use text.Mathlib.Text.{◌==◌ as str_eq}
use bikeshed.Prelude.{
  ℕ, suc, ◌+◌, ◌*◌, ◌%◌, ◌≡◌, refl, true, false, if◌then◌else◌, none, some, List, [], ◌∷◌, ◌++◌,
  map, length, take, drop, replicate, All, arith,
}
use bikeshed.FancyCat.{Source, Libc, file_header, number_of_sectors, done, write_file, main}
use bikeshed.FancyCat.Format.{
  Entry, with_entry, read_image, plan, entry_of, IsRegular, IsLoadable, Appends,
}
use bikeshed.FancyCat.Reading.{main-read_image}
use bikeshed.FancyCat.Overcount.{write_file-overcounts}

abbrev file_of : List ℕ → Source
file_of bytes = record {
  seeks_end = true;
  tell = some (length bytes);
  seeks_start = true;
  contents = bytes;
  read_fails = false;
}

abbrev disk : Libc
disk = record {
  fopen = λ name.
      if str_eq name "kernel"
      then some (file_of (1 ∷ 2 ∷ 3 ∷ []))
      else if str_eq name "init"
      then some (file_of (4 ∷ []))
      else none;
  creates = true;
  scan_hex = λ s. if str_eq s "100000" then some 0x100000 else none;
  fwrite = λ bytes file. (true, file ++ bytes);
}

disk-Appends : Appends disk
disk-Appends bytes file = refl

two_loads :
    plan disk ("kernel" ∷ "init" ∷ []) 0x100000
    ≡ record { location = 0x100000; source = some (file_of (1 ∷ 2 ∷ 3 ∷ [])) }
      ∷ record { location = 0x100003; source = some (file_of (4 ∷ [])) }
      ∷ []
two_loads = refl

kernel-IsRegular : IsRegular (file_of (1 ∷ 2 ∷ 3 ∷ []))
kernel-IsRegular = record {
  seeks_end = refl;
  tell = refl;
  seeks_start = refl;
  reads = refl;
  small = omega arith;
  partial = omega arith;
}

init-IsRegular : IsRegular (file_of (4 ∷ []))
init-IsRegular = record {
  seeks_end = refl;
  tell = refl;
  seeks_start = refl;
  reads = refl;
  small = omega arith;
  partial = omega arith;
}

loads-IsLoadable : All IsLoadable (plan disk ("kernel" ∷ "init" ∷ []) 0x100000)
loads-IsLoadable = (
  (omega arith, file_of (1 ∷ 2 ∷ 3 ∷ []), refl, kernel-IsRegular),
  ((omega arith, file_of (4 ∷ []), refl, init-IsRegular), tt),
)

main-read_image_example :
    let o = main disk ("100000" ∷ "kernel" ∷ "init" ∷ []) in
    (o.status ≡ 0)
    × (length o.image % 512 ≡ 0)
    × (read_image (length o.image) o.image
        ≡ some (map entry_of (plan disk ("kernel" ∷ "init" ∷ []) 0x100000)))
main-read_image_example =
    main-read_image disk "100000" "kernel" ("init" ∷ []) 0x100000 disk-Appends refl refl
      loads-IsLoadable

abbrev full : Source
full = file_of (replicate 504 7)

write_file-overcounts_example :
    let written = file_header 0x100000 (number_of_sectors 504) ++ full.contents in
    (write_file disk 0x100000 504 full [] ≡ done 504 ([] ++ written))
    × (512 * number_of_sectors 504 ≡ length written + 512)
    × ((fuel : ℕ) (behind : List ℕ)
        → let entry : Entry = record {
          location = 0x100000;
          bytes = full.contents ++ take 512 behind;
        } in
          read_image (suc fuel) (written ++ behind)
          ≡ with_entry entry (read_image fuel (drop 512 behind)))
write_file-overcounts_example =
    write_file-overcounts disk 0x100000 full [] disk-Appends (omega arith) refl (omega arith) refl
