-- ===== src/FancyCat/Overcount.antt =====
-- boot/FancyCat.c on a file that ends, with its header, on a sector's end.
use mathlib.Core.List.{append_assoc}
use bikeshed.Prelude.{
  ℕ, zero, suc, ◌+◌, ◌-◌, ◌*◌, ◌%◌, ◌^◌, ◌<◌, ◌≡◌, ap, ◌∙◌, false, List, [], ◌∷◌, ◌++◌, length,
  take, drop, arith,
}
use bikeshed.FancyCat.{Source, Libc, file_header, number_of_sectors, done, pad_file, write_file}
use bikeshed.FancyCat.Format.{Entry, with_entry, read_image, Appends}
use bikeshed.FancyCat.RoundTrip.{sectors, number_of_sectors_lem, write_file-pad}
use bikeshed.FancyCat.Reading.{read_header}

take-append_more :
    (m k : ℕ) (xs ys : List ℕ) → m ≡ length xs + k → take m (xs ++ ys) ≡ xs ++ take k ys
take-append_more m k [] ys e = ap (λ (n : ℕ). take n ys) (omega arith)
take-append_more zero k (x ∷ xs) ys e = absurd (omega arith)
take-append_more (suc m) k (x ∷ xs) ys e =
    ap (λ (t : List ℕ). x ∷ t) (take-append_more m k xs ys (omega arith))

drop-append_more : (m k : ℕ) (xs ys : List ℕ) → m ≡ length xs + k → drop m (xs ++ ys) ≡ drop k ys
drop-append_more m k [] ys e = ap (λ (n : ℕ). drop n ys) (omega arith)
drop-append_more zero k (x ∷ xs) ys e = absurd (omega arith)
drop-append_more (suc m) k (x ∷ xs) ys e = drop-append_more m k xs ys (omega arith)

pad_file_whole :
    (c : Libc) (n : ℕ) (file : List ℕ) → (n + 8) % 512 ≡ 0 → pad_file c n file ≡ done n file
unfolding pad_file
pad_file_whole c n file h = ground arith

-- A file whose size and header fill whole sectors, with room below 2 GiB, is written without
-- padding, but its header counts one sector more than it takes. Whatever stands behind it in the
-- image, the reader takes the next sector, with the header of the next file, as its last.
pub write_file-overcounts :
    (c : Libc) (location : ℕ) (src : Source) (file : List ℕ)
    → Appends c
    → location < 2 ^ 32
    → src.read_fails ≡ false
    → length src.contents + 520 < 2 ^ 31
    → (length src.contents + 8) % 512 ≡ 0
    → let n = length src.contents in
      let written = file_header location (number_of_sectors n) ++ src.contents in
      (write_file c location n src file ≡ done n (file ++ written))
      × (512 * number_of_sectors n ≡ length written + 512)
      × ((fuel : ℕ) (behind : List ℕ)
          → let entry : Entry = record {
            location = location;
            bytes = src.contents ++ take 512 behind;
          } in
            read_image (suc fuel) (written ++ behind)
            ≡ with_entry entry (read_image fuel (drop 512 behind)))
write_file-overcounts c location src file w low reads small whole =
    let n : ℕ = length src.contents in
    let header = file_header location (sectors n) in
    let count = number_of_sectors_lem n small in
    rw count (
      write_file-pad c w location src file reads small
          ∙ pad_file_whole c n ((file ++ header) ++ src.contents) whole
          ∙ ap (done n) (append_assoc file header src.contents),
      omega arith,
      λ fuel behind.
          let m : 512 * sectors n - 8 ≡ length src.contents + 512 = omega arith in
          let size = 512 * sectors n - 8 in
          let entry = λ (t : List ℕ) (u : List ℕ).
            let e : Entry = record { location = location; bytes = t } in
            with_entry e (read_image fuel u) in
          read_header fuel location (sectors n) (src.contents ++ behind) low (omega arith)
          ∙ ap (λ (t : List ℕ). entry t (drop size (src.contents ++ behind)))
              (take-append_more size 512 src.contents behind m)
          ∙ ap (entry (src.contents ++ take 512 behind))
              (drop-append_more size 512 src.contents behind m),
    )
