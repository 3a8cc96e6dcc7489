-- ===== src/FancyCat/Reading.antt =====
-- The images of boot/FancyCat.c under the reader of Format: a file at a time, and the whole tool.
use Prim.Native.String.{String}
use mathlib.Core.List.{append_assoc}
use bikeshed.Prelude.{
  ℕ, zero, suc, ◌+◌, ◌-◌, ◌*◌, ◌/◌, ◌%◌, ◌^◌, ◌<◌, ◌≤◌, ◌≡◌, refl, sym, ap, ◌∙◌, true, false, ◌&&◌,
  ◌==◌, some, List, [], ◌∷◌, ◌++◌, map, length, take, drop, replicate, length-append,
  length-replicate, take-append, drop-append, All, arith,
}
use bikeshed.FancyCat.{Libc, file_header, done, add_files, end_image, main}
use bikeshed.FancyCat.Format.{
  Entry, read32, with_entry, read_image, Load, contents_of, plan, entry_of, IsLoadable, Appends,
}
use bikeshed.FancyCat.RoundTrip.{sectors, block, blocks, add_files-append}

read32_le32 :
    (n : ℕ)
    → n < 2 ^ 32
    → read32 (n % 256) (n / 2 ^ 8 % 256) (n / 2 ^ 16 % 256) (n / 2 ^ 24 % 256) ≡ n
read32_le32 n h = omega arith

not_marker : (a b : ℕ) → b < 0xffffffff → (a == 0xffffffff && b == 0xffffffff) ≡ false
not_marker a b h = ground arith

-- A file whose size is not that of the marker.
pub read_header :
    (fuel location size : ℕ) (rest : List ℕ)
    → location < 2 ^ 32
    → size < 0xffffffff
    → let entry : Entry = record { location = location; bytes = take (512 * size - 8) rest } in
      read_image (suc fuel) (file_header location size ++ rest)
      ≡ with_entry entry (read_image fuel (drop (512 * size - 8) rest))
unfolding read_image
read_header fuel location size rest h k =
    rw (read32_le32 location h, read32_le32 size (omega arith), not_marker location size k) refl

abbrev body : List ℕ → List ℕ
body bytes = bytes ++ replicate (512 - (length bytes + 8) % 512) 0x22

length-body : (bytes : List ℕ) → length (body bytes) ≡ 512 * sectors (length bytes) - 8
length-body bytes =
    let n : ℕ = length bytes in
    let pad : List ℕ = replicate (512 - (n + 8) % 512) 0x22 in
    length-append bytes pad ∙ rw (length-replicate {A = ℕ} (512 - (n + 8) % 512) 0x22) (omega arith)

read_block :
    (fuel location : ℕ) (bytes rest : List ℕ)
    → location < 2 ^ 32
    → length bytes + 520 < 2 ^ 31
    → let entry : Entry = record { location = location; bytes = body bytes } in
      read_image (suc fuel) (block location bytes ++ rest) ≡ with_entry entry (read_image fuel rest)
unfolding block
read_block fuel location bytes rest h k =
    let size = sectors (length bytes) in
    let file = λ (t : List ℕ) (u : List ℕ).
      let entry : Entry = record { location = location; bytes = t } in
      with_entry entry (read_image fuel u) in
    let n : (512 * size - 8) ≡ length (body bytes) = sym (length-body bytes) in
    read_header fuel location size (body bytes ++ rest) h (omega arith)
    ∙ ap (λ (t : ℕ). file (take t (body bytes ++ rest)) (drop t (body bytes ++ rest))) n
    ∙ ap (λ (t : List ℕ). file t (drop (length (body bytes)) (body bytes ++ rest)))
        (take-append (body bytes) rest)
    ∙ ap (file (body bytes)) (drop-append (body bytes) rest)

abbrev marker : List ℕ
marker = replicate 8 0xff ++ replicate 504 0

-- Enough fuel is one more than the number of files.
read_blocks :
    (fuel : ℕ) (loads : List Load)
    → All IsLoadable loads
    → length loads < fuel
    → read_image fuel (blocks loads ++ marker) ≡ some (map entry_of loads)
unfolding read_image
read_blocks zero loads h k = absurd (omega arith)
read_blocks (suc fuel) [] h k = refl
read_blocks (suc fuel) (load ∷ loads) ((low, src, e, r), h) k =
    let bytes = contents_of load.source in
    ap (read_image (suc fuel)) (append_assoc (block load.location bytes) (blocks loads) marker)
    ∙ read_block fuel load.location bytes (blocks loads ++ marker) low (rw e r.small)
    ∙ ap (with_entry (entry_of load)) (read_blocks fuel loads h (omega arith))

-- The image is longer than the number of its files, and fills whole sectors.
length-blocks :
    (loads : List Load) → (length loads ≤ length (blocks loads)) × (length (blocks loads) % 512 ≡ 0)
unfolding block
length-blocks [] = omega arith
length-blocks (load ∷ loads) =
    let bytes = contents_of load.source in
    omega (
      arith,
      length-blocks loads,
      length-body bytes,
      length-append (block load.location bytes) (blocks loads),
    )

end_image-marker :
    (c : Libc)
    → Appends c
    → (n : ℕ) (file : List ℕ)
    → end_image c (done n file) ≡ record { status = 0; image = file ++ marker }
unfolding end_image
end_image-marker c w n file = rw (w marker file) refl

main_runs :
    (c : Libc) (location name : String) (names : List String) (l : ℕ)
    → c.scan_hex location ≡ some l
    → c.creates ≡ true
    → main c (location ∷ name ∷ names) ≡ end_image c (add_files c (name ∷ names) l [])
unfolding main
main_runs c location name names l e k = ground (arith, e, k)

-- When every write succeeds, the first argument is a location and every file is regular, shorter
-- than 2 GiB and does not end on a sector's end: the tool exits with 0, and its image, which fills
-- whole sectors, reads back as the files that the arguments name, in order, each with its contents
-- filled up by 0x22. Its location is the one that stands before it, or else that of the file before
-- it plus the size of that file in bytes, modulo 2 ^ 32.
pub main-read_image :
    (c : Libc) (location name : String) (names : List String) (l : ℕ)
    → Appends c
    → c.scan_hex location ≡ some l
    → c.creates ≡ true
    → All IsLoadable (plan c (name ∷ names) l)
    → let o = main c (location ∷ name ∷ names) in
      (o.status ≡ 0)
      × (length o.image % 512 ≡ 0)
      × (read_image (length o.image) o.image ≡ some (map entry_of (plan c (name ∷ names) l)))
main-read_image c location name names l w e k h =
    let loads = plan c (name ∷ names) l in
    let (n, added) = add_files-append c w (name ∷ names) l [] h in
    let whole : main c (location ∷ name ∷ names)
        ≡ record { status = 0; image = blocks loads ++ marker } =
      main_runs c location name names l e k
      ∙ ap (end_image c) added
      ∙ end_image-marker c w n (blocks loads) in
    let size = length-append (blocks loads) marker in
    rw whole (
      refl,
      omega (arith, size, length-blocks loads),
      read_blocks (length (blocks loads ++ marker)) loads h
          (omega (arith, size, length-blocks loads)),
    )
