-- ===== src/FancyCat/RoundTrip.antt =====
-- The image that boot/FancyCat.c makes, read back.
use Prim.Native.String.{String}
use mathlib.Core.List.{append_assoc, append-nil}
use bikeshed.Prelude.{
  ℕ, zero, suc, ◌+◌, ◌-◌, ◌/◌, ◌%◌, ◌^◌, ◌<◌, ◌≡◌, ◌≢◌, refl, sym, ap, ◌∙◌, true, false, ◌==◌, ltb,
  Bool-cases, Option-cases, inl, inr, tests, le_of_not_ltb, none, some, List, [], ◌∷◌, ◌++◌, length,
  take, drop, replicate, length-append, take-drop, take_short, length-drop, All, arith,
}
use bikeshed.FancyCat.{
  Source, Libc, file_header, number_of_sectors, pad_amount, done, dump_loop, dump_file, pad_file,
  copy_file, write_file, add_source, add_file, add_files,
}
use bikeshed.FancyCat.Format.{Load, contents_of, plan, IsRegular, IsLoadable, Appends}

abbrev pub sectors : ℕ → ℕ
sectors file_size = (file_size + 8) / 512 + 1

-- The bytes of a file in the image.
unfoldable pub block : (location : ℕ) → List ℕ → List ℕ
block location bytes =
    file_header location (sectors (length bytes))
    ++ bytes
    ++ replicate (512 - (length bytes + 8) % 512) 0x22

pub number_of_sectors_lem : (n : ℕ) → n + 520 < 2 ^ 31 → number_of_sectors n ≡ sectors n
unfolding number_of_sectors
number_of_sectors_lem n h = ground arith

dump_loop-append :
    (c : Libc)
    → Appends c
    → (fuel : ℕ) (left file : List ℕ) → length left < fuel
    → dump_loop c fuel left file ≡ (true, file ++ left)
unfolding dump_loop
dump_loop-append c w zero left file h = absurd (omega arith)
dump_loop-append c w (suc fuel) left file h =
    rw (w (take 4096 left) file) (elim (Bool-cases (ltb (length (take 4096 left)) 4096)) [
      | inl short ↦ rw short (rw (take_short 4096 left (omega (tests, short))) refl)
      | inr more ↦ rw more (
          dump_loop-append c w fuel (drop 4096 left) (file ++ take 4096 left) (
            omega (
              tests,
              length-drop 4096 left,
              length-append (take 4096 left) (drop 4096 left),
              ap length (take-drop 4096 left),
              le_of_not_ltb (length (take 4096 left)) 4096 more,
            ))
          ∙ ap (λ (t : List ℕ). (true, t))
              (append_assoc file (take 4096 left) (drop 4096 left)
                ∙ ap (λ (t : List ℕ). file ++ t) (take-drop 4096 left)))
    ])

pad_file-append :
    (c : Libc)
    → Appends c
    → (n : ℕ) (file : List ℕ) → (n + 8) % 512 ≢ 0
    → pad_file c n file ≡ done n (file ++ replicate (512 - (n + 8) % 512) 0x22)
unfolding pad_file pad_amount
pad_file-append c w n file h =
    rw (w (replicate (512 - (n + 8) % 512) 0x22) file)
      (elim (Bool-cases ((n + 8) % 512 == 0)) [ inl e ↦ absurd (ground arith) | inr e ↦ rw e refl ])

pub write_file-pad :
    (c : Libc)
    → Appends c
    → (location : ℕ) (src : Source) (file : List ℕ) → src.read_fails ≡ false
    → length src.contents + 520 < 2 ^ 31
    → let n = length src.contents in
      write_file c location n src file
      ≡ pad_file c n ((file ++ file_header location (sectors n)) ++ src.contents)
unfolding write_file copy_file dump_file
write_file-pad c w location src file reads small =
    let n : ℕ = length src.contents in
    let header = file_header location (sectors n) in
    rw
      (
        number_of_sectors_lem n small,
        w header file,
        dump_loop-append c w (suc n) src.contents (file ++ header) (omega arith),
        reads,
      )
      refl

write_file-append :
    (c : Libc)
    → Appends c
    → (location : ℕ) (src : Source) (file : List ℕ) → IsRegular src
    → write_file c location (length src.contents) src file
      ≡ done (length src.contents) (file ++ block location src.contents)
unfolding block
write_file-append c w location src file r =
    let n : ℕ = length src.contents in
    let header = file_header location (sectors n) in
    let pad : List ℕ = replicate (512 - (n + 8) % 512) 0x22 in
    write_file-pad c w location src file r.reads r.small
    ∙ pad_file-append c w n ((file ++ header) ++ src.contents) r.partial
    ∙ ap (done n) (
        append_assoc (file ++ header) src.contents pad
        ∙ append_assoc file header (src.contents ++ pad))

-- The bytes of all files.
abbrev pub blocks : List Load → List ℕ
blocks [] = []
blocks (load ∷ loads) = block load.location (contents_of load.source) ++ blocks loads

add_source-append :
    (c : Libc)
    → Appends c
    → (location : ℕ) (src : Source) (file : List ℕ) → IsRegular src
    → add_source c location src file
      ≡ done (length src.contents) (file ++ block location src.contents)
unfolding add_source
add_source-append c w location src file r =
    ground (arith, r.seeks_end, r.tell, r.seeks_start, write_file-append c w location src file r)

add_file_found :
    (c : Libc) (name : String) (location : ℕ) (src : Source) (file : List ℕ)
    → c.fopen name ≡ some src
    → add_file c name location file ≡ add_source c location src file
unfolding add_file
add_file_found c name location src file e = rw (e, add_file) refl

add_file-append :
    (c : Libc)
    → Appends c
    → (name : String) (location : ℕ) (file : List ℕ)
    → IsLoadable (record { location = location; source = c.fopen name })
    → let bytes = contents_of (c.fopen name) in
      add_file c name location file ≡ done (length bytes) (file ++ block location bytes)
add_file-append c w name location file (low, src, e, r) =
    add_file_found c name location src file e ∙ rw e (add_source-append c w location src file r)

add_files_next :
    (c : Libc) (name next : String) (names : List String) (location n : ℕ) (file file' : List ℕ)
    → add_file c name location file ≡ done n file'
    → add_files c (name ∷ next ∷ names) location file ≡ elim (c.scan_hex next) [
      | none ↦ add_files c (next ∷ names) ((location + n) % 2 ^ 32) file'
      | some l ↦ add_files c names l file'
    ]
unfolding add_files
add_files_next c name next names location n file file' e = rw (e, add_files) refl

-- What the loop over the arguments leaves.
pub add_files-append :
    (c : Libc)
    → Appends c
    → (names : List String) (location : ℕ) (file : List ℕ) → All IsLoadable (plan c names location)
    → (n : ℕ) × (add_files c names location file ≡ done n (file ++ blocks (plan c names location)))
unfolding add_files
add_files-append c w [] location file h = (0, ap (done 0) (sym (append-nil file)))
add_files-append c w (name ∷ []) location file h =
    let bytes = contents_of (c.fopen name) in
    (
      length bytes,
      add_file-append c w name location file h.0
          ∙ ap (λ (t : List ℕ). done (length bytes) (file ++ t))
              (sym (append-nil (block location bytes))),
    )
add_files-append c w (name ∷ next ∷ names) location file h =
    let bytes = contents_of (c.fopen name) in
    let here = block location bytes in
    let first =
      add_files_next c name next names location (length bytes) file (file ++ here)
        (add_file-append c w name location file h.0) in
    elim (Option-cases (c.scan_hex next)) [
      | inl e ↦
          let location' = (location + length bytes) % 2 ^ 32 in
          let (n, same) =
            add_files-append c w (next ∷ names) location' (file ++ here) (rw e at (h.1)) in
          (
            n,
            first
                ∙ rw e (
                    same
                    ∙ ap (done n)
                        (append_assoc file here (blocks (plan c (next ∷ names) location')))),
          )
      | inr (l, e) ↦
          let (n, same) = add_files-append c w names l (file ++ here) (rw e at (h.1)) in
          (n, first ∙ rw e (same ∙ ap (done n) (append_assoc file here (blocks (plan c names l)))))
    ]
