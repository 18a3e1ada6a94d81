-- ===== src/MediaStore/Framing.antt =====
-- What ClamD reads is the file.
use aca_social.Base.{
  ℕ, zero, suc, ◌+◌, ◌*◌, ◌/◌, ◌%◌, ◌≤◌, ◌<◌, ◌≡◌, refl, ◌∙◌, ap, true, false, Option, none, some,
  List, [], ◌∷◌, ◌++◌, arith, if◌then◌else◌, length, leb, ◌==◌,
}
use aca_social.MediaStore.Scanner.{take, drop, uint32, chunk_size, write_chunks, write_stream}

abbrev pub prepend : List ℕ → Option (List ℕ) → Option (List ℕ)
prepend xs none = none
prepend xs (some ys) = some (xs ++ ys)

-- A reader of the protocol INSTREAM: chunks of a size of four bytes, the highest first, and as many
-- bytes; an empty chunk ends the stream. It fails on a stream that is cut, or takes more than `fuel`
-- chunks.
unfoldable pub read_stream : ℕ → List ℕ → Option (List ℕ)
read_stream (suc fuel) (a ∷ b ∷ c ∷ d ∷ bytes) =
    let size = a * 16777216 + (b * 65536 + (c * 256 + d)) in
    let rest = read_stream fuel (drop size bytes) in
    if size == 0
    then some []
    else if leb size (length bytes)
    then prepend (take size bytes) rest
    else none
read_stream _ _ = none

take-append : (xs ys : List ℕ) → take (length xs) (xs ++ ys) ≡ xs
unfolding take
take-append [] ys = refl
take-append (x ∷ xs) ys = ap (λ r. x ∷ r) (take-append xs ys)

drop-append : (xs ys : List ℕ) → drop (length xs) (xs ++ ys) ≡ ys
unfolding drop
drop-append [] ys = refl
drop-append (x ∷ xs) ys = drop-append xs ys

length-append : (xs ys : List ℕ) → length (xs ++ ys) ≡ length xs + length ys
length-append [] ys = omega arith
length-append (x ∷ xs) ys = omega (arith, length-append xs ys)

take-append_drop : (n : ℕ) (xs : List ℕ) → take n xs ++ drop n xs ≡ xs
unfolding take drop
take-append_drop zero xs = refl
take-append_drop (suc n) [] = refl
take-append_drop (suc n) (x ∷ xs) = ap (λ r. x ∷ r) (take-append_drop n xs)

length-take_le : (n : ℕ) (xs : List ℕ) → length (take n xs) ≤ n
unfolding take
length-take_le zero xs = omega arith
length-take_le (suc n) [] = omega arith
length-take_le (suc n) (x ∷ xs) = omega (arith, length-take_le n xs)

length-drop_le : (n : ℕ) (xs : List ℕ) → length (drop n xs) ≤ length xs
unfolding drop
length-drop_le zero xs = omega arith
length-drop_le (suc n) [] = omega arith
length-drop_le (suc n) (x ∷ xs) = omega (arith, length-drop_le n xs)

size_read :
    (n : ℕ)
    → n < 4294967296
    → n / 16777216 % 256 * 16777216 + (n / 65536 % 256 * 65536 + (n / 256 % 256 * 256 + n % 256))
      ≡ n
size_read n h = omega arith

-- A chunk is read back, and then what follows it.
read_chunk :
    (fuel : ℕ) (chunk rest : List ℕ)
    → 0 < length chunk
    → length chunk < 4294967296
    → read_stream (suc fuel) (uint32 (length chunk) ++ (chunk ++ rest))
      ≡ prepend chunk (read_stream fuel rest)
unfolding read_stream uint32
read_chunk fuel chunk rest some_bytes small =
    let fits : leb (length chunk) (length (chunk ++ rest)) ≡ true =
      ground (arith, length-append chunk rest) in
    let not_empty : (length chunk == 0) ≡ false = ground arith in
    rw
      (
        size_read (length chunk) small,
        not_empty,
        fits,
        take-append chunk rest,
        drop-append chunk rest,
      )
      refl

append_assoc : (xs ys zs : List ℕ) → (xs ++ ys) ++ zs ≡ xs ++ (ys ++ zs)
append_assoc [] ys zs = refl
append_assoc (x ∷ xs) ys zs = ap (λ r. x ∷ r) (append_assoc xs ys zs)

end_read : (fuel : ℕ) → read_stream (suc fuel) (uint32 0) ≡ some []
unfolding read_stream uint32
end_read fuel = refl

take_some : (n b : ℕ) (bs : List ℕ) → 0 < n → 0 < length (take n (b ∷ bs))
unfolding take
take_some zero b bs positive = absurd (omega arith)
take_some (suc n) b bs positive = omega arith

drop_some : (n b : ℕ) (bs : List ℕ) → 0 < n → length (drop n (b ∷ bs)) ≤ length bs
unfolding drop
drop_some zero b bs positive = absurd (omega arith)
drop_some (suc n) b bs positive = length-drop_le n bs

below : (k n : ℕ) → k ≤ n → n < 4294967296 → k < 4294967296
below k n small fits = omega arith

chunk_length :
    (b : ℕ) (bs : List ℕ)
    → (0 < length (take chunk_size (b ∷ bs)))
      × (length (take chunk_size (b ∷ bs)) < 4294967296)
      × (length (drop chunk_size (b ∷ bs)) ≤ length bs)
chunk_length b bs = (
  take_some chunk_size b bs (omega arith),
  below _ chunk_size (length-take_le chunk_size (b ∷ bs)) (omega arith),
  drop_some chunk_size b bs (omega arith),
)

read-write_chunks :
    (fuel more : ℕ) (buffer : List ℕ)
    → length buffer ≤ fuel
    → fuel ≤ more
    → read_stream (suc more) (write_chunks fuel buffer ++ uint32 0) ≡ some buffer
unfolding write_chunks
read-write_chunks zero more [] few enough = end_read more
read-write_chunks zero more (b ∷ bs) few enough = absurd (omega arith)
read-write_chunks (suc fuel) more [] few enough = end_read more
read-write_chunks (suc fuel) zero (b ∷ bs) few enough = absurd (omega arith)
read-write_chunks (suc fuel) (suc more) (b ∷ bs) few enough =
    let chunk = take chunk_size (b ∷ bs) in
    let rest = drop chunk_size (b ∷ bs) in
    let (some_bytes, small, shorter) = chunk_length b bs in
    let later = read-write_chunks fuel more rest (omega (arith, shorter)) (omega arith) in
    ap (read_stream (suc (suc more))) (
      append_assoc (uint32 (length chunk)) (chunk ++ write_chunks fuel rest) (uint32 0)
      ∙ ap (λ r. uint32 (length chunk) ++ r)
          (append_assoc chunk (write_chunks fuel rest) (uint32 0)))
    ∙ read_chunk (suc more) chunk (write_chunks fuel rest ++ uint32 0) some_bytes small
    ∙ ap (prepend chunk) later
    ∙ ap some (take-append_drop chunk_size (b ∷ bs))

-- Whatever the file, ClamD reads the file from the stream that is written for it.
pub read_stream-write_stream :
    (buffer : List ℕ) → read_stream (length buffer + 1) (write_stream buffer) ≡ some buffer
unfolding write_stream
read_stream-write_stream buffer =
    ap (λ n. read_stream n (write_stream buffer)) (omega arith)
    ∙ read-write_chunks (length buffer) (length buffer) buffer (omega arith) (omega arith)
