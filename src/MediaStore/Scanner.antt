-- ===== src/MediaStore/Scanner.antt =====
-- services/media-service/src/media/virus-scanner.service.ts: what is sent to ClamD, and what its answer
-- means. A byte is a number below 256.
use aca_social.Base.{
  ℕ, zero, suc, ◌/◌, ◌%◌, Bool, true, false, Option, none, some, List, [], ◌∷◌, ◌++◌, String,
  str_eq, if◌then◌else◌, length, ◌==◌, ◌&&◌,
}
use aca_social.Service.{Result, ok, err, bad_request, unavailable}
use aca_social.Mentions.{codes}

unfoldable pub take : ℕ → List ℕ → List ℕ
take zero xs = []
take (suc n) [] = []
take (suc n) (x ∷ xs) = x ∷ take n xs

unfoldable pub drop : ℕ → List ℕ → List ℕ
drop zero xs = xs
drop (suc n) [] = []
drop (suc n) (x ∷ xs) = drop n xs

-- `writeUInt32BE`
unfoldable pub uint32 : ℕ → List ℕ
uint32 n = n / 16777216 % 256 ∷ (n / 65536 % 256 ∷ (n / 256 % 256 ∷ (n % 256 ∷ [])))

abbrev pub chunk_size : ℕ
chunk_size = 65536

-- The loop over the buffer; a buffer of `fuel` bytes takes at most `fuel` turns.
unfoldable pub write_chunks : ℕ → List ℕ → List ℕ
write_chunks zero buffer = []
write_chunks (suc fuel) [] = []
write_chunks (suc fuel) (b ∷ bs) =
    let chunk = take chunk_size (b ∷ bs) in
    uint32 (length chunk) ++ (chunk ++ write_chunks fuel (drop chunk_size (b ∷ bs)))

-- What follows the command: the chunks, and an empty one.
unfoldable pub write_stream : List ℕ → List ℕ
write_stream buffer = write_chunks (length buffer) buffer ++ uint32 0

abbrev pub same_codes : List ℕ → List ℕ → Bool
same_codes [] [] = true
same_codes (a ∷ xs) (b ∷ ys) = (a == b) && same_codes xs ys
same_codes _ _ = false

-- `text.endsWith(suffix)`
unfoldable pub ends_with : List ℕ → List ℕ → Bool
ends_with suffix [] = same_codes suffix []
ends_with suffix (c ∷ cs) =
    let rest = ends_with suffix cs in if same_codes suffix (c ∷ cs) then true else rest

-- The answer of ClamD, none if the connection failed or timed out.
unfoldable pub scan : Option String → Result (Unit {0})
scan none = err unavailable
scan (some result) =
    if ends_with (codes " FOUND") (codes result)
    then err bad_request
    else if str_eq result "stream: OK"
    then ok tt
    else err unavailable
