-- ===== src/Upload/Encoding.antt =====
-- bytesToBase64 of web/ui/src/pages/torrents/torrentFile.ts: its chunks, put together.
use haul.Base.{
  ℕ, zero, suc, ◌+◌, ◌≤◌, ◌≡◌, refl, ap, ◌∙◌, sym, Bool-cases, inl, inr, arith, true, false, List,
  [], ◌∷◌, ◌++◌, length, take, drop, ltb, ◌⊎◌, String, ◌<>◌, ◌==◌, ◌≢◌,
}
use haul.Upload.{
  Browser, File, ok, error, bytes_to_base64, binary_from, chunk_size, read_torrent_file_as_data_uri,
  torrent_data_uri_prefix,
}

take_empty : {A : Type 0} (n : ℕ) → [] ≡ take {A = A} n []
take_empty zero = refl
take_empty (suc n) = refl

take-take_add :
    {A : Type 0} → (i n : ℕ) (xs : List A) → take i xs ++ take n (drop i xs) ≡ take (i + n) xs
take-take_add zero n xs = ap (λ k. take k xs) (omega arith)
take-take_add {A = A} (suc i) zero [] = take_empty {A = A} (suc i + zero)
take-take_add {A = A} (suc i) (suc n) [] = take_empty {A = A} (suc i + suc n)
take-take_add (suc i) n (x ∷ xs) =
    let e : suc (i + n) ≡ suc i + n = omega arith in
    ap (◌∷◌ x) (take-take_add i n xs) ∙ ap (λ k. take k (x ∷ xs)) e

take_all : {A : Type 0} (n : ℕ) (xs : List A) → length xs ≤ n → take n xs ≡ xs
take_all zero [] h = refl
take_all (suc n) [] h = refl
take_all zero (x ∷ xs) h = ground arith
take_all (suc n) (x ∷ xs) h = ap (◌∷◌ x) (take_all n xs (omega arith))

-- The loop adds the bytes from i on, given fuel for the bytes that are left.
binary_from_lem :
    (fuel i : ℕ) (bytes : List ℕ)
    → length bytes ≤ i + fuel
    → binary_from fuel i bytes (take i bytes) ≡ bytes
unfolding binary_from
binary_from_lem zero i bytes h = take_all i bytes (omega arith)
binary_from_lem (suc fuel) i bytes h =
    let rest : binary_from fuel (i + chunk_size) bytes (take (i + chunk_size) bytes) ≡ bytes =
      binary_from_lem fuel (i + chunk_size) bytes (omega arith) in
    elim (Bool-cases (ltb i (length bytes))) [
      | inl e ↦ rw (e, take-take_add i chunk_size bytes, rest)
      | inr e ↦ rw e (take_all i bytes (ground arith))
    ]

bytes_to_base64_lem : (js : Browser) (bytes : List ℕ) → bytes_to_base64 js bytes ≡ js.btoa bytes
unfolding bytes_to_base64
bytes_to_base64_lem js bytes = ap js.btoa (binary_from_lem (length bytes) 0 bytes (omega arith))

-- Whether the bytes begin with the byte 100, the start of a bencoded dictionary.
abbrev pub Bencoded : List ℕ → Type 0
Bencoded bytes = (rest : List ℕ) × (bytes ≡ 100 ∷ rest)

is_100 : (b : ℕ) → (b == 100) ≡ true → b ≡ 100
is_100 b e = ground arith

not_100 : (b : ℕ) → (b == 100) ≡ false → b ≢ 100
not_100 b e h = ground arith

nil≢cons : {b : ℕ} {bs : List ℕ} → [] ≢ b ∷ bs
nil≢cons e = ground arith

head_is : {b : ℕ} {bs rest : List ℕ} → b ∷ bs ≡ 100 ∷ rest → b ≡ 100
head_is e = ground arith

read-cases :
    (js : Browser) (file : File) (bytes : List ℕ)
    → file.bytes ≡ bytes
    → (Bencoded file.bytes
        × (read_torrent_file_as_data_uri js file
            ≡ ok (torrent_data_uri_prefix <> js.btoa file.bytes)))
      ⊎ (¬ Bencoded file.bytes
          × (message : String) × (read_torrent_file_as_data_uri js file ≡ error message))
unfolding read_torrent_file_as_data_uri
read-cases js file [] p = inr ((λ (rest, e). nil≢cons (sym p ∙ e)), "File is empty", rw p)
read-cases js file (b ∷ bs) p = elim (Bool-cases (b == 100)) [
  | inl e ↦ inl ((bs, p ∙ ap (λ n. n ∷ bs) (is_100 b e)), rw (p, e, bytes_to_base64_lem))
  | inr e ↦ inr (
    (λ (rest, c). not_100 b e (head_is (sym p ∙ c))),
    "File doesn't look like a torrent (bad magic byte)",
    rw (p, e),
  )
]

-- The data URI of a file is the prefix and the base64 text of all its bytes at once, however many
-- chunks they take; a file that is empty or does not begin with the byte 100 is refused.
pub read_torrent_file_as_data_uri_lem :
    (js : Browser) (file : File)
    → (Bencoded file.bytes
        × (read_torrent_file_as_data_uri js file
            ≡ ok (torrent_data_uri_prefix <> js.btoa file.bytes)))
      ⊎ (¬ Bencoded file.bytes
          × (message : String) × (read_torrent_file_as_data_uri js file ≡ error message))
read_torrent_file_as_data_uri_lem js file = read-cases js file file.bytes refl
