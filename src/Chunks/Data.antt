-- ===== src/Chunks/Data.antt =====
-- The chunks of some bytes: put together they are the bytes, and each is within the size.
use embedspicedb.Common.{
  ℕ, zero, suc, ◌+◌, ◌-◌, ◌≤◌, ◌<◌, ◌≡◌, refl, ◌∙◌, Bool, true, false, List, [], ◌∷◌, ◌++◌, arith,
  length, take, drop, ltb, if◌then◌else◌, All, sym,
}
use embedspicedb.Common.Str.{Str}
use embedspicedb.Chunks.{chunk_data, chunks_from, slice}

abbrev pub join : List Str → Str
join [] = []
join (c ∷ cs) = c ++ join cs

length-drop : (n : ℕ) (s : Str) → length (drop n s) ≡ length s - n
length-drop zero s = ground arith
length-drop (suc n) [] = ground arith
length-drop (suc n) (b ∷ s) = ground (arith, length-drop n s)

length-take : (n : ℕ) (s : Str) → n ≤ length s → length (take n s) ≡ n
length-take zero s h = refl
length-take (suc n) [] h = ground arith
length-take (suc n) (b ∷ s) h = ground (arith, length-take n s)

take-all : (n : ℕ) (s : Str) → length s ≤ n → take n s ≡ s
take-all zero [] h = refl
take-all zero (b ∷ s) h = ground arith
take-all (suc n) [] h = refl
take-all (suc n) (b ∷ s) h = ground (arith, take-all n s)

drop-all : (n : ℕ) (s : Str) → length s ≤ n → drop n s ≡ []
drop-all zero [] h = refl
drop-all zero (b ∷ s) h = ground arith
drop-all (suc n) [] h = refl
drop-all (suc n) (b ∷ s) h = ground (arith, drop-all n s)

take-append-drop : (k : ℕ) (s : Str) → take k s ++ drop k s ≡ s
take-append-drop zero s = refl
take-append-drop (suc k) [] = refl
take-append-drop (suc k) (b ∷ s) = ground (arith, take-append-drop k s)

drop-suc : (n m b : ℕ) (s : Str) → n ≡ suc m → drop n (b ∷ s) ≡ drop m s
drop-suc n m b s e = rw e refl

drop-drop : (i k : ℕ) (s : Str) → drop (i + k) s ≡ drop k (drop i s)
drop-drop zero k s = ground arith
drop-drop (suc i) k [] = ground (arith, drop-all (suc i + k) [], drop-all k [])
drop-drop (suc i) k (b ∷ s) = drop-suc (suc i + k) (i + k) b s (omega arith) ∙ drop-drop i k s

pub append_assoc : (r s t : Str) → (r ++ s) ++ t ≡ r ++ (s ++ t)
append_assoc [] s t = refl
append_assoc (b ∷ r) s t = ground (arith, append_assoc r s t)

pub append-empty : (s : Str) → s ++ [] ≡ s
append-empty [] = refl
append-empty (b ∷ s) = ground (arith, append-empty s)

cancel : (i k : ℕ) → (i + k) - i ≡ k
cancel i k = omega arith

-- One turn of the loop takes the bytes between two indices.
slice_step :
    (size i : ℕ) (s : Str)
    → slice s i (if ltb (length s) (i + size) then length s else i + size) ++ drop (i + size) s
      ≡ drop i s
slice_step size i s = go (ltb (length s) (i + size)) (λ e. ground arith) (λ e. ground arith)
  where
    go :
        (b : Bool)
        → (b ≡ true → length s < i + size)
        → (b ≡ false → i + size ≤ length s)
        → slice s i (if b then length s else i + size) ++ drop (i + size) s ≡ drop i s
    go true l g = ground (
      arith,
      l refl,
      drop-all (i + size) s,
      take-all (length s - i) (drop i s),
      length-drop i s,
      append-empty (drop i s),
    )
    go false l g = rw (drop-drop i size s) (rw (cancel i size) (take-append-drop size (drop i s)))

join-chunks_from :
    (fuel size i : ℕ) (s : Str)
    → 0 < size
    → length s ≤ fuel + i
    → join (chunks_from fuel size i s) ≡ drop i s
unfolding chunks_from
join-chunks_from zero size i s p h = sym (drop-all i s (omega arith))
join-chunks_from (suc fuel) size i s p h =
    ground (arith, join-chunks_from fuel size (i + size) s, drop-all i s, slice_step size i s)

-- Put together, the chunks of some bytes are the bytes, where the size of a chunk is positive.
pub join-chunk_data : (size : ℕ) (blob : Str) → 0 < size → join (chunk_data size blob) ≡ blob
unfolding chunk_data
join-chunk_data size [] p = refl
join-chunk_data size (b ∷ blob) p =
    join-chunks_from (length (b ∷ blob)) size 0 (b ∷ blob) p (omega arith)

-- A chunk has at least one byte and at most the size.
abbrev pub WithinSize : ℕ → Str → Type 0
WithinSize size c = (0 < length c) × (length c ≤ size)

chunks_from-WithinSize :
    (fuel size i : ℕ) (s : Str) → 0 < size → All (WithinSize size) (chunks_from fuel size i s)
unfolding chunks_from
chunks_from-WithinSize zero size i s p = ground arith
chunks_from-WithinSize (suc fuel) size i s p = ground (
  arith,
  chunks_from-WithinSize fuel size (i + size) s,
  length-drop i s,
  length-take size (drop i s),
  length-take (length s - i) (drop i s),
)

-- Every chunk has at least one byte and at most as many as the positive size, and put together the
-- chunks are the bytes.
pub chunk_data_bounds :
    (size : ℕ) (blob : Str)
    → 0 < size
    → All (WithinSize size) (chunk_data size blob) × (join (chunk_data size blob) ≡ blob)
unfolding chunk_data
chunk_data_bounds size [] p = ground arith
chunk_data_bounds size (b ∷ blob) p = (
  chunks_from-WithinSize (length (b ∷ blob)) size 0 (b ∷ blob) p,
  join-chunk_data size (b ∷ blob) p,
)
