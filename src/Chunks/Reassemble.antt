-- ===== src/Chunks/Reassemble.antt =====
-- Reassembly: when it gives bytes, and that it undoes the numbering of the chunks.
use embedspicedb.Common.{
  ℕ, zero, suc, ◌+◌, ◌≤◌, ◌<◌, ◌≡◌, ◌≢◌, ◌↔◌, refl, none, some, List, [], ◌∷◌, ◌++◌, arith, length,
  get_elem?, Bool-cases, ◌==◌, ==_iff, ◌⊎◌, ◌-◌, ap, sym, ◌∙◌, Option-cases, inl, inr,
}
use embedspicedb.Common.Int.{ℤ, pos, negsuc, ltb_ℤ}
use embedspicedb.Common.Str.{Str}
use embedspicedb.Common.GoMap.{GoMap, lookup}
use embedspicedb.Common.Result.{ok}
use embedspicedb.Chunks.{reassemble_chunks, gather, max_index, max_ℤ, turns, int_Eq}
use embedspicedb.Chunks.Data.{join, append-empty, append_assoc}

-- chunk i, chunk i + 1, ... under their numbers, as the rows of a name are read.
abbrev pub numbered : ℕ → List Str → GoMap ℤ Str
numbered i [] = []
numbered i (c ∷ cs) = (pos i, c) ∷ numbered (suc i) cs

gather_complete :
    (n i : ℕ) (m : GoMap ℤ Str) (r : Str)
    → ((j : ℕ) → i ≤ j → j < n + i → lookup (pos j) m ≢ none)
    → (out : Str) × (gather n i m r ≡ ok out)
unfolding gather
gather_complete zero i m r h = (r, refl)
gather_complete (suc n) i m r h = elim (Option-cases (lookup (pos i) m)) [
  | inl gone ↦ ground (arith, h i)
  | inr (c, held) ↦
      let (out, e) =
        gather_complete n (suc i) m (r ++ c) (λ j a b. h j (omega arith) (omega arith)) in
      (out, ground arith)
]

gather_ok :
    (n i : ℕ) (m : GoMap ℤ Str) (r out : Str)
    → gather n i m r ≡ ok out
    → (j : ℕ) → i ≤ j
    → j < n + i
    → lookup (pos j) m ≢ none
unfolding gather
gather_ok zero i m r out h j a b = ground arith
gather_ok (suc n) i m r out h j a b = elim (Option-cases (lookup (pos i) m)) [
  | inl gone ↦ ground arith
  | inr (c, held) ↦ ground (arith, gather_ok n (suc i) m (r ++ c) out (ground arith) j)
]

max_ℤ-turns : (a b : ℤ) → (turns a ≤ turns (max_ℤ a b)) × (turns b ≤ turns (max_ℤ a b))
max_ℤ-turns (pos a) (pos b) = (ground arith, ground arith)
max_ℤ-turns (pos a) (negsuc b) = (ground arith, ground arith)
max_ℤ-turns (negsuc a) (pos b) = (ground arith, ground arith)
max_ℤ-turns (negsuc a) (negsuc b) = (ground arith, ground arith)

max_ℤ-cases : (a b : ℤ) → (max_ℤ a b ≡ a) ⊎ (max_ℤ a b ≡ b)
max_ℤ-cases a b = elim (Bool-cases (ltb_ℤ a b)) [
  | inl less ↦ inr (ground arith)
  | inr not_less ↦ inl (ground arith)
]

-- A chunk that is there is within the turns.
lookup-turns : (i : ℕ) (m : GoMap ℤ Str) → lookup (pos i) m ≢ none → i < turns (max_index m)
unfolding lookup
lookup-turns i [] h = ground arith
lookup-turns i ((pos n, c) ∷ m) h = elim (Bool-cases (n == i)) [
  | inl same ↦ ground (arith, ==_iff n i, max_ℤ-turns (pos n) (max_index m))
  | inr other ↦ ground (arith, lookup-turns i m, max_ℤ-turns (pos n) (max_index m))
]
lookup-turns i ((negsuc n, c) ∷ m) h =
    ground (arith, lookup-turns i m, max_ℤ-turns (negsuc n) (max_index m))

-- The last turn is that of a chunk that is there.
turns-lookup :
    (j : ℕ) (m : GoMap ℤ Str)
    → j < turns (max_index m)
    → (i : ℕ) × (j ≤ i) × (lookup (pos i) m ≢ none)
unfolding lookup
turns-lookup j [] h = ground arith
turns-lookup j ((k, c) ∷ m) h = elim (max_ℤ-cases k (max_index m)) [
  | inl here ↦ first k (ground (arith, h, here))
  | inr there ↦
      let (i, l, e) = turns-lookup j m (ground (arith, h, there)) in (i, l, λ q. ground (arith, e))
]
  where
    first : (x : ℤ) → j < turns x → (i : ℕ) × (j ≤ i) × (lookup (pos i) ((x, c) ∷ m) ≢ none)
    first (pos n) l = (n, omega arith, λ q. ground (arith, ==_iff n n))
    first (negsuc n) l = ground arith

-- Reassembly gives bytes just when there is a chunk and, with each chunk of an index that is not
-- negative, those of all the smaller ones from 0 on are there too.
pub reassemble_chunks_ok_iff :
    (m : GoMap ℤ Str)
    → ((out : Str) × (reassemble_chunks m ≡ ok out))
      ↔ ((m ≢ []) × ((i j : ℕ) → lookup (pos i) m ≢ none → j ≤ i → lookup (pos j) m ≢ none))
unfolding reassemble_chunks
reassemble_chunks_ok_iff [] = (λ (out, e). ground arith, λ (h, k). ground arith)
reassemble_chunks_ok_iff (c ∷ m) = (
  λ (out, e). (
    λ q. ground arith,
    λ i j l b.
        gather_ok (turns (max_index (c ∷ m))) 0 (c ∷ m) [] out e j (omega arith)
          (omega (arith, lookup-turns i (c ∷ m) l)),
  ),
  λ (h, k).
      gather_complete (turns (max_index (c ∷ m))) 0 (c ∷ m) []
        (λ j a b. let (i, l, e) = turns-lookup j (c ∷ m) (omega arith) in k i j e l),
)

-- The numbered chunks end at the last number.
turns-numbered :
    (i : ℕ) (c : Str) (cs : List Str)
    → turns (max_index (numbered i (c ∷ cs))) ≡ i + length (c ∷ cs)
turns-numbered i c [] = ground arith
turns-numbered i c (d ∷ cs) = ground (arith, turns-numbered (suc i) d cs)

get_elem?-shift :
    (c : Str) (cs : List Str) (i j : ℕ)
    → suc i ≤ j
    → get_elem? (c ∷ cs) (j - i) ≡ get_elem? cs (j - suc i)
get_elem?-shift c cs i j h = go (j - i) (j - suc i) (omega arith)
  where
    go : (m n : ℕ) → m ≡ suc n → get_elem? (c ∷ cs) m ≡ get_elem? cs n
    go m n e = rw e refl

get_elem?-first : (c : Str) (cs : List Str) (i j : ℕ) → i ≡ j → get_elem? (c ∷ cs) (j - i) ≡ some c
get_elem?-first c cs i j h = go (j - i) (omega arith)
  where
    go : (m : ℕ) → m ≡ 0 → get_elem? (c ∷ cs) m ≡ some c
    go m e = rw e refl

lookup-numbered :
    (i j : ℕ) (cs : List Str) → i ≤ j → lookup (pos j) (numbered i cs) ≡ get_elem? cs (j - i)
unfolding lookup
lookup-numbered i j [] h = refl
lookup-numbered i j (c ∷ cs) h = elim (Bool-cases (i == j)) [
  | inl e ↦ ground (arith, get_elem?-first c cs i j)
  | inr e ↦ ground (arith, lookup-numbered (suc i) j cs, get_elem?-shift c cs i j)
]

gather-agrees :
    (i : ℕ) (m : GoMap ℤ Str) (cs : List Str) (r : Str)
    → ((j : ℕ) → i ≤ j → lookup (pos j) m ≡ get_elem? cs (j - i))
    → gather (length cs) i m r ≡ ok (r ++ join cs)
unfolding gather
gather-agrees i m [] r h = ap ok (sym (append-empty r))
gather-agrees i m (c ∷ cs) r h = ground (
  arith,
  h i,
  get_elem?-first c cs i i refl,
  append_assoc r c (join cs),
  gather-agrees (suc i) m cs (r ++ c) (λ j l. h j (omega arith) ∙ get_elem?-shift c cs i j l),
)

-- Chunks that are numbered from 0 on are put together in their order.
pub reassemble_chunks-numbered :
    (cs : List Str) → cs ≢ [] → reassemble_chunks (numbered 0 cs) ≡ ok (join cs)
unfolding reassemble_chunks
reassemble_chunks-numbered [] h = ground arith
reassemble_chunks-numbered (c ∷ cs) h = ground (
  arith,
  turns-numbered 0 c cs,
  gather-agrees 0 (numbered 0 (c ∷ cs)) (c ∷ cs) [] (λ j l. lookup-numbered 0 j (c ∷ cs) l),
)
