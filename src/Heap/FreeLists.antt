-- ===== src/Heap/FreeLists.antt =====
-- The free lists of kernel/mm/heap.c, as how often each address is in each.
use eter_os.Base.{ℕ, ◌+◌, ◌≤◌, ◌≡◌, true, List, [], ◌∷◌, ◌==◌, if◌then◌else◌, arith, ℕ_discrete}
use eter_os.Heap.{Block, get_bucket_index, unlink, add_to_free_list, remove_from_free_list, add_all}
use eter_os.Heap.Blocks.{total, listed}

abbrev pub count : ℕ → List ℕ → ℕ
count a [] = 0
count a (x ∷ xs) = (if x == a then 1 else 0) + count a xs

count-unlink :
    (a x : ℕ) (xs : List ℕ)
    → 1 ≤ count x xs
    → count a (unlink x xs) + (if x == a then 1 else 0) ≡ count a xs
unfolding unlink
count-unlink a x [] h = absurd (omega (arith, h))
count-unlink a x (y ∷ ys) h = elim (ℕ_discrete y x) [
  | yes e ↦ ground arith
  | no e ↦ ground (arith, count-unlink a x ys)
]

pub count-remove :
    (b : Block) (buckets : ℕ → List ℕ) (k a : ℕ)
    → b.is_free ≡ true
    → 1 ≤ count b.addr (buckets (get_bucket_index b.size))
    → count a (remove_from_free_list b buckets k) + listed k a b ≡ count a (buckets k)
unfolding remove_from_free_list
count-remove b buckets k a free h = elim (ℕ_discrete k (get_bucket_index b.size)) [
  | yes e ↦ ground (arith, count-unlink a b.addr (buckets (get_bucket_index b.size)) h)
  | no e ↦ ground arith
]

pub count-add :
    (b : Block) (buckets : ℕ → List ℕ) (k a : ℕ)
    → count a (add_to_free_list b buckets k) ≡ count a (buckets k) + listed k a b
unfolding add_to_free_list
count-add b buckets k a = elim (ℕ_discrete k (get_bucket_index b.size)) [
  | yes e ↦ ground arith
  | no e ↦ ground arith
]

pub count-add_all :
    (bs : List Block) (buckets : ℕ → List ℕ) (k a : ℕ)
    → count a (add_all bs buckets k) ≡ count a (buckets k) + total (listed k a) bs
unfolding add_all
count-add_all [] buckets k a = omega arith
count-add_all (b ∷ bs) buckets k a =
    omega (arith, count-add_all bs (add_to_free_list b buckets) k a, count-add b buckets k a)
