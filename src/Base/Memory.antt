-- ===== src/Base/Memory.antt =====
-- The C library's `memcmp` and what a `memcpy` to the start of a buffer leaves.
use Prim.Native.Nat.{ℕ, zero, suc, ◌+◌, ◌≤◌}
use mathlib.Core.Path.{◌≡◌, refl, ap}
use mathlib.Core.Bool.{Bool, true, false, ◌&&◌}
use mathlib.Core.List.{List, [], ◌∷◌, ◌++◌}
use native.Mathlib.Omega.{arith}
use panog2_ldr.Base.Nums.{◌==◌, if◌then◌else◌}
use panog2_ldr.Base.Lists.{length, take, drop, put_at, replicate}

-- `memcmp(a, b, n) == 0`, of buffers of one length.
unfoldable pub same_bytes : List ℕ → List ℕ → Bool
same_bytes [] [] = true
same_bytes [] (y ∷ ys) = false
same_bytes (x ∷ xs) [] = false
same_bytes (x ∷ xs) (y ∷ ys) = let rest = same_bytes xs ys in if x == y then rest else false

pub same_bytes_self : (xs : List ℕ) → same_bytes xs xs ≡ true
unfolding same_bytes
same_bytes_self [] = refl
same_bytes_self (x ∷ xs) = ground (arith, same_bytes_self xs)

pub same_bytes-eq : (xs ys : List ℕ) → same_bytes xs ys ≡ true → xs ≡ ys
unfolding same_bytes
same_bytes-eq [] [] h = refl
same_bytes-eq [] (y ∷ ys) h = cc
same_bytes-eq (x ∷ xs) [] h = cc
same_bytes-eq (x ∷ xs) (y ∷ ys) h = ground (arith, same_bytes-eq xs ys)

pub take-put_at :
    (ram bs : List ℕ) (n : ℕ) → length bs ≡ n → n ≤ length ram → take n (put_at ram 0 bs) ≡ bs
take-put_at ram [] zero e h = refl
take-put_at ram [] (suc n) e h = absurd (omega arith)
take-put_at ram (b ∷ bs) zero e h = absurd (omega arith)
take-put_at [] (b ∷ bs) (suc n) e h = absurd (omega arith)
take-put_at (r ∷ ram) (b ∷ bs) (suc n) e h =
    ap (λ t. b ∷ t) (take-put_at ram bs n (omega arith) (omega arith))

-- All bytes are 0xff.
unfoldable pub all_ones : List ℕ → Bool
all_ones [] = true
all_ones (b ∷ bs) = let rest = all_ones bs in if b == 255 then rest else false

pub same_bytes_ones : (bs : List ℕ) → same_bytes bs (replicate (length bs) 255) ≡ all_ones bs
unfolding same_bytes all_ones
same_bytes_ones [] = refl
same_bytes_ones (b ∷ bs) = ap (λ r. if b == 255 then r else false) (same_bytes_ones bs)

pub all_ones-append : (xs ys : List ℕ) → all_ones (xs ++ ys) ≡ all_ones xs && all_ones ys
unfolding all_ones
all_ones-append [] ys = refl
all_ones-append (x ∷ xs) ys = ground (arith, all_ones-append xs ys)

pub drop-put_at : (ram bs : List ℕ) (n : ℕ) → length bs ≡ n → drop n (put_at ram 0 bs) ≡ drop n ram
drop-put_at ram [] zero e = none_put ram
  where
    none_put : (xs : List ℕ) → put_at xs 0 [] ≡ xs
    none_put [] = refl
    none_put (x ∷ xs) = refl
drop-put_at ram [] (suc n) e = absurd (omega arith)
drop-put_at ram (b ∷ bs) zero e = absurd (omega arith)
drop-put_at [] (b ∷ bs) (suc n) e = refl
drop-put_at (r ∷ ram) (b ∷ bs) (suc n) e = drop-put_at ram bs n (omega arith)

-- What a `memcpy` to offset `i` leaves there.
pub take-drop-put_at :
    (ram bs : List ℕ) (i n : ℕ)
    → length bs ≡ n
    → i + n ≤ length ram
    → take n (drop i (put_at ram i bs)) ≡ bs
take-drop-put_at ram bs zero n e h = take-put_at ram bs n e (omega arith)
take-drop-put_at [] bs (suc i) n e h = absurd (omega arith)
take-drop-put_at (r ∷ ram) bs (suc i) n e h = take-drop-put_at ram bs i n e (omega arith)
