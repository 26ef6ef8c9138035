-- ===== src/Base/Bytes.antt =====
-- The bytes of a memory from an address on, and little-endian 32-bit words.
use Prim.Native.Nat.{ℕ, zero, suc, ◌+◌, ◌*◌, ◌/◌, ◌%◌, ◌^◌, ◌≤◌, ◌<◌}
use mathlib.Core.Path.{◌≡◌, refl, sym, ap, ap₂, ◌∙◌}
use mathlib.Core.List.{List, [], ◌∷◌, ◌++◌}
use native.Mathlib.Omega.{arith}
use panog2_ldr.Base.Lists.{length, get_or, take, replicate}

-- The `n` bytes of memory `m` from address `a` on.
abbrev pub bytes : (ℕ → ℕ) → ℕ → ℕ → List ℕ
bytes m a zero = []
bytes m a (suc n) = m a ∷ bytes m (a + 1) n

pub length-bytes : (m : ℕ → ℕ) (a n : ℕ) → length (bytes m a n) ≡ n
length-bytes m a zero = refl
length-bytes m a (suc n) = ap suc (length-bytes m (a + 1) n)

-- Two memories that agree on a range show the same bytes there.
pub bytes_ext :
    (m k : ℕ → ℕ) (a n : ℕ) → ((x : ℕ) → a ≤ x → x < a + n → m x ≡ k x) → bytes m a n ≡ bytes k a n
bytes_ext m k a zero h = refl
bytes_ext m k a (suc n) h =
    ap₂ ◌∷◌ (h a (omega arith) (omega arith))
      (bytes_ext m k (a + 1) n (λ x p q. h x (omega arith) (omega arith)))

pub bytes-add :
    (m : ℕ → ℕ) (a b c n : ℕ)
    → a + n ≡ b
    → (k : ℕ) → n + k ≡ c
    → bytes m a c ≡ bytes m a n ++ bytes m b k
bytes-add m a b c zero e k e' =
    let p : a ≡ b = omega arith in let q : k ≡ c = omega arith in ap₂ (λ x y. bytes m x y) p (sym q)
bytes-add m a b zero (suc n) e k e' = absurd (omega arith)
bytes-add m a b (suc c) (suc n) e k e' =
    ap (λ t. m a ∷ t) (bytes-add m (a + 1) b c n (omega arith) k (omega arith))

pub take-bytes : (m : ℕ → ℕ) (a n k : ℕ) → k ≤ n → take k (bytes m a n) ≡ bytes m a k
take-bytes m a n zero h = refl
take-bytes m a zero (suc k) h = absurd (omega arith)
take-bytes m a (suc n) (suc k) h = ap (λ t. m a ∷ t) (take-bytes m (a + 1) n k (omega arith))

-- What a memory shows at an address is what the list of its bytes holds at the offset.
pub get_or-bytes : (m : ℕ → ℕ) (a n i : ℕ) → i < n → get_or (bytes m a n) i 0 ≡ m (a + i)
get_or-bytes m a zero i h = absurd (omega arith)
get_or-bytes m a (suc n) zero h = ap m (omega arith)
get_or-bytes m a (suc n) (suc i) h = get_or-bytes m (a + 1) n i (omega arith) ∙ ap m (omega arith)

-- The memory that shows a list from an address on.
pub bytes_of_get_or :
    (m : ℕ → ℕ) (xs : List ℕ) (a n : ℕ)
    → length xs ≡ n
    → ((i : ℕ) → i < n → m (a + i) ≡ get_or xs i 0)
    → bytes m a n ≡ xs
bytes_of_get_or m [] a zero e h = refl
bytes_of_get_or m [] a (suc n) e h = absurd (omega arith)
bytes_of_get_or m (x ∷ xs) a zero e h = absurd (omega arith)
bytes_of_get_or m (x ∷ xs) a (suc n) e h = ap₂ ◌∷◌ (ap m (omega arith) ∙ h 0 (omega arith)) (
    bytes_of_get_or m xs (a + 1) n (omega arith)
      (λ i p. ap m (omega arith) ∙ h (suc i) (omega arith)))

pub bytes_const :
    (m : ℕ → ℕ) (v a n : ℕ) → ((x : ℕ) → a ≤ x → x < a + n → m x ≡ v) → bytes m a n ≡ replicate n v
bytes_const m v a zero h = refl
bytes_const m v a (suc n) h =
    ap₂ ◌∷◌ (h a (omega arith) (omega arith))
      (bytes_const m v (a + 1) n (λ x p q. h x (omega arith) (omega arith)))

-- `*(uint32_t *)` on a little-endian machine: of four bytes, and the four bytes of a value.
abbrev pub of_le32 : ℕ → ℕ → ℕ → ℕ → ℕ
of_le32 a b c d = a + b * 2 ^ 8 + c * 2 ^ 16 + d * 2 ^ 24

abbrev pub le32 : ℕ → List ℕ
le32 v = (v % 2 ^ 8) ∷ (v / 2 ^ 8 % 2 ^ 8) ∷ (v / 2 ^ 16 % 2 ^ 8) ∷ (v / 2 ^ 24 % 2 ^ 8) ∷ []
