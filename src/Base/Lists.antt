-- ===== src/Base/Lists.antt =====
-- Arrays and byte strings as lists indexed by native numbers.
use Prim.Native.Nat.{ℕ, zero, suc, ◌+◌, ◌-◌, ◌≤◌, ◌<◌, min}
use mathlib.Core.Path.{◌≡◌, refl, ap, sym, ◌∙◌}
use mathlib.Core.List.{List, [], ◌∷◌, ◌++◌}
use native.Mathlib.Omega.{arith}

module _ {ℓ} {A : Type ℓ} where
  abbrev pub length : List A → ℕ
  length [] = 0
  length (x ∷ xs) = suc (length xs)

  abbrev pub get_or : List A → ℕ → A → A
  get_or [] i d = d
  get_or (x ∷ xs) zero d = x
  get_or (x ∷ xs) (suc i) d = get_or xs i d

  -- A write out of bounds changes nothing.
  abbrev pub set : List A → ℕ → A → List A
  set [] i v = []
  set (x ∷ xs) zero v = v ∷ xs
  set (x ∷ xs) (suc i) v = x ∷ set xs i v

  abbrev pub take : ℕ → List A → List A
  take zero xs = []
  take (suc n) [] = []
  take (suc n) (x ∷ xs) = x ∷ take n xs

  abbrev pub drop : ℕ → List A → List A
  drop zero xs = xs
  drop (suc n) [] = []
  drop (suc n) (x ∷ xs) = drop n xs

  abbrev pub replicate : ℕ → A → List A
  replicate zero a = []
  replicate (suc n) a = a ∷ replicate n a

  -- `memcpy(&xs[i], bs, n)`: the part of `bs` that lies within `xs`.
  abbrev pub put_at : List A → ℕ → List A → List A
  put_at [] i bs = []
  put_at (x ∷ xs) zero [] = x ∷ xs
  put_at (x ∷ xs) zero (b ∷ bs) = b ∷ put_at xs zero bs
  put_at (x ∷ xs) (suc i) bs = x ∷ put_at xs i bs

drop-nil {ℓ} : (A : Type ℓ) (n : ℕ) → drop {A = A} n [] ≡ []
drop-nil A zero = refl
drop-nil A (suc n) = refl

module _ {ℓ} {A : Type ℓ} where
  pub length-append : (xs ys : List A) → length (xs ++ ys) ≡ length xs + length ys
  length-append [] ys = omega arith
  length-append (x ∷ xs) ys = omega (arith, length-append xs ys)

  pub length-set : (xs : List A) (i : ℕ) (v : A) → length (set xs i v) ≡ length xs
  length-set [] i v = refl
  length-set (x ∷ xs) zero v = refl
  length-set (x ∷ xs) (suc i) v = ap suc (length-set xs i v)

  pub length-put_at : (xs : List A) (i : ℕ) (bs : List A) → length (put_at xs i bs) ≡ length xs
  length-put_at [] i bs = refl
  length-put_at (x ∷ xs) zero [] = refl
  length-put_at (x ∷ xs) zero (b ∷ bs) = ap suc (length-put_at xs zero bs)
  length-put_at (x ∷ xs) (suc i) bs = ap suc (length-put_at xs i bs)

  pub length-replicate : (n : ℕ) (a : A) → length (replicate n a) ≡ n
  length-replicate zero a = refl
  length-replicate (suc n) a = ap suc (length-replicate n a)

  pub length-drop : (n : ℕ) (xs : List A) → length (drop n xs) ≡ length xs - n
  length-drop zero xs = omega arith
  length-drop (suc n) [] = omega arith
  length-drop (suc n) (x ∷ xs) = omega (arith, length-drop n xs)

  pub length-take : (n : ℕ) (xs : List A) → length (take n xs) ≡ min n (length xs)
  length-take zero xs = omega arith
  length-take (suc n) [] = omega arith
  length-take (suc n) (x ∷ xs) = omega (arith, length-take n xs)

  -- The third number is a variable with an equation, since `a + b` is stuck at variables.
  pub drop-drop : (a b c : ℕ) (xs : List A) → a + b ≡ c → drop b (drop a xs) ≡ drop c xs
  drop-drop zero b c xs e = ap (λ n. drop n xs) (omega arith)
  drop-drop (suc a) b zero xs e = absurd (omega arith)
  drop-drop (suc a) b (suc c) [] e = drop-nil A b
  drop-drop (suc a) b (suc c) (x ∷ xs) e = drop-drop a b c xs (omega arith)

  pub drop-append : (xs ys : List A) (n : ℕ) → length xs ≡ n → drop n (xs ++ ys) ≡ ys
  drop-append [] ys zero e = refl
  drop-append [] ys (suc n) e = absurd (omega arith)
  drop-append (x ∷ xs) ys zero e = absurd (omega arith)
  drop-append (x ∷ xs) ys (suc n) e = drop-append xs ys n (omega arith)

  pub take-take : (n m : ℕ) (xs : List A) → n ≤ m → take n (take m xs) ≡ take n xs
  take-take zero m xs h = refl
  take-take (suc n) zero xs h = absurd (omega arith)
  take-take (suc n) (suc m) [] h = refl
  take-take (suc n) (suc m) (x ∷ xs) h = ap (λ t. x ∷ t) (take-take n m xs (omega arith))

  pub take-append : (xs ys : List A) (n : ℕ) → length xs ≡ n → take n (xs ++ ys) ≡ xs
  take-append [] ys zero e = refl
  take-append [] ys (suc n) e = absurd (omega arith)
  take-append (x ∷ xs) ys zero e = absurd (omega arith)
  take-append (x ∷ xs) ys (suc n) e = ap (λ t. x ∷ t) (take-append xs ys n (omega arith))

  pub take-append_before : (xs ys : List A) (n : ℕ) → n ≤ length xs → take n (xs ++ ys) ≡ take n xs
  take-append_before xs ys zero h = refl
  take-append_before [] ys (suc n) h = absurd (omega arith)
  take-append_before (x ∷ xs) ys (suc n) h =
      ap (λ t. x ∷ t) (take-append_before xs ys n (omega arith))

  -- The third number is a variable with an equation here too.
  pub take-append_after :
      (xs ys : List A) (k n : ℕ) → length xs + k ≡ n → take n (xs ++ ys) ≡ xs ++ take k ys
  take-append_after [] ys k n e = ap (λ m. take m ys) (omega arith)
  take-append_after (x ∷ xs) ys k zero e = absurd (omega arith)
  take-append_after (x ∷ xs) ys k (suc n) e =
      ap (λ t. x ∷ t) (take-append_after xs ys k n (omega arith))

  pub get_or-append_before :
      (xs ys : List A) (i : ℕ) (d : A) → i < length xs → get_or (xs ++ ys) i d ≡ get_or xs i d
  get_or-append_before [] ys i d h = absurd (omega arith)
  get_or-append_before (x ∷ xs) ys zero d h = refl
  get_or-append_before (x ∷ xs) ys (suc i) d h = get_or-append_before xs ys i d (omega arith)

  pub get_or-append_after :
      (xs ys : List A) (k n : ℕ) (d : A) → length xs + k ≡ n → get_or (xs ++ ys) n d ≡ get_or ys k d
  get_or-append_after [] ys k n d e = ap (λ m. get_or ys m d) (omega arith)
  get_or-append_after (x ∷ xs) ys k zero d e = absurd (omega arith)
  get_or-append_after (x ∷ xs) ys k (suc n) d e = get_or-append_after xs ys k n d (omega arith)

  pub take-append-drop : (n : ℕ) (xs : List A) → take n xs ++ drop n xs ≡ xs
  take-append-drop zero xs = refl
  take-append-drop (suc n) [] = refl
  take-append-drop (suc n) (x ∷ xs) = ap (λ t. x ∷ t) (take-append-drop n xs)

  pub get_or-set_self :
      (xs : List A) (i : ℕ) (v d : A) → i < length xs → get_or (set xs i v) i d ≡ v
  get_or-set_self [] i v d h = absurd (omega arith)
  get_or-set_self (x ∷ xs) zero v d h = refl
  get_or-set_self (x ∷ xs) (suc i) v d h = get_or-set_self xs i v d (omega arith)

  pub take-set_before : (xs : List A) (n i : ℕ) (v : A) → n ≤ i → take n (set xs i v) ≡ take n xs
  take-set_before xs zero i v h = refl
  take-set_before [] (suc n) i v h = refl
  take-set_before (x ∷ xs) (suc n) zero v h = absurd (omega arith)
  take-set_before (x ∷ xs) (suc n) (suc i) v h =
      ap (λ t. x ∷ t) (take-set_before xs n i v (omega arith))

  pub take-set_self :
      (xs : List A) (i : ℕ) (v : A)
      → i < length xs
      → take (suc i) (set xs i v) ≡ take i xs ++ v ∷ []
  take-set_self [] i v h = absurd (omega arith)
  take-set_self (x ∷ xs) zero v h = refl
  take-set_self (x ∷ xs) (suc i) v h = ap (λ t. x ∷ t) (take-set_self xs i v (omega arith))

  pub append_cancel_left :
      (xs xs' ys ys' : List A)
      → length xs ≡ length xs'
      → xs ++ ys ≡ xs' ++ ys'
      → (xs ≡ xs') × (ys ≡ ys')
  append_cancel_left xs xs' ys ys' n e = (
    sym (take-append xs ys (length xs) refl)
        ∙ ap (take (length xs)) e
        ∙ take-append xs' ys' (length xs) (sym n),
    sym (drop-append xs ys (length xs) refl)
        ∙ ap (drop (length xs)) e
        ∙ drop-append xs' ys' (length xs) (sym n),
  )

  pub length-put_at_append :
      (xs ys bs : List A) → length bs ≡ length ys → put_at (xs ++ ys) (length xs) bs ≡ xs ++ bs
  length-put_at_append [] [] [] e = refl
  length-put_at_append [] [] (b ∷ bs) e = absurd (omega arith)
  length-put_at_append [] (y ∷ ys) [] e = absurd (omega arith)
  length-put_at_append [] (y ∷ ys) (b ∷ bs) e =
      ap (λ t. b ∷ t) (length-put_at_append [] ys bs (omega arith))
  length-put_at_append (x ∷ xs) ys bs e = ap (λ t. x ∷ t) (length-put_at_append xs ys bs e)
