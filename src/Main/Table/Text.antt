-- ===== src/Main/Table/Text.antt =====
-- C strings in a buffer.
use panog2_ldr.Base.{
  ℕ, zero, suc, ◌<◌, ◌≤◌, ◌≡◌, ◌≢◌, refl, ap, ap₂, ◌∙◌, sym, arith, List, [], ◌∷◌, take, drop,
  length, get_or, ne→==,
}
use panog2_ldr.Main.Table.{c_string}

-- No byte is 0.
abbrev pub NoZero : List ℕ → Type 0
NoZero [] = Unit
NoZero (c ∷ cs) = (c ≢ 0) × NoZero cs

abbrev tail : List ℕ → List ℕ
tail [] = []
tail (x ∷ xs) = xs

c_string-char : (c : ℕ) (cs : List ℕ) → c ≢ 0 → c_string (c ∷ cs) ≡ c ∷ c_string cs
unfolding c_string
c_string-char c cs h = rw (ne→== c 0 h) refl

c_string-step :
    (c : ℕ) (xs ys : List ℕ)
    → (c ≢ 0 → c_string ys ≡ c_string xs)
    → c_string (c ∷ ys) ≡ c_string (c ∷ xs)
unfolding c_string
c_string-step zero xs ys e = refl
c_string-step (suc c) xs ys e =
    let ne : suc c ≢ 0 = omega arith in
    c_string-char (suc c) ys ne ∙ ap (λ t. suc c ∷ t) (e ne) ∙ sym (c_string-char (suc c) xs ne)

-- A text with a 0 behind it.
pub c_string-text :
    (cs buf : List ℕ)
    → NoZero cs
    → take (length cs) buf ≡ cs
    → get_or buf (length cs) 1 ≡ 0
    → c_string buf ≡ cs
unfolding c_string
c_string-text [] [] z t e = refl
c_string-text [] (b ∷ buf) z t e = rw e refl
c_string-text (c ∷ cs) [] z t e = absurd (omega (arith, ap length t))
c_string-text (c ∷ cs) (b ∷ buf) z t e =
    let same : b ≡ c = ap (λ xs. get_or xs 0 0) t in
    c_string-char b buf (λ h. z.0 (sym same ∙ h))
    ∙ ap₂ ◌∷◌ same (c_string-text cs buf z.1 (ap tail t) e)

-- A string that ends within a part of a buffer is that of each buffer that starts with the part.
pub c_string-part :
    (n : ℕ) (xs ys : List ℕ)
    → length (c_string xs) < n
    → n ≤ length xs
    → take n ys ≡ take n xs
    → c_string ys ≡ c_string xs
unfolding c_string
c_string-part zero xs ys h room e = absurd (omega arith)
c_string-part (suc n) [] ys h room e = absurd (omega arith)
c_string-part (suc n) (x ∷ xs) [] h room e = absurd (omega (arith, ap length e))
c_string-part (suc n) (x ∷ xs) (y ∷ ys) h room e =
    let step : c_string (x ∷ ys) ≡ c_string (x ∷ xs) = c_string-step x xs ys (λ ne.
      let short = ap length (c_string-char x xs ne) in
      c_string-part n xs ys (omega arith) (omega arith) (ap tail e)) in
    ap (λ b. c_string (b ∷ ys)) (ap (λ t. get_or t 0 0) e) ∙ step

-- A later part of a string.
pub c_string-drop :
    (n : ℕ) (buf : List ℕ)
    → n ≤ length (c_string buf)
    → c_string (drop n buf) ≡ drop n (c_string buf)
unfolding c_string
c_string-drop zero buf h = refl
c_string-drop (suc n) [] h = absurd (omega arith)
c_string-drop (suc n) (zero ∷ buf) h = absurd (omega arith)
c_string-drop (suc n) (suc b ∷ buf) h =
    let e : c_string (suc b ∷ buf) ≡ suc b ∷ c_string buf =
      c_string-char (suc b) buf (omega arith) in
    c_string-drop n buf (omega (arith, ap length e)) ∙ ap (drop (suc n)) (sym e)
