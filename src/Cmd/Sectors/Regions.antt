-- ===== src/Cmd/Sectors/Regions.antt =====
-- What `map` shows: the flash as a list of runs of sectors that are erased, or in use.
pub mod Walk
pub mod Loop
pub mod Command
use panog2_ldr.Base.{
  ℕ, zero, suc, ◌+◌, ◌-◌, ◌*◌, ◌/◌, ◌≡◌, ◌≢◌, ◌⊎◌, inl, inr, refl, ap, ap₂, ◌∙◌, arith, Bool, true,
  false, not, List, [], ◌∷◌, ◌++◌, replicate, bytes, all_ones, if◌then◌else◌,
}
use panog2_ldr.Console.{Console, map_start, map_region}
use panog2_ldr.Cmd.Sectors.{same_flag}

-- Whether the `k` sectors of `size` bytes from address `a` on are erased.
abbrev pub verdicts : (ℕ → ℕ) → ℕ → ℕ → ℕ → List Bool
verdicts m size zero a = []
verdicts m size (suc k) a = all_ones (bytes m a size) ∷ verdicts m size k (a + size)

-- Runs of equal flags: `n` times `b` so far, and then a list.
unfoldable pub runs : ℕ → Bool → List Bool → List (ℕ × Bool)
runs n b [] = (n, b) ∷ []
runs n b (c ∷ cs) =
    let longer = runs (n + 1) b cs in
    let next = (n, b) ∷ runs 1 c cs in if same_flag b c then longer else next

abbrev pub expand : List (ℕ × Bool) → List Bool
expand [] = []
expand ((n, b) ∷ rs) = replicate n b ++ expand rs

-- A run differs from the one before it.
abbrev pub Alternates : List (ℕ × Bool) → Type 0
Alternates [] = Unit
Alternates (r ∷ []) = Unit
Alternates ((n, b) ∷ (k, c) ∷ rs) = (b ≢ c) × Alternates ((k, c) ∷ rs)

-- The sectors of a list of flags.
abbrev pub all_runs : List Bool → List (ℕ × Bool)
all_runs [] = []
all_runs (b ∷ bs) = runs 1 b bs

replicate-add :
    (n : ℕ) (b : Bool) (bs : List Bool) → replicate (n + 1) b ++ bs ≡ replicate n b ++ b ∷ bs
replicate-add n b bs = ap (λ k. replicate k b ++ bs) {y = suc n} (omega arith) ∙ go n
  where
    go : (k : ℕ) → replicate (suc k) b ++ bs ≡ replicate k b ++ b ∷ bs
    go zero = refl
    go (suc k) = ap (λ t. b ∷ t) (go k)

runs-expand : (n : ℕ) (b : Bool) (bs : List Bool) → expand (runs n b bs) ≡ replicate n b ++ bs
unfolding runs
runs-expand n b [] = refl
runs-expand n true (true ∷ bs) = runs-expand (n + 1) true bs ∙ replicate-add n true bs
runs-expand n false (false ∷ bs) = runs-expand (n + 1) false bs ∙ replicate-add n false bs
runs-expand n true (false ∷ bs) = ap (λ t. replicate n true ++ t) (runs-expand 1 false bs)
runs-expand n false (true ∷ bs) = ap (λ t. replicate n false ++ t) (runs-expand 1 true bs)

-- The first run of a list has its flag.
Starts : Bool → List (ℕ × Bool) → Type 0
Starts b [] = Unit
Starts b ((n, c) ∷ rs) = c ≡ b

prefixed :
    (n : ℕ) (b c : Bool) (rs : List (ℕ × Bool))
    → b ≢ c
    → Starts c rs × Alternates rs
    → Alternates ((n, b) ∷ rs)
unfolding Starts
prefixed n b c [] ne h = tt
prefixed n b c ((k, d) ∷ rs) ne h = (λ e. ne (e ∙ h.0), h.1)

runs-Alternates :
    (n : ℕ) (b : Bool) (bs : List Bool) → Starts b (runs n b bs) × Alternates (runs n b bs)
unfolding runs Starts
runs-Alternates n b [] = (refl, tt)
runs-Alternates n true (true ∷ bs) = runs-Alternates (n + 1) true bs
runs-Alternates n false (false ∷ bs) = runs-Alternates (n + 1) false bs
runs-Alternates n true (false ∷ bs) =
    (refl, prefixed n true false (runs 1 false bs) (λ h. cc) (runs-Alternates 1 false bs))
runs-Alternates n false (true ∷ bs) =
    (refl, prefixed n false true (runs 1 true bs) (λ h. cc) (runs-Alternates 1 true bs))

pub all_runs-expand : (bs : List Bool) → expand (all_runs bs) ≡ bs
all_runs-expand [] = refl
all_runs-expand (b ∷ bs) = runs-expand 1 b bs

pub all_runs-Alternates : (bs : List Bool) → Alternates (all_runs bs)
all_runs-Alternates [] = tt
all_runs-Alternates (b ∷ bs) = (runs-Alternates 1 b bs).1

module _ (con : Console) (size : ℕ) where
  -- The line of a run of sectors: its first address, its last, its size in KB, and whether it is erased.
  abbrev pub show_end : ℕ → ℕ → Bool → con.Net → con.Net
  show_end a k b n = con.print (map_region (a + k * size - 1) (k * size / 1024) b) n

  abbrev pub show_start : ℕ → con.Net → con.Net
  show_start a n = con.wait_empty (con.print (map_start a) n)

  abbrev pub show_runs : ℕ → List (ℕ × Bool) → con.Net → con.Net
  show_runs a [] n = n
  show_runs a ((k, b) ∷ rs) n = show_runs (a + k * size) rs (show_end a k b (show_start a n))

  -- The same, when the start of the first line has been shown.
  abbrev pub show_rest : ℕ → List (ℕ × Bool) → con.Net → con.Net
  show_rest a [] n = n
  show_rest a ((k, b) ∷ rs) n = show_runs (a + k * size) rs (show_end a k b n)

pub runs_same :
    (n : ℕ) (b v : Bool) (bs : List Bool) → v ≡ b → runs n b (v ∷ bs) ≡ runs (n + 1) b bs
unfolding runs
runs_same n true true bs h = refl
runs_same n false false bs h = refl
runs_same n true false bs h = cc
runs_same n false true bs h = cc

pub runs_new :
    (n : ℕ) (b v : Bool) (bs : List Bool)
    → v ≡ not b
    → runs n b (v ∷ bs) ≡ (n, b) ∷ runs 1 (not b) bs
unfolding runs
runs_new n true false bs h = refl
runs_new n false true bs h = refl
runs_new n true true bs h = cc
runs_new n false false bs h = cc

pub flag-cases : (v b : Bool) → (v ≡ b) ⊎ (v ≡ not b)
flag-cases true true = inl refl
flag-cases false false = inl refl
flag-cases true false = inr refl
flag-cases false true = inr refl

-- Runs are shown by their first line, and then the rest.
pub show_runs-start :
    (con : Console) (size a n : ℕ) (b : Bool) (bs : List Bool) (net : con.Net)
    → show_runs con size a (runs n b bs) net
      ≡ show_rest con size a (runs n b bs) (show_start con size a net)
unfolding runs
show_runs-start con size a n b [] net = refl
show_runs-start con size a n true (true ∷ bs) net = show_runs-start con size a (n + 1) true bs net
show_runs-start con size a n false (false ∷ bs) net =
    show_runs-start con size a (n + 1) false bs net
show_runs-start con size a n true (false ∷ bs) net = refl
show_runs-start con size a n false (true ∷ bs) net = refl
