-- ===== src/Provers/Slices.antt =====
-- Indices and ranges of Rust's slices, which panic out of bounds.
use omni_bridge.Prelude.{ℕ, zero, suc, List, [], ◌∷◌}
use omni_bridge.Prelude.Result.{Result, ok, err, ◌>>=◌}

abbrev pub index : List ℕ → ℕ → Result ℕ
index [] i = err "index out of bounds"
index (x ∷ xs) zero = ok x
index (x ∷ xs) (suc i) = index xs i

abbrev pub prefix_of : ℕ → List ℕ → Result (List ℕ)
prefix_of zero xs = ok []
prefix_of (suc n) [] = err "range end index out of range"
prefix_of (suc n) (x ∷ xs) = prefix_of n xs >>= λ ys. ok (x ∷ ys)

-- `&key[i..i + n]`.
abbrev pub slice : List ℕ → ℕ → ℕ → Result (List ℕ)
slice xs zero n = prefix_of n xs
slice [] (suc i) n = err "range end index out of range"
slice (x ∷ xs) (suc i) n = slice xs i n

-- `&xs[i..]`.
abbrev pub range_from : List ℕ → ℕ → Result (List ℕ)
range_from xs zero = ok xs
range_from [] (suc i) = err "range start index out of range"
range_from (x ∷ xs) (suc i) = range_from xs i
