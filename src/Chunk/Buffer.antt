-- ===== src/Chunk/Buffer.antt =====
-- Node's `Buffer`, as a list of bytes: the calls that core/src/chunk_engine.ts makes on it.
use swarm_x.Common.{
  ℕ, zero, suc, ◌+◌, ◌-◌, ◌*◌, ◌≤◌, ◌≡◌, refl, sym, ap, ◌∙◌, List, [], ◌∷◌, ◌++◌, arith, length,
  take, drop, length-append,
}

abbrev pub Buffer : Type 0
Buffer = List ℕ

-- `buffer.subarray(start, end)`.
abbrev pub subarray : Buffer → ℕ → ℕ → Buffer
subarray b start end = take (end - start) (drop start b)

-- `source.copy(target, offset)`, which returns the new content of the target. What does not fit is
-- not written.
abbrev pub copy_into : Buffer → Buffer → ℕ → Buffer
copy_into source target offset =
    take offset target
    ++ take (length target - offset) source
    ++ drop (offset + length source) target

pub take-all {ℓ} : {A : Type ℓ} (n : ℕ) (xs : List A) → length xs ≤ n → take n xs ≡ xs
take-all zero [] h = refl
take-all zero (x ∷ xs) h = absurd (omega arith)
take-all (suc n) [] h = refl
take-all (suc n) (x ∷ xs) h = ap (λ r. x ∷ r) (take-all n xs (omega arith))

pub take-append {ℓ} : {A : Type ℓ} (n : ℕ) (xs ys : List A) → length xs ≡ n → take n (xs ++ ys) ≡ xs
take-append zero [] ys h = refl
take-append zero (x ∷ xs) ys h = absurd (omega arith)
take-append (suc n) [] ys h = absurd (omega arith)
take-append (suc n) (x ∷ xs) ys h = ap (λ r. x ∷ r) (take-append n xs ys (omega arith))

pub drop-append {ℓ} : {A : Type ℓ} (n : ℕ) (xs ys : List A) → length xs ≡ n → drop n (xs ++ ys) ≡ ys
drop-append zero [] ys h = refl
drop-append zero (x ∷ xs) ys h = absurd (omega arith)
drop-append (suc n) [] ys h = absurd (omega arith)
drop-append (suc n) (x ∷ xs) ys h = drop-append n xs ys (omega arith)

drop-nil {ℓ} : {A : Type ℓ} (m : ℕ) → drop {A = A} m [] ≡ []
drop-nil zero = refl
drop-nil (suc m) = refl

suc_add : (n m : ℕ) → suc (n + m) ≡ suc n + m
suc_add n m = omega arith

pub drop-drop {ℓ} : {A : Type ℓ} (m n : ℕ) (xs : List A) → drop m (drop n xs) ≡ drop (n + m) xs
drop-drop m zero xs = ap (λ k. drop k xs) (omega arith)
drop-drop m (suc n) [] = drop-nil m ∙ ap (λ k. drop k []) (suc_add n m)
drop-drop m (suc n) (x ∷ xs) = drop-drop m n xs ∙ ap (λ k. drop k (x ∷ xs)) (suc_add n m)

-- A copy right behind what is written already.
pub copy_into-append :
    (done source rest : Buffer) (offset : ℕ)
    → length done ≡ offset
    → length source ≤ length rest
    → copy_into source (done ++ rest) offset ≡ (done ++ source) ++ drop (length source) rest
copy_into-append done source rest offset e fits =
    let head = take-append offset done rest e in
    let all =
      take-all (length (done ++ rest) - offset) source
        (omega (arith, length-append {0} done rest)) in
    let behind : drop (offset + length source) (done ++ rest) ≡ drop (length source) rest =
      sym (drop-drop (length source) offset (done ++ rest))
      ∙ ap (drop (length source)) (drop-append offset done rest e) in
    rw (head, all, behind)

pub take-append-drop {ℓ} : {A : Type ℓ} (n : ℕ) (xs : List A) → take n xs ++ drop n xs ≡ xs
take-append-drop zero xs = refl
take-append-drop (suc n) [] = refl
take-append-drop (suc n) (x ∷ xs) = ap (λ r. x ∷ r) (take-append-drop n xs)

pub drop-all {ℓ} : {A : Type ℓ} (n : ℕ) (xs : List A) → length xs ≤ n → drop n xs ≡ []
drop-all zero [] h = refl
drop-all zero (x ∷ xs) h = absurd (omega arith)
drop-all (suc n) [] h = refl
drop-all (suc n) (x ∷ xs) h = drop-all n xs (omega arith)

-- The bytes of some rows of a buffer whose rows have `stride` bytes.
abbrev pub rows_slice : ℕ → Buffer → ℕ → ℕ → Buffer
rows_slice stride b row_start row_count = take (row_count * stride) (drop (row_start * stride) b)

pub rows_slice-append :
    (stride : ℕ) (b : Buffer) (row_start row_count : ℕ)
    → rows_slice stride b row_start row_count ++ drop ((row_start + row_count) * stride) b
      ≡ drop (row_start * stride) b
rows_slice-append stride b row_start row_count =
    ap (λ r. rows_slice stride b row_start row_count ++ r)
      (ap (λ offset. drop offset b) (omega arith)
        ∙ sym (drop-drop (row_count * stride) (row_start * stride) b))
    ∙ take-append-drop (row_count * stride) (drop (row_start * stride) b)

-- Two pieces of a buffer that lie one behind the other.
take-nil {ℓ} : {A : Type ℓ} (m : ℕ) → take {A = A} m [] ≡ []
take-nil zero = refl
take-nil (suc m) = refl

pub take-take-drop {ℓ} :
    {A : Type ℓ} (n m : ℕ) (xs : List A) → take n xs ++ take m (drop n xs) ≡ take (n + m) xs
take-take-drop zero m xs = ap (λ k. take k xs) (omega arith)
take-take-drop (suc n) m [] = take-nil m ∙ sym (take-nil (suc n + m))
take-take-drop (suc n) m (x ∷ xs) =
    ap (λ r. x ∷ r) (take-take-drop n m xs) ∙ ap (λ k. take k (x ∷ xs)) (suc_add n m)
