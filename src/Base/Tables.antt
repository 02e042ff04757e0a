-- ===== src/Base/Tables.antt =====
-- Go maps with numeric keys as association lists, and database tables as functions.
use Prim.Native.Nat.{ℕ, suc, ◌+◌}
use mathlib.Core.Path.{◌≡◌, refl}
use mathlib.Core.Logic.{◌⊎◌, inl, inr}
use mathlib.Core.Option.{Option, none, some}
use mathlib.Core.List.{List, [], ◌∷◌, ◌++◌}
use native.Mathlib.Omega.{arith}
use farm_server.Base.Tests.{◌==◌, if◌then◌else◌}

module _ {ℓ} {A : Type ℓ} where
  abbrev pub length : List A → ℕ
  length [] = 0
  length (x ∷ xs) = suc (length xs)

  pub length-append : (xs ys : List A) → length (xs ++ ys) ≡ length xs + length ys
  length-append [] ys = omega arith
  length-append (x ∷ xs) ys = omega (arith, length-append xs ys)

abbrev pub All {ℓ κ} : {A : Type ℓ} → (A → Type κ) → List A → Type κ
All P [] = Unit
All P (x ∷ xs) = P x × All P xs

pub data IsIn {A : Type 0} (x : A) : List A → Type 0 where
  first : {xs : List A} → IsIn x (x ∷ xs)
  later : {y : A} {xs : List A} → IsIn x xs → IsIn x (y ∷ xs)

pub IsIn-cases : {A : Type 0} {x y : A} {ys : List A} → IsIn x (y ∷ ys) → (x ≡ y) ⊎ IsIn x ys
IsIn-cases first = inl refl
IsIn-cases (later i) = inr i

pub All-IsIn {κ} : {A : Type 0} (P : A → Type κ) {x : A} {xs : List A} → All P xs → IsIn x xs → P x
All-IsIn P h first = h.0
All-IsIn P h (later i) = All-IsIn P h.1 i

pub All-append {κ} :
    {A : Type 0} (P : A → Type κ) (xs ys : List A) → All P xs → All P ys → All P (xs ++ ys)
All-append P [] ys h k = k
All-append P (x ∷ xs) ys h k = (h.0, All-append P xs ys h.1 k)

pub All-map {κ μ} :
    {A : Type 0} (P : A → Type κ) (Q : A → Type μ) (xs : List A)
    → ((x : A) → P x → Q x)
    → All P xs
    → All Q xs
All-map P Q [] f h = tt
All-map P Q (x ∷ xs) f h = (f x h.0, All-map P Q xs f h.1)

-- A Go map, as the list of its entries in the order in which one `range` loop visits them.
abbrev pub Dict {ℓ} : Type ℓ → Type ℓ
Dict V = List (ℕ × V)

module _ {ℓ} {V : Type ℓ} where
  abbrev pub lookup : ℕ → Dict V → Option V
  lookup k [] = none
  lookup k ((j, v) ∷ d) = if k == j then some v else lookup k d

  abbrev pub erase : ℕ → Dict V → Dict V
  erase k [] = []
  erase k ((j, v) ∷ d) = if k == j then erase k d else (j, v) ∷ erase k d

  -- `d[k] = v`
  abbrev pub insert : ℕ → V → Dict V → Dict V
  insert k v d = (k, v) ∷ erase k d

  pub lookup-erase :
      (j k : ℕ) (d : Dict V) → lookup j (erase k d) ≡ (if j == k then none else lookup j d)
  lookup-erase j k [] = ground arith
  lookup-erase j k (e ∷ d) = ground (arith, lookup-erase j k d)

  pub lookup-insert :
      (j k : ℕ) (v : V) (d : Dict V)
      → lookup j (insert k v d) ≡ (if j == k then some v else lookup j d)
  lookup-insert j k v d = ground (arith, lookup-erase j k d)

  -- No key has two entries.
  abbrev pub IsDistinct : Dict V → Type ℓ
  IsDistinct [] = Unit
  IsDistinct ((k, v) ∷ d) = (lookup k d ≡ none) × IsDistinct d

  pub erase_absent : (k : ℕ) (d : Dict V) → lookup k d ≡ none → erase k d ≡ d
  erase_absent k [] h = refl
  erase_absent k (e ∷ d) h = ground (arith, erase_absent k d)

  pub erase-IsDistinct : (k : ℕ) (d : Dict V) → IsDistinct d → IsDistinct (erase k d)
  erase-IsDistinct k [] h = tt
  erase-IsDistinct k (e ∷ d) h = ground (arith, erase-IsDistinct k d h.1, lookup-erase e.0 k d)

  pub insert-IsDistinct : (k : ℕ) (v : V) (d : Dict V) → IsDistinct d → IsDistinct (insert k v d)
  insert-IsDistinct k v d h = (rw lookup-erase (ground arith), erase-IsDistinct k d h)

  pub All-erase {κ} : (P : ℕ × V → Type κ) (k : ℕ) (d : Dict V) → All P d → All P (erase k d)
  All-erase P k [] h = tt
  All-erase P k (e ∷ d) h = ground (arith, All-erase P k d h.1)

  pub All-lookup {κ} :
      (P : ℕ × V → Type κ) (k : ℕ) (v : V) (d : Dict V) → All P d → lookup k d ≡ some v → P (k, v)
  All-lookup P k v [] h e = cc
  All-lookup P k v ((j, w) ∷ d) h e = ground (arith, All-lookup P k v d h.1)

-- A table with a numeric key: writing one row.
abbrev pub put {ℓ} : {V : Type ℓ} → ℕ → V → (ℕ → V) → ℕ → V
put k v f j = if j == k then v else f j
