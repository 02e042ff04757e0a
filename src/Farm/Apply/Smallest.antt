-- ===== src/Farm/Apply/Smallest.antt =====
-- The candidate of the automatic harvest, against its description.
use farm_server.Base.{
  ℕ, ◌≤◌, ◌≡◌, refl, ◌⊎◌, inl, inr, Option, none, some, [], ◌∷◌, Dict, lookup, IsDistinct, arith,
  Bool-cases, ◌==◌, ==_iff, subst, sym,
}
use farm_server.Farm.{Time, Plot, mature}
use farm_server.Farm.Growth.{effective_status}
use farm_server.Farm.Apply.{better, smallest_from, smallest_mature_plot_id}

-- A mature plot of the map.
abbrev pub MatureAt : Dict Plot → Time → ℕ → Type 0
MatureAt plots now k = (p : Plot) × (lookup k plots ≡ some p) × (effective_status p now ≡ mature)

abbrev pub IsLeast : Dict Plot → Time → Option ℕ → Type 0
IsLeast plots now none = (j : ℕ) → ¬ MatureAt plots now j
IsLeast plots now (some k) = MatureAt plots now k × ((j : ℕ) → MatureAt plots now j → k ≤ j)

better-cases :
    (best : Option ℕ) (id : ℕ) (p : Plot) (now : Time) (k : ℕ)
    → better best id p now ≡ some k
    → (best ≡ some k) ⊎ ((k ≡ id) × (effective_status p now ≡ mature))
unfolding better
better-cases best id p now k h = ground arith

smallest_from-MatureAt :
    (best : Option ℕ) (plots : Dict Plot) (now : Time) (k : ℕ)
    → IsDistinct plots
    → smallest_from best plots now ≡ some k
    → (best ≡ some k) ⊎ MatureAt plots now k
unfolding smallest_from
smallest_from-MatureAt best [] now k d h = inl h
smallest_from-MatureAt best ((id, p) ∷ plots) now k d h =
    elim (smallest_from-MatureAt (better best id p now) plots now k d.1 h) [
      | inl e ↦ elim (better-cases best id p now k e) [
        | inl old ↦ inl old
        | inr (here, m) ↦ inr (p, ground arith, m)
      ]
      | inr (q, found, m) ↦ inr (q, ground arith, m)
    ]

-- What the loop returns is at most what it had.
abbrev AtMost : Option ℕ → ℕ → Type 0
AtMost none j = ⊥
AtMost (some k) j = k ≤ j

smallest_from-best :
    (best : Option ℕ) (plots : Dict Plot) (now : Time) (b : ℕ)
    → AtMost best b
    → AtMost (smallest_from best plots now) b
unfolding smallest_from better
smallest_from-best best [] now b h = h
smallest_from-best best ((id, p) ∷ plots) now b h =
    smallest_from-best (better best id p now) plots now b (ground arith)

better-le :
    (best : Option ℕ) (id : ℕ) (p : Plot) (now : Time)
    → effective_status p now ≡ mature
    → AtMost (better best id p now) id
unfolding better
better-le best id p now m = ground arith

smallest_from-le :
    (best : Option ℕ) (plots : Dict Plot) (now : Time) (j : ℕ)
    → MatureAt plots now j
    → AtMost (smallest_from best plots now) j
unfolding smallest_from
smallest_from-le best [] now j (p, found, m) = cc
smallest_from-le best ((id, q) ∷ plots) now j (p, found, m) = elim (Bool-cases (j == id)) [
  | inl here ↦ smallest_from-best (better best id q now) plots now j (
      subst (AtMost (better best id q now)) (sym ((==_iff j id).0 here))
        (better-le best id q now (ground arith)))
  | inr there ↦ smallest_from-le (better best id q now) plots now j (p, ground arith, m)
]

-- The scan of `smallest_mature_plot_id` returns the least id of a mature plot, and nothing exactly
-- when no plot is mature, in whatever order the map is visited.
pub smallest_mature_plot_id-IsLeast :
    (plots : Dict Plot) (now : Time)
    → IsDistinct plots
    → IsLeast plots now (smallest_mature_plot_id plots now)
unfolding smallest_mature_plot_id
smallest_mature_plot_id-IsLeast plots now d = go (smallest_from none plots now) refl
  where
    go : (r : Option ℕ) → smallest_from none plots now ≡ r → IsLeast plots now r
    go none e = λ j m. subst (λ r. AtMost r j) e (smallest_from-le none plots now j m)
    go (some k) e = (
      elim (smallest_from-MatureAt none plots now k d e) [ inl n ↦ cc | inr m ↦ m ],
      λ j m. subst (λ r. AtMost r j) e (smallest_from-le none plots now j m),
    )
