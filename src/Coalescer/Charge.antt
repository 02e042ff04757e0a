-- ===== src/Coalescer/Charge.antt =====
-- A bucket holds the quantity of the distinct requests that joined it
-- (server/internal/gateway/http/economy_coalescer.go).
use farm_server.Base.{
  ℕ, ◌+◌, ◌≤◌, ◌≡◌, refl, arith, Bool, true, false, not, ◌||◌, String, List, [], ◌∷◌, ◌++◌, ◌==◌,
  str_eq, eq_iff, if◌then◌else◌,
}
use farm_server.Farm.{max_economy_quantity}
use farm_server.Coalescer.{Waiter, Bucket, seen_qty, new_bucket, join_bucket, note_key, is_empty}

abbrev pub has_key : String → List Waiter → Bool
has_key k [] = false
has_key k (w ∷ ws) = if str_eq k w.key then true else has_key k ws

abbrev is_known : String → List String → Bool
is_known k [] = false
is_known k (j ∷ js) = if str_eq k j then true else is_known k js

-- The quantities of the first request of each key that is not known.
abbrev pub charge_from : List String → List Waiter → ℕ
charge_from known [] = 0
charge_from known (w ∷ ws) =
    (if is_known w.key known then 0 else w.qty) + charge_from (w.key ∷ known) ws

-- What the distinct requests among these ask for.
abbrev pub charge : List Waiter → ℕ
charge ws = charge_from [] ws

charge-append :
    (known : List String) (ws : List Waiter) (w : Waiter)
    → charge_from known (ws ++ w ∷ [])
      ≡ charge_from known ws + (if is_known w.key known || has_key w.key ws then 0 else w.qty)
charge-append known [] w = ground arith
charge-append known (x ∷ ws) w =
    ground (arith, charge-append (x.key ∷ known) ws w, eq_iff w.key x.key)

has_key-append :
    (k : String) (ws : List Waiter) (w : Waiter)
    → has_key k (ws ++ w ∷ []) ≡ (has_key k ws || str_eq k w.key)
has_key-append k [] w = ground arith
has_key-append k (x ∷ ws) w = ground (arith, has_key-append k ws w)

abbrev pub count : ℕ → List Waiter → ℕ
count c [] = 0
count c (w ∷ ws) = (if w.channel == c then 1 else 0) + count c ws

pub count-append :
    (c : ℕ) (ws : List Waiter) (w : Waiter) → count c (ws ++ w ∷ []) ≡ count c (w ∷ ws)
count-append c [] w = omega arith
count-append c (x ∷ ws) w = omega (arith, count-append c ws w)

pub record IsClosed (b : Bucket) : Type 0 where
  pub charged : b.total_qty ≡ charge b.waiters
  pub bounded : b.total_qty ≤ max_economy_quantity
  pub positive : is_empty b.waiters ≡ false → 1 ≤ b.total_qty

-- The bucket in the map also knows exactly the keys of its requests.
pub record IsOpen (b : Bucket) : Type 0 where
  pub closed : IsClosed b
  pub known : (k : String) → (seen_qty k b.seen == 0) ≡ not (has_key k b.waiters)

pub new-IsOpen : IsOpen new_bucket
unfolding seen_qty
new-IsOpen = record {
  closed = record { charged = refl; bounded = omega arith; positive = λ e. cc };
  known = λ k. refl;
}

is_empty-append : (ws : List Waiter) (w : Waiter) → is_empty (ws ++ w ∷ []) ≡ false
is_empty-append [] w = refl
is_empty-append (x ∷ ws) w = refl

has_key-nonempty : (k : String) (ws : List Waiter) → has_key k ws ≡ true → is_empty ws ≡ false
has_key-nonempty k [] h = cc
has_key-nonempty k (w ∷ ws) h = refl

module _ (w : Waiter) (b : Bucket) (h : IsOpen b) where
  pub repeat-IsOpen : (seen_qty w.key b.seen == 0) ≡ false → IsOpen (join_bucket w 0 b)
  unfolding join_bucket
  repeat-IsOpen e = record {
    closed = record {
      charged = ground (arith, h.closed.charged, charge-append [] b.waiters w, h.known w.key);
      bounded = omega (arith, h.closed.bounded);
      positive = λ x. omega (
        arith,
        h.closed.positive (has_key-nonempty w.key b.waiters (ground (arith, h.known w.key))),
      );
    };
    known =
        λ k. ground (arith, h.known k, h.known w.key, has_key-append k b.waiters w, eq_iff k w.key);
  }

  pub first-IsOpen :
      (seen_qty w.key b.seen == 0) ≡ true
      → 1 ≤ w.qty
      → b.total_qty + w.qty ≤ max_economy_quantity
      → IsOpen (join_bucket w w.qty (note_key w b))
  unfolding join_bucket seen_qty
  first-IsOpen e q fits = record {
    closed = record {
      charged = ground (arith, h.closed.charged, charge-append [] b.waiters w, h.known w.key);
      bounded = fits;
      positive = λ x. omega (arith, q);
    };
    known = λ k. ground (arith, h.known k, has_key-append k b.waiters w);
  }
