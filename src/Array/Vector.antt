-- ===== src/Array/Vector.antt =====
-- The growable vector of the vendored klib/kvec.h, as the array functions of src/ucl_util.c use it: the
-- operations, and their documented effect on the elements in order. Allocations do not fail.
use libucl.Base.{ℕ, zero, suc, ◌<◌, ◌≡◌, List, [], ◌∷◌, ◌++◌, Option, none, some, length}

abbrev pub nth : List ℕ → ℕ → Option ℕ
nth [] i = none
nth (x ∷ xs) zero = some x
nth (x ∷ xs) (suc i) = nth xs i

abbrev pub remove_at : List ℕ → ℕ → List ℕ
remove_at [] i = []
remove_at (x ∷ xs) zero = xs
remove_at (x ∷ xs) (suc i) = x ∷ remove_at xs i

abbrev pub set_at : List ℕ → ℕ → ℕ → List ℕ
set_at [] i y = []
set_at (x ∷ xs) zero y = y ∷ xs
set_at (x ∷ xs) (suc i) y = x ∷ set_at xs i y

-- `kv_init`, `kv_push_safe`, `kv_prepend_safe`, `kv_concat_safe`, `kv_del`, `kv_A` read and assigned, and
-- `kv_size`
pub record KVec : Type 1 where
  pub Vec : Type 0
  pub init : Vec
  pub push : Vec → ℕ → Vec
  pub prepend : Vec → ℕ → Vec
  pub concat : Vec → Vec → Vec
  pub del : Vec → ℕ → Vec
  pub at : Vec → ℕ → ℕ
  pub assign : Vec → ℕ → ℕ → Vec
  pub size : Vec → ℕ
  -- The elements in order
  pub items : Vec → List ℕ
  pub items-init : items init ≡ []
  pub items-push : (v : Vec) (x : ℕ) → items (push v x) ≡ items v ++ (x ∷ [])
  pub items-prepend : (v : Vec) (x : ℕ) → items (prepend v x) ≡ x ∷ items v
  pub items-concat : (v w : Vec) → items (concat v w) ≡ items v ++ items w
  pub items-del : (v : Vec) (i : ℕ) → i < size v → items (del v i) ≡ remove_at (items v) i
  pub nth-items : (v : Vec) (i : ℕ) → i < size v → nth (items v) i ≡ some (at v i)
  pub items-assign : (v : Vec) (i x : ℕ) → i < size v → items (assign v i x) ≡ set_at (items v) i x
  pub size-items : (v : Vec) → size v ≡ length (items v)
