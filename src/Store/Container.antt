-- ===== src/Store/Container.antt =====
-- `ucl_parser_process_object_element` on a container whose keys are distinct: which object stands under
-- the key afterwards, by strategy and priority, and that the keys stay distinct.
use libucl.Base.{
  ℕ, ◌+◌, ◌<◌, ◌≡◌, ◌≢◌, refl, sym, ap, ◌∙◌, arith, Bool, true, false, not, ltb, ◌==◌,
  if◌then◌else◌, List, [], ◌∷◌, ◌++◌, Option, none, some, Bytes, All, Bool-cases, Option-cases, inl,
  inr,
}
use mathlib.Core.Path.{subst}
use libucl.Store.{
  Config, Parser, Obj, object, Strategy, append, merge, rewrite, error, key_eq, search_entries,
  replace_entries, is_container,
}
use libucl.Store.Keys.{
  key_eq_refl, Distinct, search-none-All, search-append, All-append, Distinct-append, key_eq-left,
  All-replace, Distinct-replace, search-replace-same, search-replace-other,
}

-- A container with the entries `es`: their keys are distinct, and each is the key of its object, which
-- is older than `fresh` and not the container.
pub record Container (caseless : Bool) (cell : ℕ → Obj) (fresh c : ℕ) (es : List (Bytes × ℕ))
    : Type 0 where
  pub payload_is : (cell c).payload ≡ object es
  pub alone : (cell c).siblings ≡ []
  pub distinct : Distinct caseless es
  pub named : All (λ (e : Bytes × ℕ). ((cell e.1).key ≡ e.0) × (e.1 ≢ c) × (e.1 < fresh)) es

-- The strategy where two objects have one key: which stands under it afterwards. `n` is the next fresh
-- pointer, where an explicit array is made.
abbrev pub by_age : Config → (ℕ → Obj) → ℕ → ℕ → ℕ → ℕ → ℕ → ℕ
by_age cfg cell n old new priold prinew =
    if priold == prinew
    then (if not cfg.no_implicit_arrays then old else if (cell old).multivalue then old else n)
    else if ltb prinew priold
    then old
    else new

abbrev pub winner : Strategy → Config → (ℕ → Obj) → ℕ → ℕ → ℕ → ℕ
winner error cfg cell n old new = old
winner rewrite cfg cell n old new = new
winner append cfg cell n old new =
    by_age cfg cell n old new (cell old).priority
      (if (cell old).inherited then (cell old).priority + 1 else (cell new).priority)
winner merge cfg cell n old new =
    if is_container (cell old).payload
    then old
    else by_age cfg cell n old new (cell old).priority (cell new).priority

abbrev pub holder : Config → (ℕ → Obj) → ℕ → Option ℕ → ℕ → ℕ
holder cfg cell n none new = new
holder cfg cell n (some old) new = winner cfg.strategy cfg cell n old new

-- The container afterwards: `r` stands under the key `k`, and other keys have the objects they had.
pub record Holding (caseless : Bool) (cell : ℕ → Obj) (fresh c : ℕ) (es : List (Bytes × ℕ))
    (k : Bytes) (r : ℕ) : Type 0 where
  pub entries : List (Bytes × ℕ)
  pub container : Container caseless cell fresh c entries
  pub found : search_entries caseless k entries ≡ some r
  pub others :
      (j : Bytes)
      → key_eq caseless k j ≡ false
      → search_entries caseless j entries ≡ search_entries caseless j es

pub found-under :
    (caseless : Bool) (k : Bytes) (r : ℕ) (P : Bytes × ℕ → Type 0) (es : List (Bytes × ℕ))
    → All P es
    → search_entries caseless k es ≡ some r
    → (j : Bytes) × P (j, r) × (key_eq caseless j k ≡ true)
unfolding search_entries
found-under caseless k r P [] h e = cc
found-under caseless k r P ((j, s) ∷ es) (h, hs) e = elim (Bool-cases (key_eq caseless j k)) [
  | inl a ↦
      let same : some s ≡ some r =
        ap (λ b. if b then some s else search_entries caseless k es) (sym a) ∙ e in
      (j, subst (λ x. P (j, x)) (ap (λ o. elim o [ none ↦ s | some x ↦ x ]) same) h, a)
  | inr a ↦
      found-under caseless k r P es hs
        (ap (λ b. if b then some s else search_entries caseless k es) (sym a) ∙ e)
]

module _ (cfg : Config) (p q : Parser) (c : ℕ) (es : List (Bytes × ℕ))
    (ct : Container cfg.key_lowercase p.cell p.fresh c es)
    (keep : (r : ℕ) → r < p.fresh → (q.cell r).key ≡ (p.cell r).key) (le : p.fresh < q.fresh + 1)
    (alone : (q.cell c).siblings ≡ []) where
  abbrev Named : Bytes × ℕ → Type 0
  Named e = ((q.cell e.1).key ≡ e.0) × (e.1 ≢ c) × (e.1 < q.fresh)

  still-Named :
      (ds : List (Bytes × ℕ))
      → All (λ (e : Bytes × ℕ). ((p.cell e.1).key ≡ e.0) × (e.1 ≢ c) × (e.1 < p.fresh)) ds
      → All Named ds
  still-Named [] h = tt
  still-Named (e ∷ ds) ((hk, ne, lt), h) =
      ((keep e.1 lt ∙ hk, ne, omega (arith, lt, le)), still-Named ds h)

  pub Holding-same :
      (k : Bytes) (r : ℕ)
      → (q.cell c).payload ≡ (p.cell c).payload
      → search_entries cfg.key_lowercase k es ≡ some r
      → Holding cfg.key_lowercase q.cell q.fresh c es k r
  Holding-same k r h hs = record {
    entries = es;
    container = record {
      payload_is = h ∙ ct.payload_is;
      alone = alone;
      distinct = ct.distinct;
      named = still-Named es ct.named;
    };
    found = hs;
    others = λ j e. refl;
  }

  pub Holding-added :
      (k : Bytes) (new : ℕ)
      → (q.cell c).payload ≡ object (es ++ ((k, new) ∷ []))
      → (q.cell new).key ≡ k
      → new ≢ c
      → new < q.fresh
      → search_entries cfg.key_lowercase k es ≡ none
      → Holding cfg.key_lowercase q.cell q.fresh c es k new
  Holding-added k new h hk ne lt hs = record {
    entries = es ++ ((k, new) ∷ []);
    container = record {
      payload_is = h;
      alone = alone;
      distinct =
          Distinct-append cfg.key_lowercase es k new (search-none-All cfg.key_lowercase k es hs)
            ct.distinct;
      named = All-append cfg.key_lowercase Named es (k, new) (still-Named es ct.named) (hk, ne, lt);
    };
    found =
        search-append cfg.key_lowercase k k new es ∙ rw (hs, key_eq_refl cfg.key_lowercase k) refl;
    others = λ j e.
        search-append cfg.key_lowercase j k new es
        ∙ elim (Option-cases (search_entries cfg.key_lowercase j es)) [
          | inl a ↦ rw (a, e) refl
          | inr (r, a) ↦ rw a refl
        ];
  }

  pub Holding-replaced :
      (k name : Bytes) (old new : ℕ)
      → (q.cell c).payload ≡ object (replace_entries cfg.key_lowercase (p.cell old).key name new es)
      → key_eq cfg.key_lowercase (p.cell old).key name ≡ true
      → key_eq cfg.key_lowercase (p.cell old).key k ≡ true
      → (q.cell new).key ≡ name
      → new ≢ c
      → new < q.fresh
      → search_entries cfg.key_lowercase k es ≡ some old
      → Holding cfg.key_lowercase q.cell q.fresh c es k new
  Holding-replaced k name old new h same hk hn ne lt hs = record {
    entries = replace_entries cfg.key_lowercase (p.cell old).key name new es;
    container = record {
      payload_is = h;
      alone = alone;
      distinct = Distinct-replace cfg.key_lowercase (p.cell old).key name new same es ct.distinct;
      named =
          All-replace cfg.key_lowercase (p.cell old).key name new same Named es
            (still-Named es ct.named) (hn, ne, lt);
    };
    found = search-replace-same cfg.key_lowercase (p.cell old).key name new same k old es hk hs;
    others = λ j e.
        search-replace-other cfg.key_lowercase (p.cell old).key name new same j es
          (key_eq-left cfg.key_lowercase (p.cell old).key k j hk ∙ e);
  }
