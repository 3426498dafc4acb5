-- ===== src/Array/Refines.antt =====
-- The array functions do on their vector what the commands do on a list.
use libucl.Base.{
  ℕ, suc, ◌+◌, ◌-◌, ◌%◌, ◌^◌, ◌<◌, ◌≤◌, ◌≡◌, refl, sym, ap, ◌∙◌, arith, false, ltb, ◌==◌, ◌&&◌,
  if◌then◌else◌, List, [], ◌∷◌, ◌++◌, Option, none, some, length, length-append, Bool-cases, inl,
  inr,
}
use mathlib.Core.Path.{subst}
use libucl.Array.Vector.{KVec, nth, remove_at}
use libucl.Array.Ops.{
  Array, found, missing, endless, array_append, array_prepend, array_delete, array_pop_last,
  array_pop_first, array_replace_index,
}
use libucl.Array.Spec.{
  Command, append, prepend, delete, pop_last, pop_first, replace_index, Result, delete_first,
  without_last, without_first, spec, spec_all, exec, and_then, exec_all, elements, WellFormed,
}
use libucl.Array.Index.{scan_of, search_from, index_from-search}
use libucl.Array.Elements.{
  length-spec, length-remove_at, length-set_at, nth-beyond, set_at-beyond, without_last-lem,
  without_first-lem, no-elements, some-injective,
}

module _ (K : KVec) where
  -- Where the scan for `x` from `i` on over the elements `ys` leads
  abbrev Scanned : ℕ → List ℕ → ℕ → Option ℕ → Type 0
  Scanned x ys i none = delete_first x ys ≡ (none, ys)
  Scanned x ys i (some j) =
      (n : ℕ) × (j ≡ i + n) × (n < length ys) × (delete_first x ys ≡ (some x, remove_at ys n))

  Scanned-later :
      (x y : ℕ) (ys : List ℕ) (i : ℕ) (o : Option ℕ)
      → (y == x) ≡ false
      → Scanned x ys (suc i) o
      → Scanned x (y ∷ ys) i o
  Scanned-later x y ys i none ne h = rw (ne, h) refl
  Scanned-later x y ys i (some j) ne (n, hj, lt, h) =
      (suc n, omega (arith, hj), omega arith, rw (ne, h) refl)

  search_from-Scanned :
      (v : K.Vec) (x : ℕ) (ys : List ℕ) (i : ℕ)
      → ((n : ℕ) → n < length ys → nth ys n ≡ some (K.at v (i + n)))
      → Scanned x ys i (search_from K v x (length ys) i)
  unfolding search_from
  search_from-Scanned v x [] i h = refl
  search_from-Scanned v x (y ∷ ys) i h =
      let first : y ≡ K.at v i =
        some-injective y (K.at v i) (h 0 (omega arith) ∙ ap (λ k. some (K.at v k)) (omega arith)) in
      let later =
        search_from-Scanned v x ys (suc i)
          (λ n lt. h (suc n) (omega arith) ∙ ap (λ k. some (K.at v k)) (omega arith)) in
      elim (Bool-cases (y == x)) [
        | inl a ↦
            subst
              (λ b.
                Scanned x (y ∷ ys) i (if b then some i else search_from K v x (length ys) (suc i)))
              (sym a ∙ ap (λ k. k == x) first) (0, omega arith, omega arith, rw a refl)
        | inr a ↦
            subst
              (λ b.
                Scanned x (y ∷ ys) i (if b then some i else search_from K v x (length ys) (suc i)))
              (sym a ∙ ap (λ k. k == x) first)
              (Scanned-later x y ys i (search_from K v x (length ys) (suc i)) a later)
      ]

  -- The result of a function is that of its command, and `len` still counts the elements.
  pub record Refined (out : Option ℕ × Array K) (result : Result) : Type 0 where
    pub returns : out.0 ≡ result.0
    pub elements_are : elements K out.1 ≡ result.1
    pub well_formed : WellFormed K out.1

  Refined-same :
      (a : Array K) (r : Result) → WellFormed K a → r ≡ (none, elements K a) → Refined (none, a) r
  Refined-same a r w h = record {
    returns = sym (ap (λ (x : Result). x.0) h);
    elements_are = sym (ap (λ (x : Result). x.1) h);
    well_formed = w;
  }

  in-range : (v : K.Vec) (i : ℕ) → i < length (K.items v) → i < K.size v
  in-range v i lt = omega (arith, K.size-items v)

  -- An element at an index is taken out.
  Refined-del :
      (v : K.Vec) (len i : ℕ) (r : Result)
      → len ≡ length (K.items v) % 2 ^ 32
      → i < length (K.items v)
      → r ≡ (nth (K.items v) i, remove_at (K.items v) i)
      → Refined
          (some (K.at v i), record { av = some (K.del v i); len = (len + (2 ^ 32 - 1)) % 2 ^ 32 })
          r
  Refined-del v len i r w lt h =
      let del_is = K.items-del v i (in-range v i lt) in
      record {
        returns = sym (K.nth-items v i (in-range v i lt)) ∙ sym (ap (λ (x : Result). x.0) h);
        elements_are = del_is ∙ sym (ap (λ (x : Result). x.1) h);
        well_formed =
            ap (λ n. (n + (2 ^ 32 - 1)) % 2 ^ 32) w
            ∙ omega (arith, length-remove_at (K.items v) i lt, ap length del_is);
      }

  empty-elements : (v : K.Vec) → ltb 0 (K.size v) ≡ false → K.items v ≡ []
  empty-elements v h =
      let none_left : K.size v ≡ 0 = ground arith in
      no-elements (K.items v) (omega (arith, K.size-items v, none_left))

  Refined-pop_last :
      (av : Option K.Vec) (len : ℕ)
      → WellFormed K (record { av = av; len = len })
      → Refined
          (array_pop_last K (record { av = av; len = len }))
          (without_last (elements K (record { av = av; len = len })))
  unfolding array_pop_last
  Refined-pop_last none len w = Refined-same (record { av = none; len = len }) _ w refl
  Refined-pop_last (some v) len w = elim (Bool-cases (ltb 0 (K.size v))) [
    | inl h ↦
        let pos : 0 < K.size v = ground arith in
        rw h (
          Refined-del v len (K.size v - 1) _ w (omega (arith, K.size-items v, pos))
            (without_last-lem (K.items v) (K.size v - 1) (omega (arith, K.size-items v, pos))))
    | inr h ↦
        rw h (Refined-same (record { av = some v; len = len }) _ w (rw (empty-elements v h) refl))
  ]

  Refined-pop_first :
      (av : Option K.Vec) (len : ℕ)
      → WellFormed K (record { av = av; len = len })
      → Refined
          (array_pop_first K (record { av = av; len = len }))
          (without_first (elements K (record { av = av; len = len })))
  unfolding array_pop_first
  Refined-pop_first none len w = Refined-same (record { av = none; len = len }) _ w refl
  Refined-pop_first (some v) len w = elim (Bool-cases (ltb 0 (K.size v))) [
    | inl h ↦
        let pos : 0 < K.size v = ground arith in
        rw h (
          Refined-del v len 0 _ w (omega (arith, K.size-items v, pos))
            (without_first-lem (K.items v) (omega (arith, K.size-items v, pos))))
    | inr h ↦
        rw h (Refined-same (record { av = some v; len = len }) _ w (rw (empty-elements v h) refl))
  ]

  -- The function ends, with what its command says.
  abbrev RefinedBy : Option (Option ℕ × Array K) → Result → Type 0
  RefinedBy run r = (out : Option ℕ × Array K) × (run ≡ some out) × Refined out r

  Refined-Scanned :
      (v : K.Vec) (x len : ℕ) (o : Option ℕ)
      → len ≡ length (K.items v) % 2 ^ 32
      → Scanned x (K.items v) 0 o
      → RefinedBy
          (elim (scan_of o) [
            | missing ↦ some (none, record { av = some v; len = len })
            | found i ↦
                some (some x, record { av = some (K.del v i); len = (len + (2 ^ 32 - 1)) % 2 ^ 32 })
            | endless ↦ none
          ])
          (delete_first x (K.items v))
  Refined-Scanned v x len none w h =
      (_, refl, Refined-same (record { av = some v; len = len }) _ w h)
  Refined-Scanned v x len (some i) w (n, hi, lt, h) =
      let index : n ≡ i = omega (arith, hi) in
      let del_is = K.items-del v i (in-range v i (omega (arith, index, lt))) in
      let out : delete_first x (K.items v) ≡ (some x, remove_at (K.items v) i) =
        h ∙ ap (λ k. (some x, remove_at (K.items v) k)) index in
      (
        _,
        refl,
        record {
          returns = sym (ap (λ (r : Result). r.0) out);
          elements_are = del_is ∙ sym (ap (λ (r : Result). r.1) out);
          well_formed =
              ap (λ k. (k + (2 ^ 32 - 1)) % 2 ^ 32) w
              ∙ omega (
                arith,
                length-remove_at (K.items v) i (omega (arith, index, lt)),
                ap length del_is,
              );
        },
      )

  Refined-delete :
      (av : Option K.Vec) (len x : ℕ)
      → WellFormed K (record { av = av; len = len })
      → length (elements K (record { av = av; len = len })) < 2 ^ 32
      → RefinedBy
          (array_delete K (record { av = av; len = len }) x)
          (delete_first x (elements K (record { av = av; len = len })))
  unfolding array_delete
  Refined-delete none len x w lt =
      (_, refl, Refined-same (record { av = none; len = len }) _ w refl)
  Refined-delete (some v) len x w lt =
      rw (index_from-search K v x (K.size v) 0 (omega arith) (omega (arith, lt, K.size-items v))) (
        Refined-Scanned v x len (search_from K v x (K.size v) 0) w (
          subst (λ k. Scanned x (K.items v) 0 (search_from K v x k 0)) (sym (K.size-items v))
            (search_from-Scanned v x (K.items v) 0 (λ n below.
              K.nth-items v n (in-range v n below) ∙ ap (λ k. some (K.at v k)) (omega arith)))))

  Refined-replace :
      (av : Option K.Vec) (len i x : ℕ)
      → WellFormed K (record { av = av; len = len })
      → Refined
          (array_replace_index K (record { av = av; len = len }) x i)
          (spec (replace_index i x) (elements K (record { av = av; len = len })))
  unfolding array_replace_index
  Refined-replace none len i x w = Refined-same (record { av = none; len = len }) _ w refl
  Refined-replace (some v) len i x w = elim (Bool-cases (ltb 0 (K.size v) && ltb i (K.size v))) [
    | inl h ↦
        let lt : i < K.size v = ground arith in
        rw h (record {
          returns = sym (K.nth-items v i lt);
          elements_are = K.items-assign v i x lt;
          well_formed =
              w
              ∙ ap (λ k. k % 2 ^ 32)
                  (sym (length-set_at (K.items v) i x) ∙ ap length (sym (K.items-assign v i x lt)));
        })
    | inr h ↦
        let out : K.size v ≤ i = ground arith in
        let beyond : length (K.items v) ≤ i = omega (arith, K.size-items v, out) in
        rw h (
          Refined-same (record { av = some v; len = len }) _ w
            (rw (nth-beyond (K.items v) i beyond, set_at-beyond (K.items v) i x beyond) refl))
  ]

  -- One more element at an end
  Refined-grow :
      (v : K.Vec) (len : ℕ) (xs ys : List ℕ)
      → len ≡ length xs % 2 ^ 32
      → K.items v ≡ ys
      → length ys ≡ suc (length xs)
      → Refined (none, record { av = some v; len = (len + 1) % 2 ^ 32 }) (none, ys)
  Refined-grow v len xs ys w h hl = record {
    returns = refl;
    elements_are = h;
    well_formed = ap (λ k. (k + 1) % 2 ^ 32) w ∙ omega (arith, hl, ap length h);
  }

  Refined-append :
      (av : Option K.Vec) (len x : ℕ)
      → WellFormed K (record { av = av; len = len })
      → Refined
          (
            none,
            elim (array_append K (some (record { av = av; len = len })) (some x)) [
              | none ↦ record { av = av; len = len }
              | some b ↦ b
            ],
          )
          (spec (append x) (elements K (record { av = av; len = len })))
  unfolding array_append
  Refined-append none len x w =
      Refined-grow (K.push K.init x) len [] (x ∷ []) w
        (K.items-push K.init x ∙ ap (λ l. l ++ (x ∷ [])) K.items-init) refl
  Refined-append (some v) len x w =
      Refined-grow (K.push v x) len (K.items v) _ w (K.items-push v x)
        (omega (arith, length-append (K.items v) (x ∷ [])))

  Refined-prepend :
      (av : Option K.Vec) (len x : ℕ)
      → WellFormed K (record { av = av; len = len })
      → Refined
          (
            none,
            elim (array_prepend K (some (record { av = av; len = len })) (some x)) [
              | none ↦ record { av = av; len = len }
              | some b ↦ b
            ],
          )
          (spec (prepend x) (elements K (record { av = av; len = len })))
  unfolding array_prepend
  Refined-prepend none len x w =
      Refined-grow (K.push K.init x) len [] (x ∷ []) w
        (K.items-push K.init x ∙ ap (λ l. l ++ (x ∷ [])) K.items-init) refl
  Refined-prepend (some v) len x w =
      Refined-grow (K.prepend v x) len (K.items v) _ w (K.items-prepend v x) refl

  exec-Refined :
      (c : Command) (a : Array K)
      → WellFormed K a
      → length (elements K a) < 2 ^ 32
      → RefinedBy (exec K c a) (spec c (elements K a))
  unfolding exec
  exec-Refined (append x) a w lt = (_, refl, Refined-append a.av a.len x w)
  exec-Refined (prepend x) a w lt = (_, refl, Refined-prepend a.av a.len x w)
  exec-Refined (delete x) a w lt = Refined-delete a.av a.len x w lt
  exec-Refined pop_last a w lt = (_, refl, Refined-pop_last a.av a.len w)
  exec-Refined pop_first a w lt = (_, refl, Refined-pop_first a.av a.len w)
  exec-Refined (replace_index i x) a w lt = (_, refl, Refined-replace a.av a.len i x w)

  -- The results of a sequence of functions, and what they leave
  pub record RefinedAll (out : List (Option ℕ) × Array K) (result : List (Option ℕ) × List ℕ)
      : Type 0 where
    pub returns : out.0 ≡ result.0
    pub elements_are : elements K out.1 ≡ result.1
    pub well_formed : WellFormed K out.1

  -- Any sequence of the functions that change an array, on one whose `len` is the number of its elements,
  -- where the elements and the functions are less than 2^32 together, ends, hands out what the commands
  -- on the list of elements hand out, and leaves an array with the commands' list, whose `len` is again
  -- the number of its elements.
  pub exec_all-RefinedAll :
      (cs : List Command) (a : Array K)
      → WellFormed K a
      → length (elements K a) + length cs < 2 ^ 32
      → (out : List (Option ℕ) × Array K) × (exec_all K cs a ≡ some out)
        × RefinedAll out (spec_all cs (elements K a))
  unfolding exec_all
  exec_all-RefinedAll [] a w lt =
      (([], a), refl, record { returns = refl; elements_are = refl; well_formed = w })
  exec_all-RefinedAll (c ∷ cs) a w lt =
      let (out, ran, one) = exec-Refined c a w (omega (arith, lt)) in
      let (all, rest, more) =
        exec_all-RefinedAll cs out.1 one.well_formed
          (omega (arith, lt, length-spec c (elements K a), ap length one.elements_are)) in
      let same : spec_all cs (elements K out.1) ≡ spec_all cs (spec c (elements K a)).1 =
        ap (spec_all cs) one.elements_are in
      (
        (out.0 ∷ all.0, all.1),
        ap (λ o. elim o [ none ↦ none | some out ↦ and_then K out.0 (exec_all K cs out.1) ]) ran
            ∙ ap (and_then K out.0) rest,
        record {
          returns =
              ap (λ r. r ∷ all.0) one.returns
              ∙ ap (λ l. (spec c (elements K a)).0 ∷ l)
                  (more.returns ∙ ap (λ (r : List (Option ℕ) × List ℕ). r.0) same);
          elements_are = more.elements_are ∙ ap (λ (r : List (Option ℕ) × List ℕ). r.1) same;
          well_formed = more.well_formed;
        },
      )
