-- ===== src/Text/Bounds.antt =====
-- The bounds of the text functions: an unescaped string fits where the escaped one was.
use libucl.Base.{
  ℕ, suc, ◌≤◌, arith, Bool, true, false, ◌==◌, leb, ltb, if◌then◌else◌, [], ◌∷◌, Bytes, Bool-cases,
  inl, inr, length, length-append,
}
use libucl.Text.Unescape.{
  unescape_json, unescape_unicode, unescape_json_string, unescape_squoted, unescape_squoted_string,
  encode, backslash,
}
use libucl.Text.Quoted.{copy_or_store}

length-if :
    (b : Bool) (xs ys : Bytes) (n : ℕ)
    → length xs ≤ n
    → length ys ≤ n
    → length (if b then xs else ys) ≤ n
length-if true xs ys n h k = h
length-if false xs ys n h k = k

pub length-encode : (u : ℕ) → length (encode u) ≤ 3
length-encode u = elim (Bool-cases (ltb u 0x80)) [
  | inl a ↦ rw a (omega arith)
  | inr a ↦ elim (Bool-cases (ltb u 0x800)) [
    | inl b ↦ rw (a, b) (omega arith)
    | inr b ↦ elim (Bool-cases (ltb u 0x10000)) [
      | inl c ↦ rw (a, b, c) (omega arith)
      | inr c ↦ rw (a, b, c) (omega arith)
    ]
  ]
]

mutual
  unfolding unescape_json unescape_unicode

  pub length-json : (s : Bytes) → length (unescape_json s) ≤ length s
  length-json [] = omega arith
  length-json (c ∷ []) = omega arith
  length-json (c ∷ e ∷ cs) =
      length-if (c == backslash) _ _ (length (c ∷ e ∷ cs))
        (length-if (e == b'u') _ _ (length (c ∷ e ∷ cs)) (length-unicode cs)
          (omega (arith, length-json cs)))
        (omega (arith, length-json (e ∷ cs)))

  length-unicode : (s : Bytes) → length (unescape_unicode s) ≤ suc (suc (length s))
  length-unicode [] = omega arith
  length-unicode (c ∷ []) = omega arith
  length-unicode (c ∷ d ∷ []) = omega (arith, length-json (d ∷ []))
  length-unicode (c ∷ d ∷ e ∷ []) = omega (arith, length-encode _)
  length-unicode (c ∷ d ∷ e ∷ f ∷ cs) =
      omega (arith, length-append (encode _) (unescape_json cs), length-encode _, length-json cs)

length-squoted : (s : Bytes) → length (unescape_squoted s) ≤ length s
unfolding unescape_squoted
length-squoted [] = omega arith
length-squoted (c ∷ []) = omega arith
length-squoted (c ∷ e ∷ []) =
    length-if (c == backslash) _ _ 2
      (length-if (e == 39) _ _ 2 (omega arith) (
        length-if (e == 10) _ _ 2 (omega arith)
          (length-if (e == 13) _ _ 2 (omega arith) (omega arith))))
      (omega (arith, length-squoted (e ∷ [])))
length-squoted (c ∷ e ∷ f ∷ cs) =
    let n = length (c ∷ e ∷ f ∷ cs) in
    let ih : length (unescape_squoted (f ∷ cs)) ≤ suc (length cs) = length-squoted (f ∷ cs) in
    let ih2 : length (unescape_squoted cs) ≤ length cs = length-squoted cs in
    length-if (c == backslash) _ _ n
      (length-if (e == 39) _ _ n (omega (arith, ih)) (
        length-if (e == 10) _ _ n (omega (arith, ih)) (
          length-if (e == 13) _ _ n
            (length-if (f == 10) _ _ n (omega (arith, ih2)) (omega (arith, ih)))
            (omega (arith, ih)))))
      (omega (arith, length-squoted (e ∷ f ∷ cs)))

length-squoted_string : (s : Bytes) → length (unescape_squoted_string s) ≤ length s
unfolding unescape_squoted_string
length-squoted_string s =
    length-if (leb (length s) 1) s (unescape_squoted s) (length s) (omega arith) (length-squoted s)

length-json_string : (s : Bytes) → length (unescape_json_string s) ≤ length s
unfolding unescape_json_string
length-json_string s =
    length-if (leb (length s) 1) s (unescape_json s) (length s) (omega arith) (length-json s)

-- The copy of a text, unescaped or not, in either kind of quotes, is no longer than the text: it fits the
-- `in_len + 1` bytes that `ucl_copy_or_store_ptr` allocates, with its terminator.
pub length-copy_or_store :
    (src : Bytes) (need_unescape unescape_squote : Bool)
    → length (copy_or_store src need_unescape unescape_squote) ≤ length src
unfolding copy_or_store
length-copy_or_store src u q =
    length-if u _ src (length src)
      (length-if q _ _ (length src) (length-squoted_string src) (length-json_string src))
      (omega arith)
