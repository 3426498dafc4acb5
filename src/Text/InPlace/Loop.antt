-- ===== src/Text/InPlace/Loop.antt =====
-- The loop of `ucl_unescape_json_string` on its buffer against `unescape_json` on byte strings.
use libucl.Base.{
  ℕ, zero, suc, ◌+◌, ◌-◌, ◌≤◌, ◌<◌, ◌≡◌, refl, sym, ap, ◌∙◌, arith, true, false, leb, ltb, ◌==◌,
  ==_iff, if◌then◌else◌, List, [], ◌∷◌, ◌++◌, Bytes, length, Bool-cases, inl, inr,
}
use mathlib.Core.Path.{subst}
use mathlib.Core.List.{append-nil}
use libucl.Text.Bounds.{length-encode, length-json}
use libucl.Text.Unescape.{
  backslash, add_digits, encode, short_escape, unescape_json, unescape_unicode,
  unescape_json_string,
}
use libucl.Text.InPlace.{Buffer, put, write_at, unescape_loop, unescape_in_place, Has, Source}
use libucl.Text.InPlace.Memory.{
  put-same, put-other, Has-keep, Wrote, Wrote-nothing, Wrote-more, Wrote-if, Source-keep, Wrote-one,
  Source-put,
}

-- The loop reads a string of at most `fuel` bytes.
abbrev Reads : ℕ → Type 0
Reads fuel =
    (s : Bytes) (buf : Buffer) (t h : ℕ)
    → length s ≤ fuel
    → t ≤ h
    → Source buf h s
    → Wrote (unescape_loop fuel buf t h (length s)) buf t (unescape_json s)

module _ (fuel : ℕ) (ih : Reads fuel) (buf : Buffer) (t h : ℕ) (le : t ≤ h) where
  unicode_loop : ℕ → Buffer × ℕ
  unicode_loop len =
      let d = suc (suc h) in
      let uval =
        add_digits (buf d ∷ buf (suc d) ∷ buf (suc (suc d)) ∷ buf (suc (suc (suc d))) ∷ []) 0 in
      if ltb 3 (suc len)
      then unescape_loop fuel (write_at buf t (encode uval)) (t + length (encode uval))
          (suc (suc (suc (suc d)))) (len - 4)
      else unescape_loop fuel (put buf t b'u') (suc t) (suc (suc (suc h))) (len - 1)

  digits-Wrote :
      (ds : List ℕ) (cs : Bytes)
      → length cs ≤ fuel
      → Source (write_at buf t (encode (add_digits ds 0))) (suc (suc (suc (suc (suc (suc h)))))) cs
      → Wrote
          (unescape_loop fuel
            (write_at buf t (encode (add_digits ds 0)))
            (t + length (encode (add_digits ds 0)))
            (suc (suc (suc (suc (suc (suc h))))))
            (length cs))
          buf
          t
          (encode (add_digits ds 0) ++ unescape_json cs)
  digits-Wrote ds cs lf src =
      Wrote-more _ buf t (encode (add_digits ds 0)) (unescape_json cs)
        (ih cs _ _ _ lf (omega (arith, le, length-encode (add_digits ds 0))) src)

  abbrev read_digits : List ℕ
  read_digits =
      let d = suc (suc h) in buf d ∷ buf (suc d) ∷ buf (suc (suc d)) ∷ buf (suc (suc (suc d))) ∷ []

  read-Wrote :
      (ds : List ℕ) (cs : Bytes)
      → read_digits ≡ ds
      → length cs ≤ fuel
      → Source (write_at buf t (encode (add_digits ds 0))) (suc (suc (suc (suc (suc (suc h)))))) cs
      → Wrote
          (unescape_loop fuel
            (write_at buf t (encode (add_digits read_digits 0)))
            (t + length (encode (add_digits read_digits 0)))
            (suc (suc (suc (suc (suc (suc h))))))
            (length cs))
          buf
          t
          (encode (add_digits ds 0) ++ unescape_json cs)
  read-Wrote ds cs e lf src =
      subst
        (λ l.
          Wrote
            (unescape_loop fuel (write_at buf t (encode (add_digits l 0)))
              (t + length (encode (add_digits l 0))) (suc (suc (suc (suc (suc (suc h))))))
              (length cs))
            buf t (encode (add_digits ds 0) ++ unescape_json cs))
        (sym e) (digits-Wrote ds cs lf src)

  unicode-Wrote :
      (cs : Bytes)
      → length cs ≤ fuel
      → Has buf (suc (suc h)) (cs ++ (0 ∷ []))
      → Wrote (unicode_loop (length cs)) buf t (unescape_unicode cs)
  unfolding unicode_loop unescape_unicode unescape_json
  unicode-Wrote [] lf x = Wrote-one _ buf t b'u' [] (ih [] _ _ _ (omega arith) (omega arith) tt)
  unicode-Wrote (a ∷ []) lf x =
      Wrote-one _ buf t b'u' [] (ih [] _ _ _ (omega arith) (omega arith) tt)
  unicode-Wrote (a ∷ b ∷ []) lf x = Wrote-one _ buf t b'u' (b ∷ []) (
      ih (b ∷ []) _ _ _ (omega arith) (omega arith)
        (Source-put buf t (suc (suc (suc h))) b'u' (b ∷ []) (omega arith) x.1))
  unicode-Wrote (a ∷ b ∷ d ∷ []) lf (xa, (xb, (xd, (xe, u)))) =
      subst (Wrote (unicode_loop 3) buf t) (append-nil (encode (add_digits (a ∷ b ∷ d ∷ 0 ∷ []) 0)))
        (read-Wrote (a ∷ b ∷ d ∷ 0 ∷ []) [] (rw (xa, xb, xd, xe) refl) (omega arith) tt)
  unicode-Wrote (a ∷ b ∷ d ∷ e ∷ cs) lf (xa, (xb, (xd, (xe, x)))) =
      let long : ltb 3 (suc (suc (suc (suc (suc (length cs)))))) ≡ true = ground arith in
      let left : length cs ≡ suc (suc (suc (suc (length cs)))) - 4 = omega arith in
      rw long (
        subst
          (λ n.
            Wrote
              (unescape_loop fuel (write_at buf t (encode (add_digits read_digits 0)))
                (t + length (encode (add_digits read_digits 0)))
                (suc (suc (suc (suc (suc (suc h)))))) n)
              buf t (encode (add_digits (a ∷ b ∷ d ∷ e ∷ []) 0) ++ unescape_json cs))
          left
          (read-Wrote (a ∷ b ∷ d ∷ e ∷ []) cs (rw (xa, xb, xd, xe) refl) (omega (arith, lf)) (
            Source-keep buf t (suc (suc (suc (suc (suc (suc h))))))
              (encode (add_digits (a ∷ b ∷ d ∷ e ∷ []) 0)) cs
              (omega (arith, le, length-encode (add_digits (a ∷ b ∷ d ∷ e ∷ []) 0))) x)))

reads : (fuel : ℕ) → Reads fuel
unfolding unescape_loop unescape_json unicode_loop
reads zero [] buf t h lf le src = Wrote-nothing buf t
reads zero (c ∷ cs) buf t h lf le src = absurd (omega arith)
reads (suc fuel) [] buf t h lf le src = Wrote-nothing buf t
reads (suc fuel) (c ∷ []) buf t h lf le (x, xs) =
    let kept =
      Wrote-one _ buf t c []
        (reads fuel [] (put buf t c) (suc t) (suc h) (omega arith) (omega (arith, le)) tt) in
    elim (Bool-cases (c == backslash)) [
      | inl a ↦
          rw (x, a)
            (subst (λ z. Wrote (unescape_loop fuel (put buf t z) (suc t) (suc h) 0) buf t (c ∷ []))
              ((==_iff c backslash).0 a) kept)
      | inr a ↦ rw (x, a) kept
    ]
reads (suc fuel) (c ∷ e ∷ cs) buf t h lf le (x, (y, xs)) =
    rw (x, y)
      (Wrote-if (c == backslash) _ _ buf t _ (c ∷ unescape_json (e ∷ cs))
        (Wrote-if (e == b'u') _ _ buf t (unescape_unicode cs) (short_escape e ∷ unescape_json cs)
          (unicode-Wrote fuel (reads fuel) buf t h le cs (omega (arith, lf)) xs)
          (Wrote-one _ buf t (short_escape e) (unescape_json cs) (
            reads fuel cs (put buf t (short_escape e)) (suc t) (suc (suc h)) (omega (arith, lf))
              (omega (arith, le))
              (Source-put buf t (suc (suc h)) (short_escape e) cs (omega (arith, le)) xs))))
        (Wrote-one _ buf t c (unescape_json (e ∷ cs)) (
          reads fuel (e ∷ cs) (put buf t c) (suc t) (suc h) (omega (arith, lf)) (omega (arith, le))
            (Source-put buf t (suc h) c (e ∷ cs) (omega (arith, le)) (y, xs)))))

-- The function has returned `n`, and left `out` at the start of the buffer, with its terminator.
pub record Unescaped (res : Buffer × ℕ) (buf : Buffer) (len : ℕ) (out : Bytes) : Type 0 where
  pub returns : res.1 ≡ length out
  pub within : length out ≤ len
  pub text : Has res.0 0 out
  pub terminated : 0 < len → res.0 (length out) ≡ 0
  pub others : (i : ℕ) → len < i → res.0 i ≡ buf i

-- `ucl_unescape_json_string` on a buffer with a string and its terminator: it returns the length of the
-- unescaped string, which is at most that of the string, and leaves it, with a terminator, at the start
-- of the buffer, although it reads the same bytes that it writes; behind the terminator of the string
-- nothing is written.
pub unescape_in_place-Unescaped :
    (buf : Buffer) (s : Bytes)
    → Source buf 0 s
    → Unescaped (unescape_in_place buf (length s)) buf (length s) (unescape_json_string s)
unfolding unescape_in_place unescape_json_string
unescape_in_place-Unescaped buf [] src = record {
  returns = refl;
  within = omega arith;
  text = tt;
  terminated = λ h. absurd (omega arith);
  others = λ i h. refl;
}
unescape_in_place-Unescaped buf (c ∷ []) (x, (y, u)) = record {
  returns = refl;
  within = omega arith;
  text = (x, tt);
  terminated = λ h. y;
  others = λ i h. refl;
}
unescape_in_place-Unescaped buf (c ∷ e ∷ cs) src =
    let s = c ∷ e ∷ cs in
    let long : leb (length (c ∷ e ∷ cs)) 1 ≡ false = ground arith in
    let w = reads (length s) s buf 0 0 (omega arith) (omega arith) src in
    let bound : length (unescape_json s) ≤ length s = length-json s in
    let res = unescape_loop (length s) buf 0 0 (length s) in
    let n : res.1 ≡ length (unescape_json s) = omega (arith, w.moved) in
    rw long (record {
      returns = n;
      within = bound;
      text =
          Has-keep res.0 (put res.0 res.1 0) 0 (unescape_json s)
            (λ i a b. put-other res.0 res.1 0 i (λ k. absurd (omega (arith, k, n, b)))) w.wrote;
      terminated = λ h. ap (put res.0 res.1 0) (sym n) ∙ put-same res.0 res.1 0;
      others = λ i h.
          put-other res.0 res.1 0 i (λ k. absurd (omega (arith, k, n, bound, h)))
          ∙ w.others i (λ a. omega (arith, bound, h));
    })
