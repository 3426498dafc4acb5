-- ===== src/Text/InPlace.antt =====
-- `ucl_unescape_json_string` of src/ucl_util.c as it runs, on one buffer that it reads at `h` and writes
-- at `t`.
pub mod Memory
pub mod Loop
use libucl.Base.{
  ℕ, zero, suc, ◌+◌, ◌-◌, ◌≤◌, ◌<◌, ◌≡◌, ◌≢◌, refl, sym, ap, ◌∙◌, arith, Bool, true, false, leb,
  ltb, ◌==◌, ==_iff, if◌then◌else◌, List, [], ◌∷◌, ◌++◌, Bytes, length, length-append, Bool-cases,
  inl, inr,
}
use mathlib.Core.Path.{subst}
use mathlib.Core.List.{append-nil}
use libucl.Text.Bounds.{length-encode, length-json}
use libucl.Text.Unescape.{
  backslash, add_digits, encode, short_escape, unescape_json, unescape_unicode,
  unescape_json_string,
}

-- The memory at `str`
abbrev pub Buffer : Type 0
Buffer = ℕ → ℕ

abbrev pub put : Buffer → ℕ → ℕ → Buffer
put buf t c i = if i == t then c else buf i

-- Bytes written from `t` on
unfoldable pub write_at : Buffer → ℕ → Bytes → Buffer
write_at buf t [] = buf
write_at buf t (c ∷ cs) = write_at (put buf t c) (suc t) cs

-- The loop, with fuel: the buffer and `t` where `len` is 0
unfoldable pub unescape_loop : ℕ → Buffer → ℕ → ℕ → ℕ → Buffer × ℕ
unescape_loop zero buf t h len = (buf, t)
unescape_loop (suc fuel) buf t h zero = (buf, t)
unescape_loop (suc fuel) buf t h (suc zero) =
    if buf h == backslash
    then unescape_loop fuel (put buf t backslash) (suc t) (suc h) 0
    else unescape_loop fuel (put buf t (buf h)) (suc t) (suc h) 0
unescape_loop (suc fuel) buf t h (suc (suc len)) =
    if buf h == backslash
    then (if buf (suc h) == b'u'
        then (if ltb 3 (suc len)
            then (let d = suc (suc h) in
                let uval =
                  add_digits
                    (buf d ∷ buf (suc d) ∷ buf (suc (suc d)) ∷ buf (suc (suc (suc d))) ∷ []) 0 in
                unescape_loop fuel (write_at buf t (encode uval)) (t + length (encode uval))
                  (suc (suc (suc (suc d)))) (len - 4))
            else unescape_loop fuel (put buf t b'u') (suc t) (suc (suc (suc h))) (len - 1))
        else unescape_loop fuel (put buf t (short_escape (buf (suc h)))) (suc t) (suc (suc h)) len)
    else unescape_loop fuel (put buf t (buf h)) (suc t) (suc h) (suc len)

-- `ucl_unescape_json_string`
unfoldable pub unescape_in_place : Buffer → ℕ → Buffer × ℕ
unescape_in_place buf len =
    if leb len 1
    then (buf, len)
    else (let (done, t) = unescape_loop len buf 0 0 len in (put done t 0, t))

-- The bytes from `t` on
abbrev pub Has : Buffer → ℕ → Bytes → Type 0
Has buf t [] = Unit
Has buf t (c ∷ cs) = (buf t ≡ c) × Has buf (suc t) cs

-- A string and its terminator, which nobody reads behind an empty string
abbrev pub Source : Buffer → ℕ → Bytes → Type 0
Source buf h [] = Unit
Source buf h (c ∷ cs) = Has buf h ((c ∷ cs) ++ (0 ∷ []))
