-- ===== src/Message/Blocks.antt =====
-- Writing into a block from its start: what stands there afterwards, whatever `malloc` left in it.
use post_dns.Base.{
  ℕ, ◌+◌, ◌-◌, ◌*◌, ◌/◌, ◌%◌, ◌^◌, ◌≤◌, ◌<◌, ◌≡◌, refl, sym, ap, ◌∙◌, arith, List, [], ◌∷◌, ◌++◌,
  append_assoc, append-nil, length, drop, set, ok, ◌>>=◌, at, from_option, Fault, Returns,
  length-append, get_elem?-drop,
}
use mathlib.Core.Path.{ap₂}
use post_dns.Words.{swap16, swap32, bytes16, bytes32}
use post_dns.Words.Swap.{swap16_lem, swap32_lem}
use post_dns.Message.Build.{write_bytes, swap16_at, swap32_at, put_short, put_int}

-- A word as it goes over the network, the high byte first.
abbrev pub network16 : ℕ → List ℕ
network16 x = x / 256 % 256 ∷ x % 256 ∷ []

abbrev pub network32 : ℕ → List ℕ
network32 x = x / 2 ^ 24 % 256 ∷ x / 2 ^ 16 % 256 ∷ x / 2 ^ 8 % 256 ∷ x % 256 ∷ []

-- The block begins with `out`, and `n` more bytes follow.
abbrev pub Filled : List ℕ → ℕ → List ℕ → Type 0
Filled out n buf = (junk : List ℕ) × (buf ≡ out ++ junk) × (length junk ≡ n)

drop_prefix : (xs ys : List ℕ) → drop (length xs) (xs ++ ys) ≡ ys
drop_prefix [] ys = refl
drop_prefix (x ∷ xs) ys = drop_prefix xs ys

set_behind :
    (out js : List ℕ) (j b : ℕ) → set (out ++ j ∷ js) (length out) b ≡ (out ++ b ∷ []) ++ js
set_behind [] js j b = refl
set_behind (x ∷ out) js j b = ap (λ (s : List ℕ). x ∷ s) (set_behind out js j b)

write_bytes_step :
    (buf : List ℕ) (pos b : ℕ) (bs : List ℕ)
    → pos < length buf
    → write_bytes buf pos (b ∷ bs) ≡ write_bytes (set buf pos b) (pos + 1) bs
unfolding write_bytes
write_bytes_step buf pos b bs h = ground arith

write_behind :
    (bs out junk : List ℕ)
    → length bs ≤ length junk
    → Returns
        (write_bytes (out ++ junk) (length out) bs)
        (Filled (out ++ bs) (length junk - length bs))
write_behind [] out junk h =
    (out ++ junk, unfold write_bytes in refl, (junk, rw append-nil, omega arith))
write_behind (b ∷ bs) out [] h = absurd (omega arith)
write_behind (b ∷ bs) out (j ∷ junk) h =
    let inside : length out < length (out ++ j ∷ junk) =
      omega (arith, length-append out (j ∷ junk)) in
    let next : length out + 1 ≡ length (out ++ b ∷ []) =
      omega (arith, length-append out (b ∷ [])) in
    let (buf, run, (left, e, n)) = write_behind bs (out ++ b ∷ []) junk (omega arith) in
    (
      buf,
      write_bytes_step (out ++ j ∷ junk) (length out) b bs inside ∙ rw (set_behind, next) run,
      (left, e ∙ ap (λ (s : List ℕ). s ++ left) (append_assoc out (b ∷ []) bs), omega (arith, n)),
    )

-- `memcpy` to the end of what is filled.
pub write_bytes-Filled :
    (bs out : List ℕ) (n : ℕ) (buf : List ℕ) (pos : ℕ)
    → Filled out n buf
    → pos ≡ length out
    → length bs ≤ n
    → Returns (write_bytes buf pos bs) (Filled (out ++ bs) (n - length bs))
write_bytes-Filled bs out n buf pos (junk, e, size) p h =
    let (buf', run, (left, e', m)) = write_behind bs out junk (omega arith) in
    (buf', ap₂ (λ (b : List ℕ) (k : ℕ). write_bytes b k bs) e p ∙ run, (left, e', omega arith))

-- Reading back from the end of what was filled before.
at_behind : (out ys : List ℕ) (y : ℕ) → at (out ++ y ∷ ys) (length out) ≡ ok y
at_behind out ys y =
    ap (from_option Fault.out_of_bounds)
      (get_elem?-drop (length out) (out ++ y ∷ ys) y ys (drop_prefix out (y ∷ ys)))

read_filled :
    (out xs ys : List ℕ) (y : ℕ) (buf : List ℕ) (pos : ℕ)
    → buf ≡ out ++ xs ++ y ∷ ys
    → pos ≡ length out + length xs
    → at buf pos ≡ ok y
read_filled out xs ys y buf pos e p =
    let sum : pos ≡ length (out ++ xs) = omega (arith, length-append out xs) in
    ap₂ (λ (b : List ℕ) (k : ℕ). at b k) e sum ∙ at_behind (out ++ xs) ys y

swap16_bytes : (x : ℕ) → bytes16 (swap16 (x % 256 + x / 256 % 256 * 2 ^ 8)) ≡ network16 x
swap16_bytes x =
    let a = x / 256 % 256 in
    let b = x % 256 in
    let order : b + a * 2 ^ 8 ≡ a * 256 + b = omega arith in
    let low : (b * 256 + a) % 256 ≡ a = omega arith in
    let high : (b * 256 + a) / 256 % 256 ≡ b = omega arith in
    rw (order, swap16_lem a b (omega arith) (omega arith), low, high)

pub put_short-Filled :
    (x : ℕ) (out : List ℕ) (n : ℕ) (buf : List ℕ) (pos : ℕ)
    → Filled out n buf
    → pos ≡ length out
    → 2 ≤ n
    → Returns (put_short buf pos x) (Filled (out ++ network16 x) (n - 2))
unfolding put_short swap16_at
put_short-Filled x out n buf pos filled p h =
    let (buf₁, run₁, (junk, e, size)) = write_bytes-Filled (bytes16 x) out n buf pos filled p h in
    let e' : buf₁ ≡ out ++ (bytes16 x ++ junk) = e ∙ append_assoc out (bytes16 x) junk in
    let a = x % 256 in
    let b = x / 256 % 256 in
    let first = read_filled out [] (b ∷ junk) a buf₁ pos (e' ∙ rw append-nil) (omega arith) in
    let second =
      read_filled out (a ∷ []) junk b buf₁ (pos + 1)
        (e' ∙ sym (append_assoc out (a ∷ []) (b ∷ junk))) (omega arith) in
    let refilled : Filled out n buf₁ = (bytes16 x ++ junk, e', omega arith) in
    let (buf₂, run₂, f) = write_bytes-Filled (network16 x) out n buf₁ pos refilled p h in
    (buf₂, rw (run₁, ◌>>=◌, first, second, ◌>>=◌, swap16_bytes) run₂, f)

swap32_bytes :
    (x : ℕ)
    → bytes32 (
        swap32 (
          x % 256
          + x / 2 ^ 8 % 256 * 2 ^ 8
          + x / 2 ^ 16 % 256 * 2 ^ 16
          + x / 2 ^ 24 % 256 * 2 ^ 24))
      ≡ network32 x
swap32_bytes x =
    let a = x / 2 ^ 24 % 256 in
    let b = x / 2 ^ 16 % 256 in
    let c = x / 2 ^ 8 % 256 in
    let d = x % 256 in
    let order : d + c * 2 ^ 8 + b * 2 ^ 16 + a * 2 ^ 24 ≡ a * 2 ^ 24 + b * 2 ^ 16 + c * 2 ^ 8 + d =
      omega arith in
    let y = d * 2 ^ 24 + c * 2 ^ 16 + b * 2 ^ 8 + a in
    let y₀ : y % 256 ≡ a = omega arith in
    let y₁ : y / 2 ^ 8 % 256 ≡ b = omega arith in
    let y₂ : y / 2 ^ 16 % 256 ≡ c = omega arith in
    let y₃ : y / 2 ^ 24 % 256 ≡ d = omega arith in
    rw (
      order,
      swap32_lem a b c d (omega arith) (omega arith) (omega arith) (omega arith),
      y₀,
      y₁,
      y₂,
      y₃,
    )

pub put_int-Filled :
    (x : ℕ) (out : List ℕ) (n : ℕ) (buf : List ℕ) (pos : ℕ)
    → Filled out n buf
    → pos ≡ length out
    → 4 ≤ n
    → Returns (put_int buf pos x) (Filled (out ++ network32 x) (n - 4))
unfolding put_int swap32_at
put_int-Filled x out n buf pos filled p h =
    let (buf₁, run₁, (junk, e, size)) = write_bytes-Filled (bytes32 x) out n buf pos filled p h in
    let e' : buf₁ ≡ out ++ (bytes32 x ++ junk) = e ∙ append_assoc out (bytes32 x) junk in
    let d = x % 256 in
    let c = x / 2 ^ 8 % 256 in
    let b = x / 2 ^ 16 % 256 in
    let a = x / 2 ^ 24 % 256 in
    let byte₀ =
      read_filled out [] (c ∷ b ∷ a ∷ junk) d buf₁ pos (e' ∙ rw append-nil) (omega arith) in
    let byte₁ =
      read_filled out (d ∷ []) (b ∷ a ∷ junk) c buf₁ (pos + 1) (e' ∙ sym (append_assoc out _ _))
        (omega arith) in
    let byte₂ =
      read_filled out (d ∷ c ∷ []) (a ∷ junk) b buf₁ (pos + 2) (e' ∙ sym (append_assoc out _ _))
        (omega arith) in
    let byte₃ =
      read_filled out (d ∷ c ∷ b ∷ []) junk a buf₁ (pos + 3) (e' ∙ sym (append_assoc out _ _))
        (omega arith) in
    let refilled : Filled out n buf₁ = (bytes32 x ++ junk, e', omega arith) in
    let (buf₂, run₂, f) = write_bytes-Filled (network32 x) out n buf₁ pos refilled p h in
    (buf₂, rw (run₁, ◌>>=◌, byte₀, byte₁, ◌>>=◌, byte₂, ◌>>=◌, byte₃, ◌>>=◌, swap32_bytes) run₂, f)
