-- ===== src/Message/Labels.antt =====
-- message.c: names as labels, and `name2message` as the writer of their wire form.
use post_dns.Base.{
  ℕ, suc, ◌+◌, ◌*◌, ◌%◌, ◌≤◌, ◌<◌, ◌≡◌, ◌≢◌, refl, sym, ap, ◌∙◌, arith, List, [], ◌∷◌, ◌++◌,
  append_assoc, append-nil, true, false, ◌==◌, ltb, lt→ltb, ==-eq-false, length, drop, All, ok,
  length-append, take_prefix, get_elem?-drop, drop_next,
}
use post_dns.Text.{Str, c_string, string_split}
use post_dns.Text.Equal.{string_equal_refl}
use post_dns.Text.Split.{join, string_split_lem, string_split-cons}
use post_dns.Message.Parse.{write_char, read_letters}
use post_dns.Message.Build.{label_bytes, name2message, put_name, write_bytes}

-- A label that both directions carry over: not empty, without a NUL, and with a length byte that is
-- no compression pointer.
abbrev pub IsLabel : Str → Type 0
IsLabel t = (0 < length t) × (length t < 192) × All (λ c. c ≢ 0) t

pub record IsName (name : Str) : Type 0 where
  pub labels : All IsLabel (string_split name b'.')
  pub short : length name < 512

-- A length byte and the letters, for each label.
unfoldable pub wire : List Str → Str
wire [] = []
wire (t ∷ ts) = length t ∷ t ++ wire ts

-- The letters and a dot, for each label.
unfoldable pub dotted : List Str → Str
dotted [] = []
dotted (t ∷ ts) = t ++ b'.' ∷ dotted ts

length-wire : (ts : List Str) → length (wire ts) ≡ length (dotted ts)
unfolding wire dotted
length-wire [] = refl
length-wire (t ∷ ts) =
    omega (arith, length-append t (wire ts), length-append t (b'.' ∷ dotted ts), length-wire ts)

dotted-join : (t : Str) (ts : List Str) → dotted (t ∷ ts) ≡ join b'.' (t ∷ ts) ++ b'.' ∷ []
unfolding dotted
dotted-join t [] = refl
dotted-join t (u ∷ ts) =
    rw (dotted-join u ts) (sym (append_assoc t (b'.' ∷ join b'.' (u ∷ ts)) (b'.' ∷ [])))

pub labels-le : (ts : List Str) → All IsLabel ts → 2 * length ts ≤ length (dotted ts)
unfolding dotted
labels-le [] h = omega arith
labels-le (t ∷ ts) h = omega (arith, length-append t (b'.' ∷ dotted ts), labels-le ts h.1, h.0.0)

-- The labels of a name, joined.
pub dotted-split : (name : Str) → dotted (string_split name b'.') ≡ name ++ b'.' ∷ []
dotted-split name =
    let (p, ps, e) = string_split-cons name b'.' in
    rw e (
      dotted-join p ps
      ∙ ap (λ (s : Str). s ++ b'.' ∷ []) (ap (join b'.') (sym e) ∙ (string_split_lem name b'.').2))

abbrev pub wire_name : Str → Str
wire_name name = wire (string_split name b'.') ++ 0 ∷ []

pub length-wire_name : (name : Str) → length (wire_name name) ≡ length name + 2
length-wire_name name = omega (
  arith,
  length-append (wire (string_split name b'.')) (0 ∷ []),
  length-wire (string_split name b'.'),
  ap length (dotted-split name),
  length-append name (b'.' ∷ []),
)

pub c_string_lem : (t : Str) → All (λ c. c ≢ 0) t → c_string t ≡ t
unfolding c_string
c_string_lem [] h = refl
c_string_lem (c ∷ t) h = ground (arith, c_string_lem t)

label_bytes-wire : (ts : List Str) → All IsLabel ts → label_bytes ts ≡ ok (wire ts)
unfolding label_bytes wire
label_bytes-wire [] h = refl
label_bytes-wire (t ∷ ts) h =
    let small : length t % 256 ≡ length t = omega (arith, h.0.1) in
    rw (label_bytes-wire ts h.1, c_string_lem t h.0.2, string_equal_refl t, small)

-- The letters of one label.
pub read_letters_lem :
    (base : List ℕ) (t : Str) (pos : ℕ) (written rest : Str)
    → drop pos base ≡ t ++ rest
    → length written + length t ≤ 512
    → (read_letters base (length t) pos written ≡ ok (pos + length t, written ++ t))
      × (drop (pos + length t) base ≡ rest)
unfolding read_letters write_char
read_letters_lem base [] pos written rest h room =
    let stay : pos + 0 ≡ pos = omega arith in (rw (append-nil, stay), rw stay h)
read_letters_lem base (c ∷ t) pos written rest h room =
    let here = get_elem?-drop pos base c (t ++ rest) h in
    let next : drop (pos + 1) base ≡ t ++ rest =
      let step : pos + 1 ≡ suc pos = omega arith in rw step (drop_next pos base c (t ++ rest) h) in
    let move : pos + suc (length t) ≡ pos + 1 + length t = omega arith in
    let fits : length (written ++ c ∷ []) + length t ≤ 512 =
      omega (arith, length-append written (c ∷ [])) in
    let (run, there) = read_letters_lem base t (pos + 1) (written ++ c ∷ []) rest next fits in
    let less : ltb (length written) 512 ≡ true = lt→ltb _ _ (omega arith) in
    (rw (here, less, run, move, append_assoc), rw move there)

-- A name with a label is not empty.
pub IsName-pos : (name : Str) → IsName name → 0 < length name
unfolding dotted
IsName-pos name h =
    let (p, ps, e) = string_split-cons name b'.' in
    let labels : All IsLabel (p ∷ ps) = rw e at h.labels in
    omega (
      arith,
      ap length (dotted-split name),
      ap (λ (ts : List Str). length (dotted ts)) e,
      length-append p (b'.' ∷ dotted ps),
      length-append name (b'.' ∷ []),
      labels.0.0,
    )

pub put_name-wire :
    (buf : List ℕ) (pos : ℕ) (name : Str)
    → IsName name
    → put_name buf pos name ≡ write_bytes buf pos (wire_name name)
unfolding put_name name2message
put_name-wire buf pos name h =
    let ts = string_split name b'.' in
    let filled : length name == 0 ≡ false =
      ==-eq-false (length name) 0 (λ e. omega (arith, IsName-pos name h)) in
    let same : wire ts ++ 0 ∷ 0 ∷ [] ≡ wire_name name ++ 0 ∷ [] =
      sym (append_assoc (wire ts) (0 ∷ []) (0 ∷ [])) in
    rw (
      label_bytes-wire ts h.labels,
      filled,
      same,
      take_prefix (wire_name name) (0 ∷ []) (length name + 2) (sym (length-wire_name name)),
    )
