-- ===== src/User/Find/Name.antt =====
-- `fmtname` of lab1/find.c, which returns the last part of a path, padded with blanks. A string is
-- the list of its bytes before the 0.
use my_os_proj.Base.{
  ℕ, zero, suc, ◌+◌, ◌-◌, ◌≡◌, refl, ◌∙◌, ap, arith, Bool, false, leb, ◌==◌, Option, none, some,
  List, [], ◌∷◌, ◌++◌, length, get_elem?, ◌∉◌, if◌then◌else◌,
}

abbrev pub slash : ℕ
slash = b'/'

abbrev pub blank : ℕ
blank = b' '

abbrev pub is_slash : Option ℕ → Bool
is_slash none = false
is_slash (some c) = c == slash

-- The loop that goes back to the last slash: where the first byte behind it is, of the `n` bytes in
-- front.
back_to_slash : (n : ℕ) → List ℕ → ℕ
back_to_slash zero path = 0
back_to_slash (suc n) path =
    let before = back_to_slash n path in if is_slash (get_elem? path n) then suc n else before

suffix : ℕ → List ℕ → List ℕ
suffix zero path = path
suffix (suc n) [] = []
suffix (suc n) (c ∷ cs) = suffix n cs

abbrev pub blanks : ℕ → List ℕ
blanks zero = []
blanks (suc n) = blank ∷ blanks n

-- The last byte of the static `buf` is 0.
unfoldable pub fmtname : (dirsiz : ℕ) (path : List ℕ) → List ℕ
unfolding back_to_slash suffix
fmtname dirsiz path =
    let p = suffix (back_to_slash (length path) path) path in
    if leb dirsiz (length p) then p else p ++ blanks (dirsiz - length p)

get_behind :
    (dir name : List ℕ) (i : ℕ)
    → get_elem? (dir ++ slash ∷ name) (suc (length dir + i)) ≡ get_elem? name i
get_behind [] name i = ap (get_elem? name) (omega arith)
get_behind (c ∷ dir) name i =
    ap (get_elem? (dir ++ slash ∷ name))
      (let e : suc (length dir) + i ≡ suc (length dir + i) = omega arith in e)
    ∙ get_behind dir name i

get_slash : (dir name : List ℕ) → get_elem? (dir ++ slash ∷ name) (length dir) ≡ some slash
get_slash [] name = refl
get_slash (c ∷ dir) name = get_slash dir name

no_slash : (name : List ℕ) (i : ℕ) → slash ∉ name → is_slash (get_elem? name i) ≡ false
no_slash [] i out = refl
no_slash (c ∷ name) zero out = ground (arith, out)
no_slash (c ∷ name) (suc i) out = no_slash name i (ground (arith, out))

suffix-append : (dir name : List ℕ) → suffix (suc (length dir)) (dir ++ slash ∷ name) ≡ name
unfolding suffix
suffix-append [] name = refl
suffix-append (c ∷ dir) name = suffix-append dir name

length-append : (dir name : List ℕ) → length (dir ++ slash ∷ name) ≡ suc (length dir + length name)
length-append [] name = omega arith
length-append (c ∷ dir) name = omega (arith, length-append dir name)

back-append :
    (n : ℕ) (dir name : List ℕ)
    → slash ∉ name
    → back_to_slash (suc (length dir + n)) (dir ++ slash ∷ name) ≡ suc (length dir)
unfolding back_to_slash
back-append zero dir name out =
    let here : length dir + 0 ≡ length dir = omega arith in rw (here, get_slash dir name) refl
back-append (suc n) dir name out =
    let here : length dir + suc n ≡ suc (length dir + n) = omega arith in
    rw (here, get_behind dir name n, no_slash name n out) (back-append n dir name out)

-- The name behind the last slash of a path is padded to DIRSIZ bytes; one that is as long is not.
pub fmtname_lem :
    (dirsiz : ℕ) (dir name : List ℕ)
    → slash ∉ name
    → fmtname dirsiz (dir ++ slash ∷ name)
      ≡ (if leb dirsiz (length name) then name else name ++ blanks (dirsiz - length name))
unfolding fmtname
fmtname_lem dirsiz dir name out =
    rw (length-append dir name, back-append (length name) dir name out, suffix-append dir name) refl
