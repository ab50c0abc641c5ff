-- ===== src/Policy/Path.antt =====
-- What internal/policy/policy.go uses of `path/filepath`. An absolute cleaned path is the list of
-- its elements, the last one first: "/" is [], "/a/b" is b ∷ a ∷ [], and the parent is the tail.
use mow.Prelude.{
  ◌≡◌, refl, ◌<◌, arith, str_eq→eq, str_eq_refl, false, ℕ, suc, ◌+◌, Bool, true, ◌||◌, List, [],
  ◌∷◌, ◌==◌, if◌then◌else◌, length, Str, codes, str_eq,
}

abbrev pub FilePath : Type 0
FilePath = List Str

unfoldable pub path_eq : FilePath → FilePath → Bool
unfolding str_eq
path_eq [] [] = true
path_eq (x ∷ xs) (y ∷ ys) = let rest = path_eq xs ys in if str_eq x y then rest else false
path_eq _ _ = false

-- `strings.Split(s, "/")`.
abbrev onto : ℕ → List Str → List Str
onto c [] = (c ∷ []) ∷ []
onto c (l ∷ ls) = if c == b'/' then [] ∷ l ∷ ls else (c ∷ l) ∷ ls

unfoldable pub elements : Str → List Str
elements [] = [] ∷ []
elements (c ∷ s) = onto c (elements s)

-- `filepath.IsAbs`.
abbrev pub is_abs : Str → Bool
is_abs [] = false
is_abs (c ∷ s) = c == b'/'

-- The parent; that of "/" is "/".
abbrev pub parent : FilePath → FilePath
parent [] = []
parent (x ∷ p) = p

-- `filepath.Clean` of the elements behind a directory: empty ones and "." are dropped, and ".."
-- takes one off.
unfoldable pub clean_onto : FilePath → List Str → FilePath
unfolding str_eq
clean_onto dir [] = dir
clean_onto dir (e ∷ es) =
    clean_onto
      (if str_eq e [] || str_eq e (codes ".")
        then dir
        else if str_eq e (codes "..")
        then parent dir
        else e ∷ dir)
      es

-- `filepath.Clean(raw)`, or `filepath.Join(dir, raw)` if raw is relative.
unfoldable pub join : FilePath → Str → FilePath
unfolding clean_onto elements
join dir raw = clean_onto (if is_abs raw then [] else dir) (elements raw)

-- `candidate == r || strings.HasPrefix(candidate, r+"/")`, for a root that is not "/".
unfoldable pub is_under : FilePath → FilePath → Bool
unfolding path_eq
is_under r [] = path_eq r []
is_under r (x ∷ p) = path_eq r (x ∷ p) || is_under r p

-- The length of the path as text.
unfoldable pub text_length : FilePath → ℕ
text_length [] = 0
text_length (x ∷ p) = suc (length x + text_length p)

pub path_eq→eq : (p q : FilePath) → path_eq p q ≡ true → p ≡ q
unfolding path_eq
path_eq→eq [] [] h = refl
path_eq→eq [] (y ∷ q) h = cc
path_eq→eq (x ∷ p) [] h = cc
path_eq→eq (x ∷ p) (y ∷ q) h = ground (arith, path_eq→eq p q, str_eq→eq x y)

pub path_eq_refl : (p : FilePath) → path_eq p p ≡ true
unfolding path_eq
path_eq_refl [] = refl
path_eq_refl (x ∷ p) = ground (arith, str_eq_refl x, path_eq_refl p)

pub text_length_pos : (p : FilePath) → path_eq p [] ≡ false → 0 < text_length p
unfolding path_eq text_length
text_length_pos [] h = cc
text_length_pos (x ∷ p) h = omega arith
