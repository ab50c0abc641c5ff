-- ===== src/Ext/Counts.antt =====
-- How often a generation is in a list, and the references to it.
use mow.Prelude.{
  ℕ, zero, suc, ◌+◌, ◌≤◌, leb, ◌==◌, if◌then◌else◌, any, ◌&&◌, true, false, Option, none, some,
  List, [], ◌∷◌, ◌≡◌, refl, arith,
}
use mow.Ext.Engines.{lookup_ref, put_ref, delete_ref, remove}

-- How often a generation is in a list.
unfoldable pub count : ℕ → List ℕ → ℕ
count g [] = 0
count g (h ∷ rest) = let more = count g rest in if h == g then 1 + more else more

unfoldable pub refs_for : ℕ → Option ℕ
refs_for zero = none
refs_for (suc n) = some (suc n)

-- 1 for a generation that there was, and 0 for another.
unfoldable pub was_opened : ℕ → ℕ → ℕ
was_opened g gen = if leb 1 g && leb g gen then 1 else 0

pub lookup-put :
    (g h n : ℕ) (l : List (ℕ × ℕ))
    → lookup_ref g (put_ref h n l) ≡ (if h == g then some n else lookup_ref g l)
unfolding lookup_ref put_ref
lookup-put g h n [] = refl
lookup-put g h n ((k, m) ∷ l) = ground (arith, lookup-put g h n l)

pub lookup-delete :
    (g h : ℕ) (l : List (ℕ × ℕ))
    → lookup_ref g (delete_ref h l) ≡ (if h == g then none else lookup_ref g l)
unfolding lookup_ref delete_ref
lookup-delete g h [] = ground arith
lookup-delete g h ((k, m) ∷ l) = ground (arith, lookup-delete g h l)

pub count-remove :
    (g h : ℕ) (l : List ℕ)
    → any (λ x. x == h) l ≡ true
    → count g (remove h l) + (if h == g then 1 else 0) ≡ count g l
unfolding count remove
count-remove g h [] found = cc
count-remove g h (k ∷ l) found = ground (arith, count-remove g h l)

pub count-found : (h : ℕ) (l : List ℕ) → any (λ x. x == h) l ≡ true → 1 ≤ count h l
unfolding count
count-found h [] found = cc
count-found h (k ∷ l) found = ground (arith, count-found h l)

pub below_one : 1 ≤ 0 → ⊥
below_one h = omega arith

pub count-cons : (g h : ℕ) (l : List ℕ) → count g (h ∷ l) ≡ (if h == g then 1 else 0) + count g l
unfolding count
count-cons g h l = ground arith

pub was_opened-none : (g : ℕ) → 0 ≡ was_opened g 0
unfolding was_opened
was_opened-none g = ground arith

pub hit : (g x : ℕ) → (g == x) ≡ true → ◌≡◌ {A = ℕ} (if g == x then 1 else 0) 1
hit g x e = rw e refl

pub miss : (g x : ℕ) → (g == x) ≡ false → ◌≡◌ {A = ℕ} (if g == x then 1 else 0) 0
miss g x e = rw e refl

pub was_opened-next :
    (g n : ℕ) → was_opened g (n + 1) ≡ was_opened g n + (if n + 1 == g then 1 else 0)
unfolding was_opened
was_opened-next g n = ground arith

pub was_opened-new : (n : ℕ) → was_opened (n + 1) n ≡ 0
unfolding was_opened
was_opened-new n = ground arith

pub was_opened-le : (g n : ℕ) → was_opened g n ≤ 1
unfolding was_opened
was_opened-le g n = ground arith

pub opened-positive : (g n : ℕ) → 1 ≤ was_opened g n → 1 ≤ g
unfolding was_opened
opened-positive g n h = ground arith
