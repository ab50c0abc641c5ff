-- ===== src/Session/Arrays.antt =====
-- One JSON array that goes on where another one ends has its elements first.
use mow.Prelude.{
  str_eq, str_eq→eq, ==_iff, ℕ, zero, suc, ◌-◌, ◌+◌, ◌==◌, Bool, true, false, none, some, List, [],
  ◌∷◌, ◌++◌, ◌≡◌, refl, sym, ap, ◌∙◌, append_assoc, length, length-append, take, take-append,
  get_elem?, All, arith,
}
use mow.Session.Log.{Bytes}
use mow.Session.Store.{has_comma}
use mow.Session.Codec.{tail_bytes, item_bytes, array_bytes}

unfoldable starts : ℕ → Bytes → Bool
starts c [] = false
starts c (x ∷ _) = x == c

cancel : (a b c : Bytes) → a ++ b ≡ a ++ c → b ≡ c
cancel [] b c e = e
cancel (x ∷ a) b c e = cancel a b c (cc)

at-comma :
    (bytes : Bytes) (n : ℕ)
    → get_elem? bytes n ≡ some 44
    → (rest : Bytes) × (bytes ≡ take n bytes ++ (44 ∷ rest))
at-comma [] zero e = cc
at-comma [] (suc n) e = cc
at-comma (x ∷ bytes) zero e = (bytes, cc)
at-comma (x ∷ bytes) (suc n) e = let (rest, h) = at-comma bytes n e in (rest, cc)

comma-get_elem? : (bytes : Bytes) (n : ℕ) → has_comma bytes n ≡ true → get_elem? bytes n ≡ some 44
unfolding has_comma
comma-get_elem? bytes n e =
    elim (get_elem? bytes n)
        as (λ o. (elim o as (λ _. Bool) [ none ↦ false | some c ↦ c == 44 ]) ≡ true → o ≡ some 44) [
          | none ↦ λ h. cc
          | some c ↦ λ h. ap some ((==_iff c 44).0 h)
        ]
      e

take-cut :
    (whole front : Bytes) (c : ℕ)
    → whole ≡ front ++ (c ∷ [])
    → take (length whole - 1) whole ≡ front
take-cut whole front c e =
    let size : length front + 1 - 1 ≡ length front = omega arith in
    rw (e, length-append front (c ∷ []), size) (take-append front (c ∷ []))

module _ {ℓ} {A : Type ℓ} where
  -- The list goes on with these.
  unfoldable pub Extends : List A → List A → Type ℓ
  Extends old new = (more : List A) × (new ≡ old ++ more)

  -- An array without its end.
  unfoldable open_tail : (A → Bytes) → List A → Bytes
  open_tail element [] = []
  open_tail element (m ∷ ms) = 44 ∷ (element m ++ open_tail element ms)

  unfoldable open_items : (A → Bytes) → List A → Bytes
  open_items element [] = []
  open_items element (m ∷ ms) = element m ++ open_tail element ms

  closed_tail :
      (element : A → Bytes) (ms : List A)
      → tail_bytes element ms ≡ open_tail element ms ++ (93 ∷ [])
  unfolding tail_bytes open_tail
  closed_tail element [] = refl
  closed_tail element (m ∷ ms) =
      rw (closed_tail element ms, append_assoc (element m) (open_tail element ms) (93 ∷ [])) refl

  closed_items :
      (element : A → Bytes) (ms : List A)
      → item_bytes element ms ≡ open_items element ms ++ (93 ∷ [])
  unfolding item_bytes open_items
  closed_items element [] = refl
  closed_items element (m ∷ ms) =
      rw (closed_tail element ms, append_assoc (element m) (open_tail element ms) (93 ∷ [])) refl

  Extends-nil : (new : List A) → Extends [] new
  unfolding Extends
  Extends-nil new = (new, refl)

  Extends-cons :
      (m n : A) (old new : List A) → n ≡ m → Extends old new → Extends (m ∷ old) (n ∷ new)
  unfolding Extends
  Extends-cons m n old new same (more, e) = (more, cc)

  no_tail :
      (element : A → Bytes) (m : A) (ms : List A) (rest : Bytes)
      → tail_bytes element [] ≡ open_tail element (m ∷ ms) ++ (44 ∷ rest)
      → Extends (m ∷ ms) []
  unfolding tail_bytes open_tail starts
  no_tail element m ms rest e = let clash : true ≡ false = ap (starts 93) e in cc

  tail_step :
      (element : A → Bytes) (m n : A) (ms ns : List A) (rest : Bytes)
      → tail_bytes element (n ∷ ns) ≡ open_tail element (m ∷ ms) ++ (44 ∷ rest)
      → element n ++ tail_bytes element ns ≡ element m ++ (open_tail element ms ++ (44 ∷ rest))
  unfolding tail_bytes open_tail
  tail_step element m n ms ns rest e =
      cancel (44 ∷ []) _ _ e ∙ append_assoc (element m) (open_tail element ms) (44 ∷ rest)

  no_items :
      (element : A → Bytes) (m : A) (ms : List A) (rest text : Bytes)
      → element m ≡ 123 ∷ text
      → item_bytes element [] ≡ open_items element (m ∷ ms) ++ (44 ∷ rest)
      → Extends (m ∷ ms) []
  unfolding item_bytes open_items starts
  no_items element m ms rest text begins e =
      let clash : true ≡ false =
        ap (starts 93)
          (e ∙ ap (λ (t : Bytes). (t ++ open_tail element ms) ++ (44 ∷ rest)) begins) in
      cc

  items_step :
      (element : A → Bytes) (m n : A) (ms ns : List A) (rest : Bytes)
      → item_bytes element (n ∷ ns) ≡ open_items element (m ∷ ms) ++ (44 ∷ rest)
      → element n ++ tail_bytes element ns ≡ element m ++ (open_tail element ms ++ (44 ∷ rest))
  unfolding item_bytes open_items
  items_step element m n ms ns rest e =
      e ∙ append_assoc (element m) (open_tail element ms) (44 ∷ rest)

  module _ (element : A → Bytes) (Kept : A → Type 0)
      (object : (m : A) → (rest : Bytes) × (element m ≡ 123 ∷ rest))
      (prefix_free : (m n : A) (r t : Bytes)
        → Kept m
        → Kept n
        → element m ++ r ≡ element n ++ t
        → m ≡ n) where
    heads :
        (m n : A) (r t : Bytes)
        → Kept m
        → Kept n
        → element m ++ r ≡ element n ++ t
        → (m ≡ n) × (r ≡ t)
    heads m n r t kept_m kept_n e =
        let same : m ≡ n = prefix_free m n r t kept_m kept_n e in
        (same, cancel (element n) r t (ap (λ (x : A). element x ++ r) (sym same) ∙ e))

    tail-Extends :
        (old new : List A) (rest : Bytes)
        → All Kept old
        → All Kept new
        → tail_bytes element new ≡ open_tail element old ++ (44 ∷ rest)
        → Extends old new
    tail-Extends [] new rest kept_old kept_new e = Extends-nil new
    tail-Extends (m ∷ ms) [] rest kept_old kept_new e = no_tail element m ms rest e
    tail-Extends (m ∷ ms) (n ∷ ns) rest (kept, kept_old) (kept_n, kept_new) e =
        let both = heads n m _ _ kept_n kept (tail_step element m n ms ns rest e) in
        Extends-cons m n ms ns both.0 (tail-Extends ms ns rest kept_old kept_new both.1)

    items-Extends :
        (old new : List A) (rest : Bytes)
        → All Kept old
        → All Kept new
        → item_bytes element new ≡ open_items element old ++ (44 ∷ rest)
        → Extends old new
    items-Extends [] new rest kept_old kept_new e = Extends-nil new
    items-Extends (m ∷ ms) [] rest kept_old kept_new e =
        no_items element m ms rest (object m).0 (object m).1 e
    items-Extends (m ∷ ms) (n ∷ ns) rest (kept, kept_old) (kept_n, kept_new) e =
        let both = heads n m _ _ kept_n kept (items_step element m n ms ns rest e) in
        Extends-cons m n ms ns both.0 (tail-Extends ms ns rest kept_old kept_new both.1)

    -- What the test of a continuation finds.
    pub array-Extends :
        (old new : List A)
        → All Kept old
        → All Kept new
        → has_comma (array_bytes element new) (length (array_bytes element old) - 1) ≡ true
        → str_eq
            (take (length (array_bytes element old) - 1) (array_bytes element new))
            (take (length (array_bytes element old) - 1) (array_bytes element old))
          ≡ true
        → Extends old new
    unfolding array_bytes
    array-Extends old new kept_old kept_new comma same =
        let shape : array_bytes element old ≡ (91 ∷ open_items element old) ++ (93 ∷ []) =
          ap (λ (t : Bytes). 91 ∷ t) (closed_items element old) in
        let found = at-comma _ _ (comma-get_elem? _ _ comma) in
        let begins : take (length (array_bytes element old) - 1) (array_bytes element new)
            ≡ 91 ∷ open_items element old =
          str_eq→eq _ _ same ∙ take-cut _ _ 93 shape in
        items-Extends old new found.0 kept_old kept_new
          (cancel (91 ∷ []) _ _ (found.1 ∙ ap (λ (t : Bytes). t ++ (44 ∷ found.0)) begins))
