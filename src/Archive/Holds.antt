-- ===== src/Archive/Holds.antt =====
-- Bytes that lie in the memory, for pkg/stam/cpio.c, and the strings and numbers it reads there.
use verkos.Prelude.{
  ℕ, zero, suc, ◌+◌, ◌≡◌, refl, ap, ◌∙◌, subst, ◌≢◌, inl, inr, Bool, true, false, ◌&&◌, List, [],
  ◌∷◌, ◌++◌, arith, ◌==◌, Bool-cases, length,
}
use verkos.Archive.Reader.{Bytes, same_at, skip_slash_at, skip_slash_of}

-- The bytes `xs` lie from `p` on.
abbrev pub Holds : Bytes → ℕ → List ℕ → Type 0
Holds mem p [] = zero ≡ zero
Holds mem p (x ∷ xs) = (mem p ≡ x) × Holds mem (suc p) xs

pub Holds-at : (mem : Bytes) (xs : List ℕ) (p q : ℕ) → p ≡ q → Holds mem p xs → Holds mem q xs
Holds-at mem xs p q e h = subst (λ k. Holds mem k xs) e h

pub Holds-append :
    (mem : Bytes) (xs ys : List ℕ) (p : ℕ)
    → Holds mem p (xs ++ ys)
    → Holds mem p xs × Holds mem (p + length xs) ys
Holds-append mem [] ys p h = (refl, Holds-at mem ys p (p + 0) (omega arith) h)
Holds-append mem (x ∷ xs) ys p h =
    let r = Holds-append mem xs ys (suc p) h.1 in
    ((h.0, r.0), Holds-at mem ys (suc p + length xs) (p + suc (length xs)) (omega arith) r.1)

-- No byte of a string is the end of one.
abbrev pub IsString : List ℕ → Type 0
IsString [] = zero ≡ zero
IsString (b ∷ bs) = (b ≢ 0) × IsString bs

unfoldable pub eq_string : List ℕ → List ℕ → Bool
eq_string [] [] = true
eq_string [] (b ∷ bs) = false
eq_string (a ∷ as') [] = false
eq_string (a ∷ as') (b ∷ bs) = a == b && eq_string as' bs

-- `same_at` on a string that lies in memory with its end is equality.
pub same_at-eq_string :
    (mem : Bytes) (as' bs : List ℕ) (p : ℕ)
    → Holds mem p as'
    → mem (p + length as') ≡ 0
    → IsString as'
    → IsString bs
    → same_at mem p bs ≡ eq_string as' bs
unfolding same_at eq_string
same_at-eq_string mem [] [] p h z i j = ground (arith, z)
same_at-eq_string mem [] (b ∷ bs) p h z i j = ground (arith, z, j.0)
same_at-eq_string mem (a ∷ as') [] p h z i j = ground (arith, h.0, i.0)
same_at-eq_string mem (a ∷ as') (b ∷ bs) p h z i j =
    let ih = same_at-eq_string mem as' bs (suc p) h.1 (ap mem (omega arith) ∙ z) i.1 j.1 in
    ground (arith, ih, h.0, i.0, j.0)

pub skip_slash_lem :
    (mem : Bytes) (as' : List ℕ) (p : ℕ)
    → Holds mem p as'
    → mem (p + length as') ≡ 0
    → Holds mem (skip_slash_at mem p) (skip_slash_of as')
      × (mem (skip_slash_at mem p + length (skip_slash_of as')) ≡ 0)
unfolding skip_slash_at skip_slash_of
skip_slash_lem mem [] p h z = elim (Bool-cases (mem p == 47)) [
  | inl y ↦ absurd (ground (arith, y, z))
  | inr n ↦ rw n (refl, z)
]
skip_slash_lem mem (a ∷ as') p h z = elim (Bool-cases (a == 47)) [
  | inl y ↦ rw (h.0, y) (h.1, ap mem (omega arith) ∙ z)
  | inr n ↦ rw (h.0, n) (h, z)
]

pub skip_slash_of-IsString : (as' : List ℕ) → IsString as' → IsString (skip_slash_of as')
unfolding skip_slash_of
skip_slash_of-IsString [] i = refl
skip_slash_of-IsString (a ∷ as') i = elim (Bool-cases (a == 47)) [
  | inl y ↦ rw y i.1
  | inr n ↦ rw n i
]
