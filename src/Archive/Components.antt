-- ===== src/Archive/Components.antt =====
-- The loop over the components of a name in pkg/vcpio/vcpio.c against the list of its components.
use verkos.Prelude.{
  ℕ, zero, suc, ◌≤◌, ◌<◌, ◌≡◌, refl, sym, subst, inl, inr, Bool, true, false, ◌||◌, Option, none,
  some, List, [], ◌∷◌, arith, ◌==◌, if◌then◌else◌, Bool-cases, length,
}
use verkos.Archive.Extract.{strip_slashes, climbs_first, behind_slash, traversal, entry_name}
use verkos.Archive.Holds.{eq_string}

-- One more byte at the beginning of the first component.
abbrev pub onto_first : ℕ → List (List ℕ) → List (List ℕ)
onto_first b [] = (b ∷ []) ∷ []
onto_first b (c ∷ cs) = (b ∷ c) ∷ cs

-- The parts of a path between its slashes.
unfoldable pub components : List ℕ → List (List ℕ)
components [] = [] ∷ []
components (b ∷ bs) = let rest = components bs in if b == 47 then [] ∷ rest else onto_first b rest

abbrev pub is_dot_dot : List ℕ → Bool
is_dot_dot c = eq_string c (46 ∷ 46 ∷ [])

abbrev pub any_dot_dot : List (List ℕ) → Bool
any_dot_dot [] = false
any_dot_dot (c ∷ cs) = is_dot_dot c || any_dot_dot cs

-- The first component, and those behind the first slash.
unfoldable first : List ℕ → List ℕ
first [] = []
first (b ∷ bs) = let rest = first bs in if b == 47 then [] else b ∷ rest

abbrev others : Option (List ℕ) → List (List ℕ)
others none = []
others (some c) = components c

components_eq : (c : List ℕ) → components c ≡ first c ∷ others (behind_slash c)
unfolding components first behind_slash
components_eq [] = refl
components_eq (b ∷ bs) = elim (Bool-cases (b == 47)) [
  | inl y ↦ rw y refl
  | inr n ↦ rw (n, components_eq bs) refl
]

first_climbs : (c : List ℕ) → is_dot_dot (first c) ≡ climbs_first c
unfolding first eq_string
first_climbs [] = refl
first_climbs (a ∷ []) = ground arith
first_climbs (a ∷ b ∷ []) = ground arith
first_climbs (a ∷ b ∷ c ∷ cs) = ground arith

behind_slash_shorter : (c d : List ℕ) → behind_slash c ≡ some d → length d < length c
unfolding behind_slash
behind_slash_shorter [] d e = absurd (ground (arith, e))
behind_slash_shorter (b ∷ bs) d e = elim (Bool-cases (b == 47)) [
  | inl y ↦ ground (arith, y, e)
  | inr n ↦ ground (arith, behind_slash_shorter bs d, n, e)
]

-- The loop finds a component `..` exactly when there is one.
pub traversal_lem :
    (fuel : ℕ) (c : List ℕ) → length c ≤ fuel → traversal fuel c ≡ any_dot_dot (components c)
unfolding traversal components eq_string
traversal_lem zero [] h = refl
traversal_lem zero (b ∷ bs) h = absurd (omega (arith, h))
traversal_lem (suc fuel) [] h = refl
traversal_lem (suc fuel) (b ∷ bs) h =
    subst (λ k. traversal (suc fuel) (b ∷ bs) ≡ any_dot_dot k) (sym (components_eq (b ∷ bs)))
      (go (behind_slash (b ∷ bs))
        (λ d e. traversal_lem fuel d (omega (arith, behind_slash_shorter (b ∷ bs) d e, h))))
  where
    go :
        (r : Option (List ℕ))
        → ((d : List ℕ) → r ≡ some d → traversal fuel d ≡ any_dot_dot (components d))
        → (if climbs_first (b ∷ bs)
            then true
            else elim r [ none ↦ false | some c' ↦ traversal fuel c' ])
          ≡ (is_dot_dot (first (b ∷ bs)) || any_dot_dot (others r))
    go none ih = ground (arith, first_climbs (b ∷ bs))
    go (some d) ih = ground (arith, first_climbs (b ∷ bs), ih d refl)

abbrev pub begins_with_slash : List ℕ → Bool
begins_with_slash [] = false
begins_with_slash (b ∷ bs) = b == 47

strip_slashes_lem : (name : List ℕ) → begins_with_slash (strip_slashes name) ≡ false
unfolding strip_slashes
strip_slashes_lem [] = refl
strip_slashes_lem (b ∷ bs) = elim (Bool-cases (b == 47)) [
  | inl y ↦ rw y (strip_slashes_lem bs)
  | inr n ↦ rw n n
]

-- A name without the slashes at its beginning is what an entry is extracted under, unless it is empty
-- or one of its components is `..`: these, and no others, are refused; it never begins with a slash.
pub entry_name_lem :
    (name : List ℕ)
    → let nm = strip_slashes name in
      (entry_name name ≡ (if any_dot_dot (components nm) || length nm == 0 then none else some nm))
      × (begins_with_slash nm ≡ false)
unfolding entry_name
entry_name_lem name =
    let nm = strip_slashes name in
    (rw (traversal_lem (length nm) nm (omega arith)) refl, strip_slashes_lem name)
