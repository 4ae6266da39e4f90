-- ===== src/Archive/Extract.antt =====
-- The names that do_extract of pkg/vcpio/vcpio.c accepts. A name is the list of its bytes without the
-- zero at the end.
use verkos.Prelude.{
  ℕ, zero, suc, Bool, true, false, ◌&&◌, ◌||◌, Option, none, some, List, [], ◌∷◌, ◌==◌,
  if◌then◌else◌, length,
}

-- while (*nm == '/') nm++
unfoldable pub strip_slashes : List ℕ → List ℕ
strip_slashes [] = []
strip_slashes (b ∷ bs) = let rest = strip_slashes bs in if b == 47 then rest else b ∷ bs

-- c[0] == '.' && c[1] == '.' && (c[2] == '/' || c[2] == 0)
abbrev pub climbs_first : List ℕ → Bool
climbs_first [] = false
climbs_first (a ∷ []) = false
climbs_first (a ∷ b ∷ []) = a == 46 && b == 46
climbs_first (a ∷ b ∷ c ∷ cs) = a == 46 && (b == 46 && c == 47)

-- strchr(c, '/'), and the byte behind it
unfoldable pub behind_slash : List ℕ → Option (List ℕ)
behind_slash [] = none
behind_slash (b ∷ bs) = let rest = behind_slash bs in if b == 47 then some bs else rest

-- The loop that sets `traversal`; a component less each round.
unfoldable pub traversal : ℕ → List ℕ → Bool
traversal zero c = false
traversal (suc fuel) [] = false
traversal (suc fuel) (b ∷ bs) =
    if climbs_first (b ∷ bs)
    then true
    else elim (behind_slash (b ∷ bs)) [ none ↦ false | some c' ↦ traversal fuel c' ]

-- The name that an entry is extracted under, or -1.
unfoldable pub entry_name : List ℕ → Option (List ℕ)
entry_name name =
    let nm = strip_slashes name in
    if traversal (length nm) nm || length nm == 0 then none else some nm
